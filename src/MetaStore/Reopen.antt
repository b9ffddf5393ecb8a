-- ===== src/MetaStore/Reopen.antt =====
-- internal/store/meta.go: the store after a restart.
use jario.Base.{◌≡◌, refl, Bool, true, false, List, [], ◌∷◌, arith, if◌then◌else◌}
use jario.Text.{Text, text_eq, text_eq_inst}
use jario.Outcome.{err, panic, no_key, no_bucket, Codec}
use jario.GoMap.{GoMap, lookup, insert, lookup-insert}
use jario.BucketDb.{Bolt, Bucket, BucketMeta}
use jario.BucketDb
use jario.MetaStore.Versions.{ObjectMeta}
use jario.MetaStore.Ops.{
  flag, find_key, cache_from, load_cache, new_meta_store, put_object, get_object,
}

-- The names of a list of buckets.
abbrev pub has_name : Text → List Bucket → Bool
has_name name [] = false
has_name name (b ∷ bs) = if text_eq b.name name then true else has_name name bs

pub flag-cache_from :
    (name : Text) (cache : GoMap Text Bool) (bs : List Bucket)
    → flag (lookup name (cache_from cache bs))
      ≡ (if has_name name bs then true else flag (lookup name cache))
unfolding cache_from
flag-cache_from name cache [] = refl
flag-cache_from name cache (b ∷ bs) = ground (
  arith,
  flag-cache_from name (insert b.name true cache) bs,
  lookup-insert b.name name true cache,
)

module _ (bolt : Bolt) (json : Codec BucketMeta) where
  -- A store that has just been opened reads no object; a put panics if the database lists the
  -- bucket, since the map of its keys is not there yet, and is refused otherwise. The store stays
  -- as it was.
  pub put_object-new_meta_store :
      (db : bolt.Db) (b k : Text) (meta : ObjectMeta)
      → (get_object (new_meta_store bolt json db) b k [] ≡ err no_key)
        × (put_object (new_meta_store bolt json db) b k meta ≡ (
          (if has_name b (BucketDb.list bolt json db).0 then panic else err no_bucket),
          new_meta_store bolt json db,
        ))
  unfolding new_meta_store put_object get_object find_key load_cache lookup
  put_object-new_meta_store db b k meta =
      (ground arith, ground (arith, flag-cache_from b [] (BucketDb.list bolt json db).0))
