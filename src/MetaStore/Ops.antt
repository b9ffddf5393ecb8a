-- ===== src/MetaStore/Ops.antt =====
-- internal/store/meta.go: the store and its operations on objects and buckets.
use jario.Base.{ℕ, Bool, true, false, List, [], ◌∷◌, Option, none, some, length, ◌-◌, if◌then◌else◌}
use jario.Text.{Text, text_eq, text_eq_inst}
use jario.Text.Decimal.{format_int}
use jario.Outcome.{Outcome, ok, err, panic, no_bucket, no_key, or_err, Codec, ◌>>=◌}
use jario.GoMap.{GoMap, lookup, insert, delete}
use jario.BucketDb
use jario.BucketDb.{Bucket, BucketMeta, Bolt}
use jario.MetaStore.Versions.{
  ObjectMeta, VersionEntry, VersionState, new_version_state, push_version, find_version,
  remove_version, current_version,
}

-- bucket → key → versions
abbrev pub Objects : Type 0
Objects = GoMap Text (GoMap Text VersionState)

pub record MetaStore (Db : Type 0) : Type 0 where
  pub buckets : Db
  pub cache : GoMap Text Bool
  pub objects : Objects
  pub region : Text

abbrev pub flag : Option Bool → Bool
flag none = false
flag (some b) = b

abbrev pub or_new : Option VersionState → VersionState
or_new none = new_version_state
or_new (some vs) = vs

-- The delete marker that `DeleteObject` writes.
abbrev pub marker : Text → ℕ → ObjectMeta
marker key now = record {
  key = key;
  size = 0;
  etag = [];
  content_type = [];
  sha256 = [];
  created_at = now;
  version_id = [];
  is_delete_marker = true;
}

module _ {Db : Type 0} where
  -- m.cache[bucket]
  abbrev pub is_cached : MetaStore Db → Text → Bool
  is_cached m bucket = flag (lookup bucket m.cache)

  -- `m.objects[bucket]` and then `[key]`: a missing bucket reads as an empty map.
  unfoldable pub find_key : MetaStore Db → (bucket key : Text) → Option VersionState
  find_key m bucket key = elim (lookup bucket m.objects) [
    | none ↦ none
    | some objs ↦ lookup key objs
  ]

  abbrev pub set_key :
      MetaStore Db → (bucket key : Text) → GoMap Text VersionState → VersionState → MetaStore Db
  set_key m bucket key objs vs = record m { objects = insert bucket (insert key vs objs) m.objects }

  -- Writing to the nil map of a bucket that has no entry in `m.objects` panics.
  unfoldable pub put_object :
      MetaStore Db → (bucket key : Text) → ObjectMeta → Outcome Text × MetaStore Db
  put_object m bucket key meta =
      if is_cached m bucket
      then elim (lookup bucket m.objects) [
        | none ↦ (panic, m)
        | some objs ↦
            let vs = or_new (lookup key objs) in
            (ok (format_int vs.next_id), set_key m bucket key objs (push_version vs meta))
      ]
      else (err no_bucket, m)

  unfoldable pub get_object : MetaStore Db → (bucket key version_id : Text) → Outcome ObjectMeta
  get_object m bucket key version_id = elim (find_key m bucket key) [
    | none ↦ err no_key
    | some vst ↦
        if text_eq version_id []
        then current_version vst
        else or_err no_key (find_version version_id vst.versions)
  ]

  unfoldable pub get_object_version :
      MetaStore Db → (bucket key version_id : Text) → Outcome ObjectMeta
  get_object_version m bucket key version_id = elim (find_key m bucket key) [
    | none ↦ err no_key
    | some vst ↦ or_err no_key (find_version version_id vst.versions)
  ]

  unfoldable pub is_delete_marker : MetaStore Db → (bucket key version_id : Text) → Bool
  is_delete_marker m bucket key version_id = elim (get_object_version m bucket key version_id) [
    | ok meta ↦ meta.is_delete_marker
    | _ ↦ false
  ]

  -- What `DeleteObject` leaves of a key when a version is removed for good.
  abbrev pub keep_versions :
      MetaStore Db
      → (bucket key : Text) → GoMap Text VersionState
      → VersionState
      → List VersionEntry
      → MetaStore Db
  keep_versions m bucket key objs vst [] = record m {
    objects = insert bucket (delete key objs) m.objects;
  }
  keep_versions m bucket key objs vst (e ∷ es) =
      set_key m bucket key objs (record vst { versions = e ∷ es; current = length (e ∷ es) - 1 })

  unfoldable pub delete_object :
      MetaStore Db → (bucket key version_id : Text) (now : ℕ) → Outcome Text × MetaStore Db
  delete_object m bucket key version_id now =
      if is_cached m bucket
      then elim (lookup bucket m.objects) [
        | none ↦ (err no_key, m)
        | some objs ↦ elim (lookup key objs) [
          | none ↦ (err no_key, m)
          | some vst ↦
              if text_eq version_id []
              then (
                ok (format_int vst.next_id),
                set_key m bucket key objs (push_version vst (marker key now)),
              )
              else elim (remove_version version_id vst.versions) [
                | none ↦ (err no_key, m)
                | some rest ↦ (ok [], keep_versions m bucket key objs vst rest)
              ]
        ]
      ]
      else (err no_bucket, m)

  unfoldable pub delete_object_legacy :
      MetaStore Db → (bucket key : Text) (now : ℕ) → Outcome (Unit {0}) × MetaStore Db
  delete_object_legacy m bucket key now =
      let (result, m') = delete_object m bucket key [] now in (result >>= λ _. ok tt, m')

  abbrev pub set_region : MetaStore Db → Text → MetaStore Db
  set_region m r = record m { region = r }

-- for _, b := range buckets { cache[b.Name] = true }
unfoldable pub cache_from : GoMap Text Bool → List Bucket → GoMap Text Bool
cache_from cache [] = cache
cache_from cache (b ∷ bs) = cache_from (insert b.name true cache) bs

module _ (bolt : Bolt) (json : Codec BucketMeta) where
  -- The cache of bucket names, from the list that BoltDB returns; its error is ignored.
  unfoldable pub load_cache : bolt.Db → GoMap Text Bool
  load_cache db = cache_from [] (BucketDb.list bolt json db).0

  unfoldable pub new_meta_store : bolt.Db → MetaStore bolt.Db
  new_meta_store db = record { buckets = db; cache = load_cache db; objects = []; region = [] }

  unfoldable pub create_bucket :
      MetaStore bolt.Db → Text → ℕ → Outcome (Unit {0}) × MetaStore bolt.Db
  create_bucket m name now = elim (BucketDb.create bolt json m.buckets name m.region now) [
    | err e ↦ (err e, m)
    | panic ↦ (panic, m)
    | ok db ↦ (
      ok tt,
      record m {
        buckets = db;
        cache = insert name true m.cache;
        objects = insert name [] m.objects;
      },
    )
  ]

  unfoldable pub delete_bucket : MetaStore bolt.Db → Text → Outcome (Unit {0}) × MetaStore bolt.Db
  delete_bucket m name = elim (BucketDb.delete bolt json m.buckets name) [
    | err e ↦ (err e, m)
    | panic ↦ (panic, m)
    | ok db ↦ (
      ok tt,
      record m { buckets = db; cache = delete name m.cache; objects = delete name m.objects },
    )
  ]

  unfoldable pub get_bucket : MetaStore bolt.Db → Text → Outcome Bucket
  get_bucket m name = BucketDb.get bolt json m.buckets name

  unfoldable pub list_buckets : MetaStore bolt.Db → List Bucket
  list_buckets m = (BucketDb.list bolt json m.buckets).0
