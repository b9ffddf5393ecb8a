-- ===== src/Tests/Blobs.antt =====
-- The theorems on the blobs at concrete inputs.
use jario.Base.{inl, ◌≡◌, ◌≢◌, refl, [], ◌∷◌, some, arith}
use jario.Text.{Text, codes, text_eq, text_eq_iff, text_eq_inst}
use jario.Text.Decimal.{format_int, format_int-ne-nil}
use jario.Outcome.{ok, err, other}
use jario.GoMap.{GoMap, lookup, insert}
use jario.BucketDb
use jario.BucketDb.{list, list_from}
use jario.MetaStore.Versions.{
  VersionState, find_from, current_version, push_version, with_version_id,
}
use jario.MetaStore.Ops
use jario.MetaStore.Ops.{find_key, new_meta_store, load_cache, cache_from}
use jario.Raft.Fsm.{put_op, delete_version_op, apply_op, raft_apply}
use jario.Store.State.{Store, new_store, write_blob, blob_path}
use jario.Store.Objects.{put_object, get_object, delete_object, create_bucket, open_error}
use jario.Store.Blobs.{path_of, meta_of}
use jario.Store.Reach
use jario.Store.Reach.{Reach, start, next, creates, puts}
use jario.Store.Shared
use jario.Tests.Data.{bolt, constant, bucket_meta, photos, cat, upload, first, store_with, sha_a}
use jario.Tests.Engine.{env, hash}

abbrev dog : Text
dog = codes "dog"

abbrev one : VersionState
one = record { versions = first ∷ []; current = 0; next_id = 2 }

-- Two keys with the same content.
abbrev twins : Store (GoMap Text Text)
twins =
    new_store (codes "data") (store_with ((cat, one) ∷ (dog, one) ∷ []))
      ((path_of (codes "data") sha_a, codes "one") ∷ [])

twins-found : find_key twins.meta photos cat ≡ some one
unfolding find_key lookup text_eq
twins-found = refl

twins-read : get_object twins photos dog [] ≡ ok (codes "one", first.meta)
unfolding get_object Ops.get_object find_key lookup text_eq current_version blob_path
twins-read = refl

cat-ne-dog : cat ≢ dog
unfolding text_eq
cat-ne-dog h = let same = (text_eq_iff cat dog).1 h in absurd (cc)

first-found : find_from 0 (format_int 1) one.versions ≡ some (0, first.meta)
unfolding find_from text_eq format_int
first-found = refl

get_object-shared_blob_example :
    ((delete_object
        (constant upload)
        (constant (delete_version_op photos cat (format_int 1)))
        photos
        cat
        (format_int 1)
        env
        twins).0
      ≡ ok [])
    × (get_object
          (delete_object
            (constant upload)
            (constant (delete_version_op photos cat (format_int 1)))
            photos
            cat
            (format_int 1)
            env
            twins).1
          photos
          dog
          []
        ≡ err (other (open_error (path_of (codes "data") sha_a) sha_a)))
unfolding lookup text_eq
get_object-shared_blob_example =
    Shared.get_object-shared_blob (constant upload)
      (constant (delete_version_op photos cat (format_int 1))) twins photos cat (format_int 1) env
      one 0 first.meta dog first.meta (codes "one") (refl, _, refl) twins-found refl
      (format_int-ne-nil 1) first-found (omega arith) refl (omega arith) refl cat-ne-dog twins-read
      refl

-- A new store, a bucket, and an object.
abbrev fresh : Store (GoMap Text Text)
fresh = new_store (codes "data") (Ops.new_meta_store bolt (constant bucket_meta) []) []

abbrev opened : Store (GoMap Text Text)
opened = (create_bucket bolt (constant bucket_meta) photos env fresh).1

abbrev filled : Store (GoMap Text Text)
filled =
    (put_object (constant (meta_of hash cat (codes "hi") env)) (constant (put_op photos cat []))
      hash photos cat (codes "hi") env opened).1

filled-Reach :
    Reach bolt
      (constant bucket_meta)
      (constant (meta_of hash cat (codes "hi") env))
      (constant (put_op photos cat []))
      hash
      filled
filled-Reach =
    next (next (start (codes "data") [] []) (creates photos env))
      (puts photos cat (codes "hi") env (λ s _. refl) (inl refl))

filled-read :
    Ops.get_object filled.meta photos cat []
    ≡ ok (with_version_id (meta_of hash cat (codes "hi") env) 1)
unfolding Ops.get_object Ops.put_object Ops.create_bucket Ops.new_meta_store find_key put_object
    create_bucket write_blob blob_path raft_apply apply_op lookup insert text_eq current_version
    push_version BucketDb.create load_cache cache_from list list_from
filled-read = refl

Reach-get_object_example :
    (content : Text) × (get_object filled photos cat []
      ≡ ok (content, with_version_id (meta_of hash cat (codes "hi") env) 1))
    × (hash content ≡ hash (codes "hi"))
Reach-get_object_example =
    Reach.Reach-get_object bolt (constant bucket_meta)
      (constant (meta_of hash cat (codes "hi") env)) (constant (put_op photos cat [])) hash
      (λ content. refl) photos cat (with_version_id (meta_of hash cat (codes "hi") env) 1)
      filled-Reach filled-read
