-- ===== src/MetaStore/Reach.antt =====
-- internal/store/meta.go: every run of the operations from an empty store keeps the invariant.
use jario.Base.{
  ℕ, ◌+◌, ◌^◌, ◌<◌, ◌≡◌, refl, ap, List, [], ◌∷◌, some, Bool-cases, Option-cases, inl, inr,
}
use jario.Text.{Text, text_eq, text_eq_inst}
use jario.Outcome.{Codec, Outcome-cases}
use jario.GoMap.{
  GoMap, lookup, lookup-Every, insert-IsMap, insert-Every, delete-IsMap, delete-Every,
}
use jario.BucketDb.{Bolt, BucketMeta}
use jario.BucketDb
use jario.MetaStore.Versions.{ObjectMeta, VersionState, push_version, remove_version}
use jario.MetaStore.Ops.{
  MetaStore, or_new, is_cached, set_key, keep_versions, marker, put_object, delete_object,
  new_meta_store, create_bucket, delete_bucket,
}
use jario.MetaStore.Lookups.{versions_at, find_key-eq}
use jario.MetaStore.Invariant.{
  AreValid, IsValid, push_version-IsValid, set_key-AreValid, delete_key-AreValid, or_new-IsOpen,
  after_removal-IsValid,
}

module _ {Db : Type 0} (m : MetaStore Db) where
  -- The key has an ID left to give.
  abbrev pub HasRoom : Text → Text → Type 0
  HasRoom b k = (versions_at m b k).next_id + 1 < 2 ^ 63

  push-AreValid :
      (b k : Text) (meta : ObjectMeta) (objs : GoMap Text VersionState)
      → AreValid m.objects
      → lookup b m.objects ≡ some objs
      → HasRoom b k
      → meta.key ≡ k
      → AreValid (set_key m b k objs (push_version (or_new (lookup k objs)) meta)).objects
  push-AreValid b k meta objs valid found room own =
      set_key-AreValid m.objects b k objs _ valid found (
        push_version-IsValid k _ meta
          (or_new-IsOpen k objs (lookup-Every _ b m.objects objs found valid.1).1
            (rw (ap or_new (find_key-eq m b k objs found)) at room))
          own)

  pub put_object-AreValid :
      (b k : Text) (meta : ObjectMeta)
      → AreValid m.objects
      → HasRoom b k
      → meta.key ≡ k
      → AreValid (put_object m b k meta).1.objects
  unfolding put_object
  put_object-AreValid b k meta valid room own = elim (Bool-cases (is_cached m b)) [
    | inr unknown ↦ rw unknown valid
    | inl cached ↦ elim (Option-cases (lookup b m.objects)) [
      | inl missing ↦ rw (cached, missing) valid
      | inr (objs, found) ↦ rw (cached, found) (push-AreValid b k meta objs valid found room own)
    ]
  ]

  keep_versions-AreValid :
      (b k vid : Text) (objs : GoMap Text VersionState) (vst : VersionState) (rest : List _)
      → AreValid m.objects
      → lookup b m.objects ≡ some objs
      → lookup k objs ≡ some vst
      → remove_version vid vst.versions ≡ some rest
      → AreValid (keep_versions m b k objs vst rest).objects
  keep_versions-AreValid b k vid objs vst [] valid found key r =
      delete_key-AreValid m.objects b k objs valid found
  keep_versions-AreValid b k vid objs vst (e ∷ es) valid found key r =
      set_key-AreValid m.objects b k objs _ valid found (
        after_removal-IsValid k vid vst (e ∷ es)
          (lookup-Every IsValid k objs vst key (lookup-Every _ b m.objects objs found valid.1).1) r)

  pub delete_object-AreValid :
      (b k vid : Text) (now : ℕ)
      → AreValid m.objects
      → HasRoom b k
      → AreValid (delete_object m b k vid now).1.objects
  unfolding delete_object
  delete_object-AreValid b k vid now valid room = elim (Bool-cases (is_cached m b)) [
    | inr unknown ↦ rw unknown valid
    | inl cached ↦ elim (Option-cases (lookup b m.objects)) [
      | inl missing ↦ rw (cached, missing) valid
      | inr (objs, found) ↦ elim (Option-cases (lookup k objs)) [
        | inl absent ↦ rw (cached, found, absent) valid
        | inr (vst, key) ↦ elim (Bool-cases (text_eq vid [])) [
          | inl mark ↦
              rw (cached, found, key, mark)
                (rw (ap or_new key) at
                  (push-AreValid b k (marker k now) objs valid found room refl))
          | inr named ↦ elim (Option-cases (remove_version vid vst.versions)) [
            | inl missing ↦ rw (cached, found, key, named, missing) valid
            | inr (rest, removed) ↦
                rw (cached, found, key, named, removed)
                  (keep_versions-AreValid b k vid objs vst rest valid found key removed)
          ]
        ]
      ]
    ]
  ]

module _ (bolt : Bolt) (json : Codec BucketMeta) where
  pub create_bucket-AreValid :
      (m : MetaStore bolt.Db) (name : Text) (now : ℕ)
      → AreValid m.objects
      → AreValid (create_bucket bolt json m name now).1.objects
  unfolding create_bucket
  create_bucket-AreValid m name now (map, every) =
      elim (Outcome-cases (BucketDb.create bolt json m.buckets name m.region now)) [
        | inl (db, created) ↦
            rw (created, create_bucket)
              (insert-IsMap name [] m.objects map, insert-Every _ name [] m.objects (tt, tt) every)
        | inr (inl (e, failed)) ↦ rw (failed, create_bucket) (map, every)
        | inr (inr failed) ↦ rw (failed, create_bucket) (map, every)
      ]

  pub delete_bucket-AreValid :
      (m : MetaStore bolt.Db) (name : Text)
      → AreValid m.objects
      → AreValid (delete_bucket bolt json m name).1.objects
  unfolding delete_bucket
  delete_bucket-AreValid m name (map, every) =
      elim (Outcome-cases (BucketDb.delete bolt json m.buckets name)) [
        | inl (db, deleted) ↦
            rw (deleted, delete_bucket)
              (delete-IsMap name m.objects map, delete-Every _ name m.objects every)
        | inr (inl (e, failed)) ↦ rw (failed, delete_bucket) (map, every)
        | inr (inr failed) ↦ rw (failed, delete_bucket) (map, every)
      ]

  -- One call of an operation that writes. A put stores an object under its own key, and a key has
  -- an ID left.
  pub data Step (m : MetaStore bolt.Db) : MetaStore bolt.Db → Type 0 where
    create : (name : Text) (now : ℕ) → Step m (create_bucket bolt json m name now).1
    drop : (name : Text) → Step m (delete_bucket bolt json m name).1
    put :
        (b k : Text) (meta : ObjectMeta)
        → HasRoom m b k
        → meta.key ≡ k
        → Step m (put_object m b k meta).1
    remove : (b k vid : Text) (now : ℕ) → HasRoom m b k → Step m (delete_object m b k vid now).1

  pub Step-AreValid :
      {m m' : MetaStore bolt.Db} → Step m m' → AreValid m.objects → AreValid m'.objects
  Step-AreValid {m} (create name now) v = create_bucket-AreValid m name now v
  Step-AreValid {m} (drop name) v = delete_bucket-AreValid m name v
  Step-AreValid {m} (put b k meta room own) v = put_object-AreValid m b k meta v room own
  Step-AreValid {m} (remove b k vid now room) v = delete_object-AreValid m b k vid now v room

  pub data Reach (db : bolt.Db) : MetaStore bolt.Db → Type 0 where
    start : Reach db (new_meta_store bolt json db)
    next : {m m' : MetaStore bolt.Db} → Reach db m → Step m m' → Reach db m'

  -- Whatever puts, deletes, bucket creations and bucket deletions have run since the store was
  -- opened, no bucket and no key has two entries, and each key has a version list with distinct,
  -- growing IDs below the next one, whose last version is the current one. Each put stores an
  -- object under its own key, and a key that a put or a delete names has an ID left.
  pub Reach-AreValid : {db : bolt.Db} {m : MetaStore bolt.Db} → Reach db m → AreValid m.objects
  unfolding new_meta_store
  Reach-AreValid start = (tt, tt)
  Reach-AreValid (next r s) = Step-AreValid s (Reach-AreValid r)
