-- ===== src/MetaStore/Contents.antt =====
-- internal/store/meta.go: what holds of the metadata of every version stays so under the writes.
use jario.Base.{
  ℕ, ◌≡◌, false, [], some, arith, get_elem?, All, All-append, All-imp, All-get_elem?, Bool-cases,
  Option-cases, inl, inr,
}
use jario.Text.{Text, text_eq, text_eq_inst}
use jario.Outcome.{Codec, ok, Outcome-cases}
use jario.GoMap.{GoMap, lookup, Every, Every-imp, lookup-Every, insert-Every, delete-Every}
use jario.BucketDb.{Bolt, BucketMeta}
use jario.BucketDb
use jario.MetaStore.Versions.{
  ObjectMeta, VersionState, with_version_id, push_version, current_version,
}
use jario.MetaStore.Ops.{
  MetaStore, Objects, or_new, is_cached, find_key, set_key, marker, put_object, get_object,
  delete_object, create_bucket, delete_bucket,
}

abbrev pub AllVersions : (ObjectMeta → Type 0) → VersionState → Type 0
AllVersions P vs = All (λ e. P e.meta) vs.versions

abbrev pub AllMetas : (ObjectMeta → Type 0) → Objects → Type 0
AllMetas P = Every (λ _ objs. Every (λ _ vs. AllVersions P vs) objs)

pub AllMetas-imp :
    {P Q : ObjectMeta → Type 0}
    → ((meta : ObjectMeta) → P meta → Q meta)
    → (objects : Objects) → AllMetas P objects
    → AllMetas Q objects
AllMetas-imp f = Every-imp (λ _. Every-imp (λ _ vs. All-imp (λ e. f e.meta) vs.versions))

module _ (P : ObjectMeta → Type 0) where
  or_new-AllVersions :
      (k : Text) (objs : GoMap Text VersionState)
      → Every (λ _. AllVersions P) objs
      → AllVersions P (or_new (lookup k objs))
  or_new-AllVersions k objs h = elim (Option-cases (lookup k objs)) [
    | inl missing ↦ rw missing tt
    | inr (vs, found) ↦ rw found (lookup-Every (λ _. AllVersions P) k objs vs found h)
  ]

  module _ {Db : Type 0} (m : MetaStore Db) where
    push-AllMetas :
        (b k : Text) (meta : ObjectMeta) (objs : GoMap Text VersionState)
        → ((n : ℕ) → P (with_version_id meta n))
        → AllMetas P m.objects
        → lookup b m.objects ≡ some objs
        → AllMetas P (set_key m b k objs (push_version (or_new (lookup k objs)) meta)).objects
    unfolding push_version
    push-AllMetas b k meta objs own all found =
        let here = lookup-Every _ b m.objects objs found all in
        insert-Every _ b _ m.objects
          (insert-Every _ k _ objs
            (All-append (λ e. P e.meta) (or_new (lookup k objs)).versions _
              (or_new-AllVersions k objs here) (own _, tt))
            here)
          all

    pub put_object-AllMetas :
        (b k : Text) (meta : ObjectMeta)
        → ((n : ℕ) → P (with_version_id meta n))
        → AllMetas P m.objects
        → AllMetas P (put_object m b k meta).1.objects
    unfolding put_object
    put_object-AllMetas b k meta own all = elim (Bool-cases (is_cached m b)) [
      | inr unknown ↦ rw unknown all
      | inl cached ↦ elim (Option-cases (lookup b m.objects)) [
        | inl missing ↦ rw (cached, missing) all
        | inr (objs, found) ↦ rw (cached, found) (push-AllMetas b k meta objs own all found)
      ]
    ]

    pub delete_marker-AllMetas :
        (b k : Text) (now : ℕ)
        → ((n : ℕ) → P (with_version_id (marker k now) n))
        → AllMetas P m.objects
        → AllMetas P (delete_object m b k [] now).1.objects
    unfolding delete_object text_eq
    delete_marker-AllMetas b k now own all = elim (Bool-cases (is_cached m b)) [
      | inr unknown ↦ rw unknown all
      | inl cached ↦ elim (Option-cases (lookup b m.objects)) [
        | inl missing ↦ rw (cached, missing) all
        | inr (objs, found) ↦ elim (Option-cases (lookup k objs)) [
          | inl absent ↦ rw (cached, found, absent) all
          | inr (vst, key) ↦
              rw (cached, found, key)
                (rw key at (push-AllMetas b k (marker k now) objs own all found))
        ]
      ]
    ]

    find_key-AllVersions :
        (b k : Text) (vst : VersionState)
        → find_key m b k ≡ some vst
        → AllMetas P m.objects
        → AllVersions P vst
    unfolding find_key
    find_key-AllVersions b k vst found all = elim (Option-cases (lookup b m.objects)) [
      | inl missing ↦ absurd (ground (arith, missing))
      | inr (objs, there) ↦
          lookup-Every (λ _. AllVersions P) k objs vst (ground (arith, found, there))
            (lookup-Every _ b m.objects objs there all)
    ]

    -- A plain read.
    pub get_object-holds :
        (b k : Text) (meta : ObjectMeta)
        → get_object m b k [] ≡ ok meta
        → AllMetas P m.objects
        → P meta × (meta.is_delete_marker ≡ false)
    unfolding get_object current_version text_eq
    get_object-holds b k meta read all = elim (Option-cases (find_key m b k)) [
      | inl missing ↦ absurd (ground (arith, missing))
      | inr (vst, found) ↦ elim (Option-cases (get_elem? vst.versions vst.current)) [
        | inl missing ↦ absurd (ground (arith, found, missing))
        | inr (e, there) ↦
            let same : e.meta ≡ meta = ground (arith, found, there) in
            rw (← same) (
              All-get_elem? (λ e. P e.meta) vst.versions vst.current e
                  (find_key-AllVersions b k vst found all) there,
              ground (arith, found, there),
            )
      ]
    ]

  module _ (bolt : Bolt) (json : Codec BucketMeta) (m : MetaStore bolt.Db) where
    pub create_bucket-AllMetas :
        (name : Text) (now : ℕ)
        → AllMetas P m.objects
        → AllMetas P (create_bucket bolt json m name now).1.objects
    unfolding create_bucket
    create_bucket-AllMetas name now all =
        elim (Outcome-cases (BucketDb.create bolt json m.buckets name m.region now)) [
          | inl (db, created) ↦
              rw (created, create_bucket) (insert-Every _ name [] m.objects tt all)
          | inr (inl (e, failed)) ↦ rw (failed, create_bucket) all
          | inr (inr failed) ↦ rw (failed, create_bucket) all
        ]

    pub delete_bucket-AllMetas :
        (name : Text) → AllMetas P m.objects → AllMetas P (delete_bucket bolt json m name).1.objects
    unfolding delete_bucket
    delete_bucket-AllMetas name all =
        elim (Outcome-cases (BucketDb.delete bolt json m.buckets name)) [
          | inl (db, deleted) ↦ rw (deleted, delete_bucket) (delete-Every _ name m.objects all)
          | inr (inl (e, failed)) ↦ rw (failed, delete_bucket) all
          | inr (inr failed) ↦ rw (failed, delete_bucket) all
        ]
