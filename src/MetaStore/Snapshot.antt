-- ===== src/MetaStore/Snapshot.antt =====
-- internal/store/meta.go: the Raft snapshot of the object metadata and its restore.
use jario.Base.{◌≡◌, refl, Option, none, some, [], ◌∷◌, arith}
use jario.Text.{Text, text_eq_iff, text_eq_inst}
use jario.Outcome.{Outcome, ok, err, panic, Codec, RoundTrips}
use jario.GoMap.{GoMap, lookup, insert, lookup-insert, IsMap, Every}
use jario.BucketDb.{Bolt, BucketMeta}
use jario.MetaStore.Versions.{VersionState}
use jario.MetaStore.Ops.{MetaStore, Objects, find_key, load_cache}
use jario.MetaStore.Paging.{or_empty}

-- for k, vs := range objs { m.objects[b][k] = vs }
unfoldable pub merge_keys : (objs target : GoMap Text VersionState) → GoMap Text VersionState
merge_keys [] target = target
merge_keys ((k, vs) ∷ objs) target = merge_keys objs (insert k vs target)

-- The loop over the buckets of the snapshot: a bucket that is missing is made first.
unfoldable pub merge_objects : (snapshot target : Objects) → Objects
unfolding merge_keys
merge_objects [] target = target
merge_objects ((b, objs) ∷ snapshot) target =
    merge_objects snapshot (insert b (merge_keys objs (or_empty (lookup b target))) target)

-- `Snapshot` and `MarshalJSON` write the same document.
unfoldable pub snapshot : {Db : Type 0} → Codec Objects → MetaStore Db → Outcome Text
snapshot json m = json.marshal m.objects

unfoldable pub restore :
    (bolt : Bolt)
    → Codec BucketMeta
    → Codec Objects
    → MetaStore bolt.Db
    → Text
    → Outcome (Unit {0}) × MetaStore bolt.Db
restore bolt bucket_json json m text = elim (json.unmarshal text) [
  | err e ↦ (err e, m)
  | panic ↦ (panic, m)
  | ok objects ↦ (
    ok tt,
    record m {
      cache = load_cache bolt bucket_json m.buckets;
      objects = merge_objects objects m.objects;
    },
  )
]

abbrev pub or_else {ℓ} : {A : Type ℓ} → Option A → Option A → Option A
or_else none b = b
or_else (some a) b = some a

lookup-merge_keys :
    (k : Text) (objs target : GoMap Text VersionState)
    → IsMap objs
    → lookup k (merge_keys objs target) ≡ or_else (lookup k objs) (lookup k target)
unfolding merge_keys lookup
lookup-merge_keys k [] target m = refl
lookup-merge_keys k ((j, vs) ∷ objs) target m = ground (
  arith,
  lookup-merge_keys k objs (insert j vs target) m.1,
  lookup-insert j k vs target,
  text_eq_iff j k,
  m.0,
)

abbrev pub find_in : Objects → (b k : Text) → Option VersionState
find_in objects b k = lookup k (or_empty (lookup b objects))

lookup-nil : (k : Text) → lookup {V = VersionState} k [] ≡ none
unfolding lookup
lookup-nil k = refl

-- The keys of every bucket of a snapshot are distinct.
abbrev pub AreMaps : Objects → Type 0
AreMaps objects = IsMap objects × Every (λ _ objs. IsMap objs) objects

find_in-merge_objects :
    (b k : Text) (snapshot target : Objects)
    → AreMaps snapshot
    → find_in (merge_objects snapshot target) b k
      ≡ or_else (find_in snapshot b k) (find_in target b k)
unfolding merge_objects lookup
find_in-merge_objects b k [] target m = refl
find_in-merge_objects b k ((j, objs) ∷ snapshot) target (m, e) = ground (
  arith,
  find_in-merge_objects b k snapshot
      (insert j (merge_keys objs (or_empty (lookup j target))) target) (m.1, e.1),
  lookup-insert j b (merge_keys objs (or_empty (lookup j target))) target,
  text_eq_iff j b,
  m.0,
  lookup-merge_keys k objs (or_empty (lookup j target)) e.0,
)

find_key-find_in :
    {Db : Type 0} (m : MetaStore Db) (b k : Text) → find_key m b k ≡ find_in m.objects b k
unfolding find_key lookup
find_key-find_in m b k = ground arith

pub restore-eq :
    (bolt : Bolt) (bucket_json : Codec BucketMeta) (json : Codec Objects) (m : MetaStore bolt.Db)
    (objects : Objects) (text : Text)
    → json.unmarshal text ≡ ok objects
    → restore bolt bucket_json json m text ≡ (
      ok tt,
      record m {
        cache = load_cache bolt bucket_json m.buckets;
        objects = merge_objects objects m.objects;
      },
    )
unfolding restore
restore-eq bolt bucket_json json m objects text h = rw (h, restore)

-- Restoring the snapshot of a store, whose maps have one entry a key and are read back from JSON,
-- into any store succeeds; each key of the snapshot then has the versions that it had there, and a
-- key that is not in the snapshot keeps the versions that it had here.
pub find_key-restore :
    (bolt : Bolt) (bucket_json : Codec BucketMeta) (json : Codec Objects) (m n : MetaStore bolt.Db)
    (text : Text)
    → AreMaps n.objects
    → RoundTrips json n.objects
    → snapshot json n ≡ ok text
    → ((restore bolt bucket_json json m text).0 ≡ ok tt)
      × ((b k : Text)
          → find_key (restore bolt bucket_json json m text).1 b k
            ≡ or_else (find_key n b k) (find_key m b k))
unfolding snapshot
find_key-restore bolt bucket_json json m n text maps trips written =
    rw (restore-eq bolt bucket_json json m n.objects text (trips text written)) (
      refl,
      λ b k. ground (
        arith,
        find_in-merge_objects b k n.objects m.objects maps,
        find_key-find_in n b k,
        find_key-find_in m b k,
        find_key-find_in
            (record m {
              cache = load_cache bolt bucket_json m.buckets;
              objects = merge_objects n.objects m.objects;
            })
            b k,
      ),
    )
