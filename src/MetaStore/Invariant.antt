-- ===== src/MetaStore/Invariant.antt =====
-- internal/store/meta.go: the well-formedness of the version lists and of the store.
use jario.Base.{
  ℕ, suc, ◌+◌, ◌%◌, ◌^◌, ◌<◌, ◌≡◌, refl, List, [], ◌∷◌, Option, none, some, arith, length,
  length-append, All, All-append, inl, inr,
}
use jario.Text.{Text, text_eq_inst}
use jario.GoMap.{
  GoMap, lookup, insert, delete, IsMap, Every, lookup-Every, insert-Every, insert-IsMap,
  delete-IsMap, delete-Every,
}
use jario.MetaStore.Versions.{
  ObjectMeta, VersionEntry, VersionState, with_version_id, push_version, remove_version,
}
use jario.MetaStore.Numbering.{
  Numbered, Numbered-append, remove_version-Numbered, remove_version-cons,
}
use jario.MetaStore.Ops.{Objects, or_new}
use jario.MetaStore.Lookups.{after_removal}

-- A key has at least one version, the last one is the current one, the IDs are distinct numbers
-- below the next one, and each version is of this key.
pub record IsValid (key : Text) (vs : VersionState) : Type 0 where
  pub last : vs.current + 1 ≡ length vs.versions
  pub numbered : Numbered 1 vs.versions vs.next_id
  pub bounded : vs.next_id < 2 ^ 63
  pub keyed : All (λ e. e.meta.key ≡ key) vs.versions

-- What `push_version` may be given: the versions of the key, or a new list.
pub record IsOpen (key : Text) (vs : VersionState) : Type 0 where
  pub numbered : Numbered 1 vs.versions vs.next_id
  pub room : vs.next_id + 1 < 2 ^ 63
  pub keyed : All (λ e. e.meta.key ≡ key) vs.versions

next_id-suc : {n : ℕ} → n + 1 < 2 ^ 63 → (n + 1) % 2 ^ 64 ≡ suc n
next_id-suc h = omega arith

pub push_version-IsValid :
    (key : Text) (vs : VersionState) (meta : ObjectMeta)
    → IsOpen key vs
    → meta.key ≡ key
    → IsValid key (push_version vs meta)
unfolding push_version
push_version-IsValid key vs meta v own = record {
  last = omega (
    arith,
    length-append {0} vs.versions (record { meta = with_version_id meta vs.next_id } ∷ []),
  );
  numbered = rw (next_id-suc v.room) (
      Numbered-append 1 vs.versions vs.next_id (record { meta = with_version_id meta vs.next_id })
        v.numbered refl);
  bounded = omega (arith, v.room);
  keyed = All-append (λ e. e.meta.key ≡ key) vs.versions _ v.keyed (own, tt);
}

All-remove_version :
    (P : VersionEntry → Type 0) (vid : Text) (es rest : List VersionEntry)
    → remove_version vid es ≡ some rest
    → All P es
    → All P rest
unfolding remove_version
All-remove_version P vid [] rest r h = absurd (cc)
All-remove_version P vid (e ∷ es) rest r h = elim (remove_version-cons vid e es rest r) [
  | inl (_, same) ↦ rw same h.1
  | inr (_, tail, removed, split) ↦ rw split (h.0, All-remove_version P vid es tail removed h.1)
]

abbrev pub IsValid? : Text → Option VersionState → Type 0
IsValid? key none = Unit
IsValid? key (some vs) = IsValid key vs

pub after_removal-IsValid :
    (key vid : Text) (vs : VersionState) (rest : List VersionEntry)
    → IsValid key vs
    → remove_version vid vs.versions ≡ some rest
    → IsValid? key (after_removal vs rest)
after_removal-IsValid key vid vs [] v r = tt
after_removal-IsValid key vid vs (e ∷ es) v r = record {
  last = omega arith;
  numbered = remove_version-Numbered vid 1 vs.versions vs.next_id (e ∷ es) v.numbered r;
  bounded = v.bounded;
  keyed = All-remove_version (λ e. e.meta.key ≡ key) vid vs.versions (e ∷ es) r v.keyed;
}

-- Every bucket and every key has one entry, and every version list is valid.
abbrev pub AreValid : Objects → Type 0
AreValid objects = IsMap objects × Every (λ _ objs. IsMap objs × Every IsValid objs) objects

pub set_key-AreValid :
    (objects : Objects) (b k : Text) (objs : GoMap Text VersionState) (vs : VersionState)
    → AreValid objects
    → lookup b objects ≡ some objs
    → IsValid k vs
    → AreValid (insert b (insert k vs objs) objects)
set_key-AreValid objects b k objs vs (map, every) found v =
    let (keys, valid) = lookup-Every _ b objects objs found every in
    (
      insert-IsMap b _ objects map,
      insert-Every _ b (insert k vs objs) objects
          (insert-IsMap k vs objs keys, insert-Every IsValid k vs objs v valid) every,
    )

pub delete_key-AreValid :
    (objects : Objects) (b k : Text) (objs : GoMap Text VersionState)
    → AreValid objects
    → lookup b objects ≡ some objs
    → AreValid (insert b (delete k objs) objects)
delete_key-AreValid objects b k objs (map, every) found =
    let (keys, valid) = lookup-Every _ b objects objs found every in
    (
      insert-IsMap b _ objects map,
      insert-Every _ b (delete k objs) objects
          (delete-IsMap k objs keys, delete-Every IsValid k objs valid) every,
    )

-- The versions of a key that is there or not can take one more, if an ID is left.
pub or_new-IsOpen :
    (k : Text) (objs : GoMap Text VersionState)
    → Every IsValid objs
    → (or_new (lookup k objs)).next_id + 1 < 2 ^ 63
    → IsOpen k (or_new (lookup k objs))
or_new-IsOpen k objs h room = go (lookup k objs) refl room
  where
    go :
        (o : Option VersionState)
        → lookup k objs ≡ o
        → (or_new o).next_id + 1 < 2 ^ 63
        → IsOpen k (or_new o)
    go none e r = record { numbered = omega arith; room = r; keyed = tt }
    go (some vs) e r =
        let v = lookup-Every IsValid k objs vs e h in
        record { numbered = v.numbered; room = r; keyed = v.keyed }
