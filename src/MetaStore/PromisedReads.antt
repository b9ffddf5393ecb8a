-- ===== src/MetaStore/PromisedReads.antt =====
-- internal/store/meta.go: a read of a key returns what its history says.
use jario.Base.{
  ℕ, zero, suc, ◌+◌, ◌≡◌, refl, List, [], ◌∷◌, some, map, arith, length, get_elem?, Bool-cases,
  Option-cases, inl, inr,
}
use jario.Text.{Text, text_eq, text_eq_inst}
use jario.GoMap.{lookup, lookup-Every}
use jario.MetaStore.Versions.{VersionEntry, VersionState, find_from, find_version, current_version}
use jario.MetaStore.Ops.{MetaStore, find_key, get_object}
use jario.MetaStore.Numbering.{find_version-cons}
use jario.MetaStore.Invariant.{IsValid, AreValid}
use jario.MetaStore.Behaviour.{length-le-next_id}
use jario.MetaStore.Spec.{view, newest, with_id, promised_get}

-- The last slot of the array holds the newest version.
get_elem?-newest :
    (es : List VersionEntry) (i : ℕ)
    → i + 1 ≡ length es
    → (e : VersionEntry) × (get_elem? es i ≡ some e) × (newest (map (λ x. x.meta) es) ≡ some e.meta)
unfolding newest
get_elem?-newest [] i last = absurd (omega (arith, last))
get_elem?-newest (x ∷ []) zero last = (x, refl, refl)
get_elem?-newest (x ∷ []) (suc i) last = absurd (omega (arith, last))
get_elem?-newest (x ∷ y ∷ es) zero last = absurd (omega (arith, last))
get_elem?-newest (x ∷ y ∷ es) (suc i) last =
    let (e, there, newer) = get_elem?-newest (y ∷ es) i (omega (arith, last)) in
    (e, there, ground (arith, newer))

with_id-map :
    (vid : Text) (es : List VersionEntry) → with_id vid (map (λ x. x.meta) es) ≡ find_version vid es
unfolding with_id find_version find_from
with_id-map vid [] = refl
with_id-map vid (e ∷ es) = ground (arith, find_version-cons vid e es, with_id-map vid es)

module _ {Db : Type 0} (m : MetaStore Db) where
  find_key-IsValid :
      (b k : Text) (vst : VersionState)
      → AreValid m.objects
      → find_key m b k ≡ some vst
      → IsValid k vst
  unfolding find_key
  find_key-IsValid b k vst v found = elim (Option-cases (lookup b m.objects)) [
    | inl missing ↦ absurd (ground (arith, missing))
    | inr (objs, there) ↦
        lookup-Every IsValid k objs vst (ground (arith, found, there))
          (lookup-Every _ b m.objects objs there v.1).1
  ]

  -- In a valid store a read of a key returns what its history says: with a version ID the version
  -- of that ID, without one the newest version, unless that is a delete marker, and NoSuchKey
  -- otherwise.
  pub get_object-promised_get :
      (b k vid : Text) → AreValid m.objects → get_object m b k vid ≡ promised_get (view m) b k vid
  unfolding get_object current_version
  get_object-promised_get b k vid v = elim (Option-cases (find_key m b k)) [
    | inl missing ↦ ground (arith, missing)
    | inr (vst, found) ↦ elim (Bool-cases (text_eq vid [])) [
      | inr named ↦ ground (arith, found, named, with_id-map vid vst.versions)
      | inl plain ↦
          let valid = find_key-IsValid b k vst v found in
          let (e, there, last) = get_elem?-newest vst.versions vst.current valid.last in
          let small = length-le-next_id 1 vst.versions vst.next_id valid.numbered in
          ground (arith, found, plain, there, last, valid.last, small, valid.bounded)
    ]
  ]
