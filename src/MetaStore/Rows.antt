-- ===== src/MetaStore/Rows.antt =====
-- internal/store/meta.go: the rows that the walk of `ListObjectVersions` makes.
use mathlib.Core.List.{Mem, mem-append_left, mem-append_right, mem-cons_self}
use jario.Base.{
  ℕ, zero, suc, ◌+◌, ◌≡◌, refl, sym, subst, Bool, true, false, List, [], ◌∷◌, none, some, arith,
  get_elem?, All, All-append, All-imp, Bool-cases, inl, inr, if◌then◌else◌,
}
use jario.Text.{Text, text_eq, text_eq_iff, text_eq_inst}
use jario.GoMap.{GoMap, lookup, IsMap}
use jario.MetaStore.Versions.{VersionEntry, VersionState}
use jario.MetaStore.Listing.{ObjectVersion, matches, version_row, walk, rows}

-- What a walk adds for one version: its row, if it is what was asked for.
abbrev row_if {ℓ} : {A : Type ℓ} → (deleted asked : Bool) → A → List A
row_if deleted asked x =
    if deleted then (if asked then x ∷ [] else []) else (if asked then [] else x ∷ [])

row_if-All {ℓ κ} :
    {A : Type ℓ} (P : A → Type κ) (deleted asked : Bool) (x : A)
    → (deleted ≡ asked → P x)
    → All P (row_if deleted asked x)
row_if-All P true true x h = (h refl, tt)
row_if-All P true false x h = tt
row_if-All P false true x h = tt
row_if-All P false false x h = (h refl, tt)

mem-row_if {ℓ} :
    {A : Type ℓ} (deleted asked : Bool) (x : A) → deleted ≡ asked → Mem x (row_if deleted asked x)
mem-row_if true true x h = mem-cons_self
mem-row_if true false x h = absurd (cc)
mem-row_if false true x h = absurd (cc)
mem-row_if false false x h = mem-cons_self

module _ (rfc3339 : ℕ → Text) (markers : Bool) where
  -- The row is that of the version at `i + j`.
  abbrev pub InWalk : (current i : ℕ) → List VersionEntry → ObjectVersion → Type 0
  InWalk current i es v =
      (j : ℕ) × (e : VersionEntry) × (get_elem? es j ≡ some e)
      × (e.meta.is_delete_marker ≡ markers)
      × (v ≡ version_row rfc3339 current (i + j) e.meta)

  InWalk-later :
      (current i : ℕ) (e : VersionEntry) (es : List VersionEntry) (v : ObjectVersion)
      → InWalk current (suc i) es v
      → InWalk current i (e ∷ es) v
  InWalk-later current i e es v (j, e', at, own, same) =
      (suc j, e', ground (arith, at), own, ground (arith, same))

  walk-InWalk :
      (current i : ℕ) (es : List VersionEntry)
      → All (InWalk current i es) (walk rfc3339 markers current i es)
  unfolding walk
  walk-InWalk current i [] = tt
  walk-InWalk current i (e ∷ es) =
      let later =
        All-imp (InWalk-later current i e es) (walk rfc3339 markers current (suc i) es)
          (walk-InWalk current (suc i) es) in
      All-append (InWalk current i (e ∷ es)) (walk rfc3339 markers current (suc i) es) _ later (
        row_if-All (InWalk current i (e ∷ es)) e.meta.is_delete_marker markers
          (version_row rfc3339 current i e.meta) (λ own. (0, e, refl, own, ground arith)))

  pub mem-walk :
      (current i : ℕ) (es : List VersionEntry) (j : ℕ) (e : VersionEntry)
      → get_elem? es j ≡ some e
      → e.meta.is_delete_marker ≡ markers
      → Mem (version_row rfc3339 current (i + j) e.meta) (walk rfc3339 markers current i es)
  unfolding walk
  mem-walk current i [] j e at own = absurd (cc)
  mem-walk current i (d ∷ es) zero e at own =
      let here : Mem (version_row rfc3339 current i d.meta)
          (row_if d.meta.is_delete_marker markers (version_row rfc3339 current i d.meta)) =
        mem-row_if d.meta.is_delete_marker markers (version_row rfc3339 current i d.meta)
          (ground (arith, at, own)) in
      let same : version_row rfc3339 current i d.meta ≡ version_row rfc3339 current (i + 0) e.meta =
        ground (arith, at) in
      subst (λ x. Mem x (walk rfc3339 markers current i (d ∷ es))) same
        (mem-append_right (walk rfc3339 markers current (suc i) es) here)
  mem-walk current i (d ∷ es) (suc j) e at own =
      let later = mem-walk current (suc i) es j e at own in
      let same : version_row rfc3339 current (suc i + j) e.meta
          ≡ version_row rfc3339 current (i + suc j) e.meta =
        ground arith in
      subst (λ x. Mem x (walk rfc3339 markers current i (d ∷ es))) same
        (mem-append_left
          (row_if d.meta.is_delete_marker markers (version_row rfc3339 current i d.meta)) later)

  -- The row is that of a version of a key with the prefix.
  abbrev pub InRows : Text → GoMap Text VersionState → ObjectVersion → Type 0
  InRows p objs v =
      (k : Text) × (vst : VersionState) × (lookup k objs ≡ some vst)
      × (matches p k ≡ true)
      × InWalk vst.current 0 vst.versions v

  InRows-later :
      (p k : Text) (vst : VersionState) (objs : GoMap Text VersionState) (v : ObjectVersion)
      → lookup k objs ≡ none
      → InRows p objs v
      → InRows p ((k, vst) ∷ objs) v
  unfolding lookup
  InRows-later p k vst objs v new (k', vst', found, prefixed, row) =
      (k', vst', ground (arith, found, new, text_eq_iff k k'), prefixed, row)

  pub rows-InRows :
      (p : Text) (objs : GoMap Text VersionState)
      → IsMap objs
      → All (InRows p objs) (rows rfc3339 markers p objs)
  unfolding rows lookup
  rows-InRows p [] map = tt
  rows-InRows p ((k, vst) ∷ objs) (new, map) =
      let later =
        All-imp (λ v. InRows-later p k vst objs v new) (rows rfc3339 markers p objs)
          (rows-InRows p objs map) in
      elim (Bool-cases (matches p k)) [
        | inr other ↦ rw (other, rows) later
        | inl prefixed ↦
            rw (prefixed, rows)
              (All-append (InRows p ((k, vst) ∷ objs))
                (walk rfc3339 markers vst.current 0 vst.versions) (rows rfc3339 markers p objs)
                (All-imp (λ v row. (k, vst, ground (arith, text_eq_iff k k), prefixed, row))
                  (walk rfc3339 markers vst.current 0 vst.versions)
                  (walk-InWalk vst.current 0 vst.versions))
                later)
      ]

  pub mem-rows :
      (p : Text) (objs : GoMap Text VersionState) (k : Text) (vst : VersionState)
      (v : ObjectVersion)
      → lookup k objs ≡ some vst
      → matches p k ≡ true
      → Mem v (walk rfc3339 markers vst.current 0 vst.versions)
      → Mem v (rows rfc3339 markers p objs)
  unfolding rows lookup
  mem-rows p [] k vst v found prefixed row = absurd (cc)
  mem-rows p ((i, w) ∷ objs) k vst v found prefixed row = elim (Bool-cases (text_eq i k)) [
    | inl same ↦
        let own : w ≡ vst = ground (arith, found, same) in
        let hit : matches p i ≡ true = ground (arith, prefixed, same, text_eq_iff i k) in
        rw (hit, rows)
          (mem-append_left (rows rfc3339 markers p objs)
            (subst (λ x. Mem v (walk rfc3339 markers x.current 0 x.versions)) (sym own) row))
    | inr apart ↦
        let later = mem-rows p objs k vst v (ground (arith, found, apart)) prefixed row in
        elim (Bool-cases (matches p i)) [
          | inr other ↦ rw (other, rows) later
          | inl hit ↦
              rw (hit, rows) (mem-append_right (walk rfc3339 markers w.current 0 w.versions) later)
        ]
  ]
