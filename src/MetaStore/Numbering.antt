-- ===== src/MetaStore/Numbering.antt =====
-- internal/store/meta.go: the IDs in a version list, and finding and removing a version by its ID.
use jario.Base.{
  ℕ, suc, ◌^◌, ◌≤◌, ◌<◌, ◌≡◌, refl, sym, ◌∙◌, ◌≢◌, List, [], ◌∷◌, ◌++◌, Option, none, some, arith,
  ◌⊎◌, Bool-cases, Option-cases, inl, inr, if◌then◌else◌,
}
use jario.Text.{Text, text_eq, text_eq_iff}
use jario.Text.Decimal.{format_int, format_int-injective}
use jario.MetaStore.Versions.{ObjectMeta, VersionEntry, find_from, find_version, remove_version}

-- The IDs are numbers that grow along the list, from `lo` on and below `hi`.
abbrev pub Numbered : ℕ → List VersionEntry → ℕ → Type 0
Numbered lo [] hi = lo ≤ hi
Numbered lo (e ∷ es) hi =
    (i : ℕ) × (lo ≤ i) × (e.meta.version_id ≡ format_int i) × Numbered (suc i) es hi

pub Numbered-le : (lo : ℕ) (es : List VersionEntry) (hi : ℕ) → Numbered lo es hi → lo ≤ hi
Numbered-le lo [] hi h = h
Numbered-le lo (e ∷ es) hi (i, low, _, rest) = omega (arith, Numbered-le (suc i) es hi rest)

pub Numbered-append :
    (lo : ℕ) (es : List VersionEntry) (hi : ℕ) (e : VersionEntry)
    → Numbered lo es hi
    → e.meta.version_id ≡ format_int hi
    → Numbered lo (es ++ e ∷ []) (suc hi)
Numbered-append lo [] hi e h id = (hi, h, id, omega arith)
Numbered-append lo (d ∷ es) hi e (i, low, own, rest) id =
    (i, low, own, Numbered-append (suc i) es hi e rest id)

Numbered-weaken :
    (lo lo' : ℕ) (es : List VersionEntry) (hi : ℕ)
    → lo' ≤ lo
    → Numbered lo es hi
    → Numbered lo' es hi
Numbered-weaken lo lo' [] hi le h = omega arith
Numbered-weaken lo lo' (e ∷ es) hi le (i, low, own, rest) = (i, omega arith, own, rest)

abbrev drop_index : Option (ℕ × ObjectMeta) → Option ObjectMeta
drop_index none = none
drop_index (some (i, meta)) = some meta

drop_index-find_from :
    (i j : ℕ) (vid : Text) (es : List VersionEntry)
    → drop_index (find_from i vid es) ≡ drop_index (find_from j vid es)
unfolding find_from
drop_index-find_from i j vid [] = refl
drop_index-find_from i j vid (e ∷ es) = elim (Bool-cases (text_eq e.meta.version_id vid)) [
  | inl found ↦ rw found
  | inr other ↦ rw other (drop_index-find_from (suc i) (suc j) vid es)
]

find_version-eq :
    (vid : Text) (es : List VersionEntry) → find_version vid es ≡ drop_index (find_from 0 vid es)
unfolding find_version
find_version-eq vid es = ground arith

pub find_version-cons :
    (vid : Text) (e : VersionEntry) (es : List VersionEntry)
    → find_version vid (e ∷ es)
      ≡ (if text_eq e.meta.version_id vid then some e.meta else find_version vid es)
unfolding find_from
find_version-cons vid e es = elim (Bool-cases (text_eq e.meta.version_id vid)) [
  | inl found ↦ rw found (find_version-eq vid (e ∷ es) ∙ rw found)
  | inr other ↦ rw other (
      find_version-eq vid (e ∷ es)
      ∙ rw other (drop_index-find_from 1 0 vid es)
      ∙ sym (find_version-eq vid es))
]

pub find_version-nil : (vid : Text) → find_version vid [] ≡ none
unfolding find_version find_from
find_version-nil vid = refl

pub find_version-append :
    (vid : Text) (es : List VersionEntry) (e : VersionEntry)
    → find_version vid (es ++ e ∷ []) ≡ elim (find_version vid es) [
      | some meta ↦ some meta
      | none ↦ if text_eq e.meta.version_id vid then some e.meta else none
    ]
find_version-append vid [] e = ground (arith, find_version-cons vid e [], find_version-nil vid)
find_version-append vid (d ∷ es) e = ground (
  arith,
  find_version-cons vid d (es ++ e ∷ []),
  find_version-cons vid d es,
  find_version-append vid es e,
)

-- An ID outside the range of the list is not found.
pub find_version-eq-none_below :
    (j lo : ℕ) (es : List VersionEntry) (hi : ℕ)
    → Numbered lo es hi
    → hi < 2 ^ 63
    → j < lo
    → find_version (format_int j) es ≡ none
find_version-eq-none_below j lo [] hi h b l = find_version-nil (format_int j)
find_version-eq-none_below j lo (e ∷ es) hi (i, low, own, rest) b l = ground (
  arith,
  find_version-cons (format_int j) e es,
  Numbered-le (suc i) es hi rest,
  find_version-eq-none_below j (suc i) es hi rest b,
  format_int-injective i j,
  text_eq_iff e.meta.version_id (format_int j),
)

pub find_version-eq-none_above :
    (j lo : ℕ) (es : List VersionEntry) (hi : ℕ)
    → Numbered lo es hi
    → hi ≤ j
    → j < 2 ^ 63
    → find_version (format_int j) es ≡ none
find_version-eq-none_above j lo [] hi h b l = find_version-nil (format_int j)
find_version-eq-none_above j lo (e ∷ es) hi (i, low, own, rest) b l = ground (
  arith,
  find_version-cons (format_int j) e es,
  Numbered-le (suc i) es hi rest,
  find_version-eq-none_above j (suc i) es hi rest b l,
  format_int-injective i j,
  text_eq_iff e.meta.version_id (format_int j),
)

module _ (vid : Text) where
  pub remove_version-cons :
      (e : VersionEntry) (es rest : List VersionEntry)
      → remove_version vid (e ∷ es) ≡ some rest
      → ((e.meta.version_id ≡ vid) × (rest ≡ es))
        ⊎ ((e.meta.version_id ≢ vid)
            × (tail : List VersionEntry) × (remove_version vid es ≡ some tail)
            × (rest ≡ e ∷ tail))
  unfolding remove_version
  remove_version-cons e es rest r = elim (Bool-cases (text_eq e.meta.version_id vid)) [
    | inl found ↦ inl ((text_eq_iff _ _).0 found, ground arith)
    | inr other ↦ elim (Option-cases (remove_version vid es)) [
      | inl missing ↦ absurd (ground arith)
      | inr (tail, removed) ↦
          inr (
            (λ same. ground (arith, text_eq_iff e.meta.version_id vid)),
            tail,
            removed,
            ground arith,
          )
    ]
  ]

  pub remove_version-Numbered :
      (lo : ℕ) (es : List VersionEntry) (hi : ℕ) (rest : List VersionEntry)
      → Numbered lo es hi
      → remove_version vid es ≡ some rest
      → Numbered lo rest hi
  unfolding remove_version
  remove_version-Numbered lo [] hi rest h r = absurd (cc)
  remove_version-Numbered lo (e ∷ es) hi rest (i, low, own, later) r =
      elim (remove_version-cons e es rest r) [
        | inl (_, same) ↦ rw same (Numbered-weaken (suc i) lo es hi (omega arith) later)
        | inr (_, tail, removed, split) ↦
            rw split (i, low, own, remove_version-Numbered (suc i) es hi tail later removed)
      ]

  -- A version is found exactly when it can be removed.
  pub remove_version-none :
      (es : List VersionEntry) → remove_version vid es ≡ none → find_version vid es ≡ none
  unfolding remove_version
  remove_version-none [] r = find_version-nil vid
  remove_version-none (e ∷ es) r =
      ground (arith, find_version-cons vid e es, remove_version-none es)

  pub find_version_removed :
      (lo : ℕ) (es : List VersionEntry) (hi : ℕ) (rest : List VersionEntry)
      → Numbered lo es hi
      → hi < 2 ^ 63
      → remove_version vid es ≡ some rest
      → find_version vid rest ≡ none
  unfolding remove_version
  find_version_removed lo [] hi rest h b r = absurd (cc)
  find_version_removed lo (e ∷ es) hi rest (i, low, own, later) b r =
      elim (remove_version-cons e es rest r) [
        | inl (found, same) ↦
            rw (same, ← found, own)
              (find_version-eq-none_below i (suc i) es hi later b (omega arith))
        | inr (other, tail, removed, split) ↦ rw split (
            ground (
              arith,
              find_version-cons vid e tail,
              text_eq_iff e.meta.version_id vid,
              find_version_removed (suc i) es hi tail later b removed,
            ))
      ]

  pub find_version_kept :
      (j : Text) (es rest : List VersionEntry)
      → vid ≢ j
      → remove_version vid es ≡ some rest
      → find_version j rest ≡ find_version j es
  unfolding remove_version
  find_version_kept j [] rest ne r = absurd (cc)
  find_version_kept j (e ∷ es) rest ne r = elim (remove_version-cons e es rest r) [
    | inl (found, same) ↦
        rw same (ground (arith, find_version-cons j e es, text_eq_iff e.meta.version_id j))
    | inr (other, tail, removed, split) ↦ rw split (
        ground (
          arith,
          find_version-cons j e es,
          find_version-cons j e tail,
          find_version_kept j es tail ne removed,
        ))
  ]
