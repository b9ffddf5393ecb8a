-- ===== src/MetaStore/Pages.antt =====
-- internal/store/meta.go: the pages of `ListObjectsPaged` are consecutive pieces of one listing.
use jario.Base.{
  ℕ, zero, suc, ◌<◌, ◌≡◌, refl, sym, ap, ◌∙◌, ◌≢◌, ◌⊎◌, Bool, true, false, ◌&&◌, List, [], ◌∷◌,
  none, some, arith, length, take, drop, get_elem?, All-get_elem?, subst, filter, All, All-take,
  Bool-cases, Option-cases, inl, inr,
}
use jario.Text.{Text, text_lt, text_eq_iff, text_eq_inst}
use jario.Text.Laws.{text_lt_irrefl, text_lt_trans, text_lt_total}
use jario.Outcome.{ok, Outcome-cases}
use jario.GoMap.{GoMap, lookup, IsMap, Every}
use jario.Sort.{insert_sorted, sort}
use jario.Sort.Laws.{IsOrder, IsSorted, sort-IsSorted, filter-sort, All-sort, All-insert_sorted}
use jario.MetaStore.Versions.{ObjectMeta, VersionEntry, VersionState, current_version}
use jario.MetaStore.Invariant.{IsValid}
use jario.MetaStore.Listing.{collect, less_key, last_key, matches}

pub text_lt_asym : (s t : Text) → text_lt s t ≡ true → text_lt t s ≡ false
text_lt_asym s t h = ground (arith, text_lt_trans s t s, text_lt_irrefl s)

pub text_lt_not_trans :
    (s t u : Text) → text_lt s t ≡ false → text_lt t u ≡ false → text_lt s u ≡ false
text_lt_not_trans s t u h k = ground (
  arith,
  text_lt_total s t,
  text_lt_total t u,
  text_lt_trans u t s,
  text_lt_asym s u,
  text_lt_irrefl u,
)

pub less_key-IsOrder : IsOrder less_key
less_key-IsOrder = record {
  asym = λ a b. text_lt_asym a.key b.key;
  not_trans = λ a b c. text_lt_not_trans a.key b.key c.key;
}

-- Keys grow strictly along the list.
abbrev pub IsStrict : List ObjectMeta → Type 0
IsStrict [] = Unit
IsStrict (x ∷ xs) = All (λ y. less_key x y ≡ true) xs × IsStrict xs

abbrev pub after : Text → ObjectMeta → Bool
after t o = text_lt t o.key

filter_kept :
    (q : ObjectMeta → Bool) (xs : List ObjectMeta) → All (λ x. q x ≡ true) xs → filter q xs ≡ xs
filter_kept q [] h = refl
filter_kept q (x ∷ xs) h = ground (arith, filter_kept q xs h.1)

pub All-last_key :
    (P : Text → Type 0) (x : ObjectMeta) (xs : List ObjectMeta)
    → All (λ o. P o.key) (x ∷ xs)
    → P (last_key (x ∷ xs))
All-last_key P x [] h = h.0
All-last_key P x (y ∷ ys) h = All-last_key P y ys h.1

-- What comes after the last item of a piece is what the piece leaves.
pub filter-after_last :
    (n : ℕ) (xs : List ObjectMeta)
    → IsStrict xs
    → 0 < n
    → n < length xs
    → filter (after (last_key (take n xs))) xs ≡ drop n xs
filter-after_last zero xs s p l = absurd (omega arith)
filter-after_last (suc n) [] s p l = absurd (omega arith)
filter-after_last (suc zero) (x ∷ xs) s p l =
    ground (arith, text_lt_irrefl x.key, filter_kept (after x.key) xs s.0)
filter-after_last (suc (suc n)) (x ∷ []) s p l = absurd (omega arith)
filter-after_last (suc (suc n)) (x ∷ y ∷ ys) s p l =
    let later =
      All-last_key (λ k. text_lt x.key k ≡ true) y (take n ys)
        (All-take (λ o. less_key x o ≡ true) (suc n) (y ∷ ys) s.0) in
    rw (text_lt_asym x.key (last_key (y ∷ take n ys)) later)
      (filter-after_last (suc n) (y ∷ ys) s.1 (omega arith) (omega arith))

pub current_version-key :
    (k : Text) (vst : VersionState) (meta : ObjectMeta)
    → IsValid k vst
    → current_version vst ≡ ok meta
    → meta.key ≡ k
unfolding current_version
current_version-key k vst meta v e =
    let (entry, found, same) = entry_of meta e in
    subst (λ o. o.key ≡ k) same
      (All-get_elem? (λ e. e.meta.key ≡ k) vst.versions vst.current entry v.keyed found)
  where
    entry_of :
        (meta : ObjectMeta)
        → current_version vst ≡ ok meta
        → (entry : VersionEntry) × (get_elem? vst.versions vst.current ≡ some entry)
          × (entry.meta ≡ meta)
    entry_of meta e = elim (Option-cases (get_elem? vst.versions vst.current)) [
      | inl missing ↦ absurd (ground arith)
      | inr (entry, found) ↦ (entry, found, ground arith)
    ]

-- A later start keeps the objects after it.
collect-after :
    (p s t : Text) (objs : GoMap Text VersionState)
    → Every IsValid objs
    → text_lt s t ≡ true
    → collect p t objs ≡ filter (after t) (collect p s objs)
unfolding collect
collect-after p s t [] v h = refl
collect-after p s t ((k, vst) ∷ objs) v h = elim (Outcome-cases (current_version vst)) [
  | inl (meta, e) ↦
      let own = current_version-key k vst meta v.0 e in
      ground (arith, e, own, collect-after p s t objs v.1 h, text_lt_trans s t k h)
  | inr (inl (x, e)) ↦ ground (arith, e, collect-after p s t objs v.1 h)
  | inr (inr e) ↦ ground (arith, e, collect-after p s t objs v.1 h)
]

-- A key is passed over, or its current version is taken.
pub collect-cons :
    (p s k : Text) (vst : VersionState) (objs : GoMap Text VersionState)
    → IsValid k vst
    → (collect p s ((k, vst) ∷ objs) ≡ collect p s objs)
      ⊎ ((meta : ObjectMeta) × (current_version vst ≡ ok meta)
          × (meta.key ≡ k)
          × (matches p k ≡ true)
          × (text_lt s k ≡ true)
          × (collect p s ((k, vst) ∷ objs) ≡ meta ∷ collect p s objs))
unfolding collect
collect-cons p s k vst objs v = elim (Bool-cases (matches p k && text_lt s k)) [
  | inr out ↦ inl (rw out)
  | inl taken ↦ elim (Outcome-cases (current_version vst)) [
    | inl (meta, e) ↦
        inr (meta, e, current_version-key k vst meta v e, ground arith, ground arith, ground arith)
    | inr (inl (x, e)) ↦ inl (ground arith)
    | inr (inr e) ↦ inl (ground arith)
  ]
]

-- Every object collected comes after the start.
collect-All :
    (p s : Text) (objs : GoMap Text VersionState)
    → Every IsValid objs
    → All (λ o. text_lt s o.key ≡ true) (collect p s objs)
collect-All p s [] v = unfold collect in tt
collect-All p s ((k, vst) ∷ objs) v = elim (collect-cons p s k vst objs v.0) [
  | inl skipped ↦ rw skipped (collect-All p s objs v.1)
  | inr (meta, _, own, _, later, split) ↦ rw (split, own) (later, collect-All p s objs v.1)
]

-- A key that is not in the map is not collected.
collect-absent :
    (p s k : Text) (objs : GoMap Text VersionState)
    → Every IsValid objs
    → lookup k objs ≡ none
    → All (λ o. o.key ≢ k) (collect p s objs)
unfolding lookup
collect-absent p s k [] v h = unfold collect in tt
collect-absent p s k ((j, vst) ∷ objs) v h = elim (collect-cons p s j vst objs v.0) [
  | inl skipped ↦ rw skipped (collect-absent p s k objs v.1 (ground (arith, text_eq_iff j k)))
  | inr (meta, _, own, _, _, split) ↦ rw split (
    (λ same. ground (arith, text_eq_iff j k)),
    collect-absent p s k objs v.1 (ground (arith, text_eq_iff j k)),
  )
]

-- No key stands twice.
abbrev pub HasDistinctKeys : List ObjectMeta → Type 0
HasDistinctKeys [] = Unit
HasDistinctKeys (x ∷ xs) = All (λ y. y.key ≢ x.key) xs × HasDistinctKeys xs

collect-HasDistinctKeys :
    (p s : Text) (objs : GoMap Text VersionState)
    → Every IsValid objs
    → IsMap objs
    → HasDistinctKeys (collect p s objs)
collect-HasDistinctKeys p s [] v m = unfold collect in tt
collect-HasDistinctKeys p s ((k, vst) ∷ objs) v m = elim (collect-cons p s k vst objs v.0) [
  | inl skipped ↦ rw skipped (collect-HasDistinctKeys p s objs v.1 m.1)
  | inr (meta, _, own, _, _, split) ↦
      rw (split, own) (collect-absent p s k objs v.1 m.0, collect-HasDistinctKeys p s objs v.1 m.1)
]

insert_sorted-HasDistinctKeys :
    (x : ObjectMeta) (xs : List ObjectMeta)
    → All (λ y. y.key ≢ x.key) xs
    → HasDistinctKeys xs
    → HasDistinctKeys (insert_sorted less_key x xs)
unfolding insert_sorted
insert_sorted-HasDistinctKeys x [] new h = (tt, tt)
insert_sorted-HasDistinctKeys x (y ∷ ys) new h = elim (Bool-cases (less_key y x)) [
  | inl before ↦ rw before (
    All-insert_sorted less_key (λ z. z.key ≢ y.key) x ys (λ same. new.0 (sym same)) h.0,
    insert_sorted-HasDistinctKeys x ys new.1 h.1,
  )
  | inr front ↦ rw front (new, h)
]

sort-HasDistinctKeys :
    (xs : List ObjectMeta) → HasDistinctKeys xs → HasDistinctKeys (sort less_key xs)
unfolding sort
sort-HasDistinctKeys [] h = tt
sort-HasDistinctKeys (x ∷ xs) h =
    insert_sorted-HasDistinctKeys x (sort less_key xs)
      (All-sort less_key (λ y. y.key ≢ x.key) xs h.0) (sort-HasDistinctKeys xs h.1)

IsStrict-of_distinct :
    (xs : List ObjectMeta) → IsSorted less_key xs → HasDistinctKeys xs → IsStrict xs
IsStrict-of_distinct [] s d = tt
IsStrict-of_distinct (x ∷ xs) s d = (All-zip xs s.0 d.0, IsStrict-of_distinct xs s.1 d.1)
  where
    All-zip :
        (ys : List ObjectMeta)
        → All (λ y. less_key y x ≡ false) ys
        → All (λ y. y.key ≢ x.key) ys
        → All (λ y. less_key x y ≡ true) ys
    All-zip [] h k = tt
    All-zip (y ∷ ys) h k = (ground (arith, text_lt_total x.key y.key, h.0, k.0), All-zip ys h.1 k.1)

-- The whole listing of a bucket after a start, with no limit.
unfoldable pub listing : GoMap Text VersionState → (prefix start_after : Text) → List ObjectMeta
listing objs p s = sort less_key (collect p s objs)

pub listing-IsStrict :
    (objs : GoMap Text VersionState) (p s : Text)
    → Every IsValid objs
    → IsMap objs
    → IsStrict (listing objs p s)
unfolding listing
listing-IsStrict objs p s v m =
    IsStrict-of_distinct (listing objs p s)
      (sort-IsSorted less_key less_key-IsOrder (collect p s objs))
      (sort-HasDistinctKeys (collect p s objs) (collect-HasDistinctKeys p s objs v m))

pub listing-after :
    (objs : GoMap Text VersionState) (p s t : Text)
    → Every IsValid objs
    → text_lt s t ≡ true
    → listing objs p t ≡ filter (after t) (listing objs p s)
unfolding listing
listing-after objs p s t v h =
    ap (sort less_key) (collect-after p s t objs v h)
    ∙ sym (filter-sort less_key less_key-IsOrder (after t) (collect p s objs))

pub listing-All :
    (objs : GoMap Text VersionState) (p s : Text)
    → Every IsValid objs
    → All (λ o. text_lt s o.key ≡ true) (listing objs p s)
unfolding listing
listing-All objs p s v =
    All-sort less_key (λ o. text_lt s o.key ≡ true) (collect p s objs) (collect-All p s objs v)
