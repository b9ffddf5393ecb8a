-- ===== src/MetaStore/Paging.antt =====
-- internal/store/meta.go: a client that follows the continuation tokens of `ListObjectsPaged`.
use jario.Base.{
  ℕ, zero, suc, ◌≤◌, ◌<◌, ◌≡◌, refl, sym, ap, ◌∙◌, ◌≢◌, ◌⊎◌, true, List, [], ◌∷◌, ◌++◌, Option,
  none, some, arith, length, take, drop, take-append-drop, length-take-le, length-drop, All,
  All-take, Bool-cases, Option-cases, inl, inr, ltb, if◌then◌else◌,
}
use jario.Text.{Text, text_eq, text_lt, text_eq_iff, text_eq_inst}
use jario.Text.Laws.{text_eq_refl}
use jario.GoMap.{GoMap, lookup, lookup-Every, IsMap, Every}
use jario.MetaStore.Versions.{ObjectMeta, VersionState}
use jario.MetaStore.Ops.{MetaStore}
use jario.MetaStore.Invariant.{IsValid, AreValid}
use jario.Sort.{sort}
use jario.MetaStore.Listing.{collect, last_key, page, list_objects_paged, or_default}
use jario.MetaStore.Pages.{
  listing, listing-IsStrict, listing-after, listing-All, filter-after_last, All-last_key,
}

abbrev pub or_empty : Option (GoMap Text VersionState) → GoMap Text VersionState
or_empty none = []
or_empty (some objs) = objs

page-nil : (n : ℕ) → page n [] ≡ ([], [])
unfolding page
page-nil n = ground arith

listing-nil : (p s : Text) → listing [] p s ≡ []
unfolding listing collect sort
listing-nil p s = refl

module _ {Db : Type 0} (m : MetaStore Db) where
  -- The keys of a bucket, none if it has no entry.
  abbrev pub keys_of : Text → GoMap Text VersionState
  keys_of b = or_empty (lookup b m.objects)

  pub keys_of-IsValid :
      (b : Text) → AreValid m.objects → IsMap (keys_of b) × Every IsValid (keys_of b)
  keys_of-IsValid b v = elim (Option-cases (lookup b m.objects)) [
    | inl missing ↦ rw (ap or_empty missing) (tt, tt)
    | inr (objs, found) ↦ rw (ap or_empty found) (lookup-Every _ b m.objects objs found v.1)
  ]

  list_objects_paged-eq :
      (b p s : Text) (n : ℕ)
      → list_objects_paged m b p s n ≡ page (or_default n) (listing (keys_of b) p s)
  unfolding list_objects_paged listing
  list_objects_paged-eq b p s n = elim (Option-cases (lookup b m.objects)) [
    | inl missing ↦
        rw (missing, list_objects_paged)
          (sym (page-nil (or_default n)) ∙ ap (page (or_default n)) (sym (listing-nil p s)))
    | inr (objs, found) ↦ rw (found, list_objects_paged)
  ]

-- The two shapes of a page.
page_cases :
    (n : ℕ) (xs : List ObjectMeta)
    → ((page n xs ≡ (xs, [])) × (length xs ≤ n))
      ⊎ ((page n xs ≡ (take n xs, last_key (take n xs))) × (n < length xs))
unfolding page
page_cases n xs = elim (Bool-cases (ltb n (length xs))) [
  | inl more ↦ inr (rw more, ground arith)
  | inr all ↦ inl (rw all, ground arith)
]

last_key-after :
    (n : ℕ) (s : Text) (xs : List ObjectMeta)
    → 0 < n
    → n < length xs
    → All (λ o. text_lt s o.key ≡ true) xs
    → text_lt s (last_key (take n xs)) ≡ true
last_key-after zero s xs p l h = absurd (omega arith)
last_key-after (suc n) s [] p l h = absurd (omega arith)
last_key-after (suc n) s (x ∷ xs) p l h =
    All-last_key (λ k. text_lt s k ≡ true) x (take n xs)
      (All-take (λ o. text_lt s o.key ≡ true) (suc n) (x ∷ xs) h)

or_default-pos : (n : ℕ) → 0 < or_default n
or_default-pos n = ground arith

lt-ne-nil : (s t : Text) → text_lt s t ≡ true → t ≢ []
unfolding text_lt
lt-ne-nil s [] h = cc
lt-ne-nil s (c ∷ t) h = cc

module _ {Db : Type 0} (m : MetaStore Db) (v : AreValid m.objects) (b p : Text) where
  abbrev pub all_after : Text → List ObjectMeta
  all_after s = listing (keys_of m b) p s

  -- One page: its size, and that it and what comes after its token are what comes after its start.
  page_step :
      (s : Text) (n : ℕ)
      → (length (list_objects_paged m b p s n).0 ≤ or_default n)
        × (((list_objects_paged m b p s n).1 ≡ [])
              × ((list_objects_paged m b p s n).0 ≡ all_after s)
            ⊎ ((list_objects_paged m b p s n).1 ≢ [])
              × (all_after s
                  ≡ (list_objects_paged m b p s n).0 ++ all_after (list_objects_paged m b p s n).1)
              × (length (all_after (list_objects_paged m b p s n).1) < length (all_after s)))
  page_step s n =
      rw (list_objects_paged-eq m b p s n) (elim (page_cases (or_default n) (all_after s)) [
        | inl (whole, small) ↦ rw whole (small, inl (refl, refl))
        | inr (cut, big) ↦ rw cut (piece big)
      ])
    where
      valid : IsMap (keys_of m b) × Every IsValid (keys_of m b)
      valid = keys_of-IsValid m b v

      k : ℕ
      k = or_default n

      token : Text
      token = last_key (take k (all_after s))

      piece :
          k < length (all_after s)
          → (length (take k (all_after s)) ≤ k)
            × ((token ≡ []) × (take k (all_after s) ≡ all_after s)
                ⊎ (token ≢ [])
                  × (all_after s ≡ take k (all_after s) ++ all_after token)
                  × (length (all_after token) < length (all_after s)))
      piece big =
          let later =
            last_key-after k s (all_after s) (or_default-pos n) big
              (listing-All (keys_of m b) p s valid.1) in
          let rest : all_after token ≡ drop k (all_after s) =
            listing-after (keys_of m b) p s token valid.1 later
            ∙ filter-after_last k (all_after s) (listing-IsStrict (keys_of m b) p s valid.1 valid.0)
                (or_default-pos n) big in
          let split = take-append-drop k (all_after s) in
          (
            length-take-le k (all_after s),
            inr (
              lt-ne-nil s token later,
              rw rest (sym split),
              rw rest (omega (arith, length-drop k (all_after s), or_default-pos n)),
            ),
          )

  -- A client that asks for the next page until the token is empty.
  unfoldable pub follow : ℕ → Text → ℕ → List ObjectMeta
  follow zero s n = []
  follow (suc fuel) s n =
      let (objs, token) = list_objects_paged m b p s n in
      let rest = follow fuel token n in if text_eq token [] then objs else objs ++ rest

  -- A client that asks for page after page until the token is empty gets the whole listing of the
  -- bucket, each object once and in order, whatever the page size, and stops after at most one
  -- page more than there are objects. The store is valid.
  pub follow-eq-all_after :
      (fuel : ℕ) (s : Text) (n : ℕ) → length (all_after s) < fuel → follow fuel s n ≡ all_after s
  unfolding follow
  follow-eq-all_after zero s n h = absurd (omega arith)
  follow-eq-all_after (suc fuel) s n h = elim (page_step s n).1 [
    | inl (done, whole) ↦ rw (done, text_eq_refl []) whole
    | inr (more, split, less) ↦ ground (
      arith,
      more,
      split,
      text_eq_iff (list_objects_paged m b p s n).1 [],
      follow-eq-all_after fuel (list_objects_paged m b p s n).1 n (omega arith),
    )
  ]
