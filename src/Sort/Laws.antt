-- ===== src/Sort/Laws.antt =====
-- A sorted result, the same items, and how sorting meets filtering.
use mathlib.Core.List.{Perm}
use mathlib.Core.List.Perm
use jario.Base.{
  ◌≡◌, refl, inl, inr, Bool, true, false, List, [], ◌∷◌, arith, All, All-imp, All-filter,
  Bool-cases, filter, if◌then◌else◌,
}
use jario.Sort.{insert_sorted, sort}

module _ {ℓ} {A : Type ℓ} (less : A → A → Bool) where
  -- `less` is the strict part of a total preorder.
  pub record IsOrder : Type ℓ where
    pub asym : (a b : A) → less a b ≡ true → less b a ≡ false
    pub not_trans : (a b c : A) → less a b ≡ false → less b c ≡ false → less a c ≡ false

  -- No item is less than one that stands before it.
  abbrev pub IsSorted : List A → Type ℓ
  IsSorted [] = Unit
  IsSorted (x ∷ xs) = All (λ y. less y x ≡ false) xs × IsSorted xs

  pub All-insert_sorted {κ} :
      (P : A → Type κ) (x : A) (xs : List A) → P x → All P xs → All P (insert_sorted less x xs)
  unfolding insert_sorted
  All-insert_sorted P x [] p h = (p, tt)
  All-insert_sorted P x (y ∷ ys) p h =
      elim (less y x) as (λ b. All P (if b then y ∷ insert_sorted less x ys else x ∷ y ∷ ys)) [
        | true ↦ (h.0, All-insert_sorted P x ys p h.1)
        | false ↦ (p, h)
      ]

  pub All-sort {κ} : (P : A → Type κ) (xs : List A) → All P xs → All P (sort less xs)
  unfolding sort
  All-sort P [] h = tt
  All-sort P (x ∷ xs) h = All-insert_sorted P x (sort less xs) h.0 (All-sort P xs h.1)

  insert_sorted-perm : (x : A) (xs : List A) → Perm (insert_sorted less x xs) (x ∷ xs)
  unfolding insert_sorted
  insert_sorted-perm x [] = Perm.refl (x ∷ [])
  insert_sorted-perm x (y ∷ ys) =
      elim (less y x)
        as (λ b. Perm (if b then y ∷ insert_sorted less x ys else x ∷ y ∷ ys) (x ∷ y ∷ ys)) [
          | true ↦ Perm.trans (Perm.cons y (insert_sorted-perm x ys)) (Perm.swap x y ys)
          | false ↦ Perm.refl (x ∷ y ∷ ys)
        ]

  -- Sorting keeps the items.
  pub sort-perm : (xs : List A) → Perm (sort less xs) xs
  unfolding sort
  sort-perm [] = Perm.refl []
  sort-perm (x ∷ xs) = Perm.trans (insert_sorted-perm x (sort less xs)) (Perm.cons x (sort-perm xs))

  module _ (o : IsOrder) where
    insert_sorted-IsSorted :
        (x : A) (xs : List A) → IsSorted xs → IsSorted (insert_sorted less x xs)
    unfolding insert_sorted
    insert_sorted-IsSorted x [] h = (tt, tt)
    insert_sorted-IsSorted x (y ∷ ys) h = elim (Bool-cases (less y x)) [
      | inl before ↦ rw before (
        All-insert_sorted (λ z. less z y ≡ false) x ys (o.asym y x before) h.0,
        insert_sorted-IsSorted x ys h.1,
      )
      | inr after ↦ rw after ((after, All-imp (λ z k. o.not_trans z y x k after) ys h.0), h)
    ]

    pub sort-IsSorted : (xs : List A) → IsSorted (sort less xs)
    unfolding sort
    sort-IsSorted [] = tt
    sort-IsSorted (x ∷ xs) = insert_sorted-IsSorted x (sort less xs) (sort-IsSorted xs)

    -- An item that is less than none of the list goes to the front.
    insert_sorted_front :
        (x : A) (xs : List A) → All (λ z. less z x ≡ false) xs → insert_sorted less x xs ≡ x ∷ xs
    unfolding insert_sorted
    insert_sorted_front x [] h = refl
    insert_sorted_front x (y ∷ ys) h = rw h.0

    filter-insert_sorted :
        (q : A → Bool) (x : A) (xs : List A)
        → IsSorted xs
        → filter q (insert_sorted less x xs)
          ≡ (if q x then insert_sorted less x (filter q xs) else filter q xs)
    unfolding insert_sorted
    filter-insert_sorted q x [] h = refl
    filter-insert_sorted q x (y ∷ ys) h = elim (Bool-cases (less y x)) [
      | inl before ↦ rw before (ground (arith, filter-insert_sorted q x ys h.1))
      | inr after ↦ rw after (
          ground (
            arith,
            insert_sorted_front x (filter q ys) (
                All-filter (λ z. less z x ≡ false) q ys
                  (All-imp (λ z k. o.not_trans z y x k after) ys h.0)),
          ))
    ]

    -- Sorting and filtering commute.
    pub filter-sort :
        (q : A → Bool) (xs : List A) → filter q (sort less xs) ≡ sort less (filter q xs)
    unfolding sort
    filter-sort q [] = refl
    filter-sort q (x ∷ xs) =
        ground (arith, filter-insert_sorted q x (sort less xs) (sort-IsSorted xs), filter-sort q xs)
