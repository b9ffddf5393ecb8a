-- ===== src/GoMap.antt =====
-- Go maps as association lists: reading a key, `m[k] = v` and `delete(m, k)`. The order of the
-- entries stands for the order in which `range` happens to visit them.
use mathlib.Core.Path.{subst₂}
use jario.Base.{
  ◌≡◌, refl, true, List, [], ◌∷◌, Option, none, some, arith, Eq, Bool-cases, inl, inr,
  if◌then◌else◌,
}

abbrev pub GoMap {ℓ} : Type ℓ → Type ℓ → Type ℓ
GoMap K V = List (K × V)

pub beq_refl {ℓ} : {K : Type ℓ} ⦃e : Eq K⦄ (k : K) → e.beq k k ≡ true
beq_refl ⦃e⦄ k = (e.beq_iff k k).1 refl

module _ {ℓ} {K V : Type ℓ} ⦃e : Eq K⦄ where
  -- v, ok := m[k]
  unfoldable pub lookup : K → GoMap K V → Option V
  lookup k [] = none
  lookup k ((j, v) ∷ m) = if e.beq j k then some v else lookup k m

  -- m[k] = v
  unfoldable pub insert : K → V → GoMap K V → GoMap K V
  insert k v [] = (k, v) ∷ []
  insert k v ((j, w) ∷ m) = if e.beq j k then (k, v) ∷ m else (j, w) ∷ insert k v m

  -- delete(m, k)
  unfoldable pub delete : K → GoMap K V → GoMap K V
  delete k [] = []
  delete k ((j, w) ∷ m) = let rest = delete k m in if e.beq j k then rest else (j, w) ∷ rest

  pub lookup-insert :
      (k j : K) (v : V) (m : GoMap K V)
      → lookup j (insert k v m) ≡ (if e.beq k j then some v else lookup j m)
  unfolding lookup insert
  lookup-insert k j v [] = refl
  lookup-insert k j v ((i, w) ∷ m) =
      ground (arith, e.beq_iff k j, e.beq_iff i k, e.beq_iff i j, lookup-insert k j v m)

  pub lookup-delete :
      (k j : K) (m : GoMap K V) → lookup j (delete k m) ≡ (if e.beq k j then none else lookup j m)
  unfolding lookup delete
  lookup-delete k j [] = ground arith
  lookup-delete k j ((i, w) ∷ m) =
      ground (arith, e.beq_iff k j, e.beq_iff i k, e.beq_iff i j, lookup-delete k j m)

  pub lookup-insert_self : (k : K) (v : V) (m : GoMap K V) → lookup k (insert k v m) ≡ some v
  lookup-insert_self k v m = rw (lookup-insert k k v m, beq_refl k)

  pub lookup-delete_self : (k : K) (m : GoMap K V) → lookup k (delete k m) ≡ none
  lookup-delete_self k m = rw (lookup-delete k k m, beq_refl k)

  -- No key has two entries.
  abbrev pub IsMap : GoMap K V → Type ℓ
  IsMap [] = Unit
  IsMap ((k, v) ∷ m) = (lookup k m ≡ none) × IsMap m

  pub insert-IsMap : (k : K) (v : V) (m : GoMap K V) → IsMap m → IsMap (insert k v m)
  unfolding lookup insert
  insert-IsMap k v [] h = (refl, tt)
  insert-IsMap k v ((j, w) ∷ m) h = elim (Bool-cases (e.beq j k)) [
    | inl same ↦ rw same (ground (arith, e.beq_iff j k), h.1)
    | inr other ↦ rw other (
      ground (arith, lookup-insert k j v m, e.beq_iff k j, e.beq_iff j k),
      insert-IsMap k v m h.1,
    )
  ]

  pub delete-IsMap : (k : K) (m : GoMap K V) → IsMap m → IsMap (delete k m)
  unfolding lookup delete
  delete-IsMap k [] h = tt
  delete-IsMap k ((j, w) ∷ m) h = elim (Bool-cases (e.beq j k)) [
    | inl same ↦ rw same (delete-IsMap k m h.1)
    | inr other ↦
        rw other (ground (arith, lookup-delete k j m, e.beq_iff k j), delete-IsMap k m h.1)
  ]

  module _ (P : K → V → Type ℓ) where
    abbrev pub Every : GoMap K V → Type ℓ
    Every [] = Unit
    Every ((k, v) ∷ m) = P k v × Every m

    pub insert-Every : (k : K) (v : V) (m : GoMap K V) → P k v → Every m → Every (insert k v m)
    unfolding insert
    insert-Every k v [] p h = (p, tt)
    insert-Every k v ((j, w) ∷ m) p h = elim (Bool-cases (e.beq j k)) [
      | inl same ↦ rw same (p, h.1)
      | inr other ↦ rw other (h.0, insert-Every k v m p h.1)
    ]

    pub delete-Every : (k : K) (m : GoMap K V) → Every m → Every (delete k m)
    unfolding delete
    delete-Every k [] h = tt
    delete-Every k ((j, w) ∷ m) h = elim (Bool-cases (e.beq j k)) [
      | inl same ↦ rw same (delete-Every k m h.1)
      | inr other ↦ rw other (h.0, delete-Every k m h.1)
    ]

    pub lookup-Every : (k : K) (m : GoMap K V) (v : V) → lookup k m ≡ some v → Every m → P k v
    unfolding lookup
    lookup-Every k [] v found h = absurd (cc)
    lookup-Every k ((j, w) ∷ m) v found h = elim (Bool-cases (e.beq j k)) [
      | inl same ↦ subst₂ P ((e.beq_iff j k).0 same) (ground arith) h.0
      | inr other ↦ lookup-Every k m v (ground arith) h.1
    ]

module _ {ℓ} {K V : Type ℓ} ⦃e : Eq K⦄ {P Q : K → V → Type ℓ} where
  pub Every-imp : ((k : K) (v : V) → P k v → Q k v) → (m : GoMap K V) → Every P m → Every Q m
  Every-imp f [] h = tt
  Every-imp f ((k, v) ∷ m) h = (f k v h.0, Every-imp f m h.1)

pub ruleset map_laws = (lookup-insert, lookup-delete)
