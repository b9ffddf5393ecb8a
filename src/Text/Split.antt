-- ===== src/Text/Split.antt =====
-- `strings.Split`, `strings.SplitN(s, sep, 2)`, `strings.TrimPrefix`, `strings.TrimSpace` and
-- `strings.Join`, with separators of one byte. `trim_space` knows the ASCII white space.
use mathlib.Core.List.{reverse, reverse_aux, reverse-reverse}
use jario.Base.{
  ℕ, ◌≡◌, refl, ◌∙◌, not, Bool, true, ◌||◌, List, [], ◌∷◌, ◌++◌, Option, none, some, arith, length,
  drop, leb, ◌==◌, ◌&&◌, All, ap, if◌then◌else◌,
}
use jario.Text.{Text, has_prefix, all}
use jario.Text.Laws.{has_prefix-append}

abbrev pub push : ℕ → List Text → List Text
push c [] = (c ∷ []) ∷ []
push c (field ∷ fields) = (c ∷ field) ∷ fields

unfoldable pub split : ℕ → Text → List Text
split sep [] = [] ∷ []
split sep (c ∷ s) = let rest = split sep s in if c == sep then [] ∷ rest else push c rest

-- What stands before and after the first separator: SplitN(s, sep, 2) has two parts exactly if
-- there is one.
unfoldable pub cut : ℕ → Text → Option (Text × Text)
cut sep [] = none
cut sep (c ∷ s) =
    let rest = cut sep s in
    if c == sep
    then some ([], s)
    else elim rest [ none ↦ none | some (before, after) ↦ some (c ∷ before, after) ]

unfoldable pub trim_prefix : Text → Text → Text
trim_prefix s p = if has_prefix s p then drop (length p) s else s

abbrev pub is_space : ℕ → Bool
is_space c = c == b' ' || (leb 9 c && leb c 13)

unfoldable pub trim_left : Text → Text
trim_left [] = []
trim_left (c ∷ s) = let rest = trim_left s in if is_space c then rest else c ∷ s

unfoldable pub trim_space : Text → Text
trim_space s = reverse (trim_left (reverse (trim_left s)))

unfoldable pub join : Text → List Text → Text
join sep [] = []
join sep (s ∷ []) = s
join sep (s ∷ t ∷ rest) = s ++ (sep ++ join sep (t ∷ rest))

pub all-++ : (p : ℕ → Bool) (s t : Text) → all p (s ++ t) ≡ (all p s && all p t)
all-++ p [] t = refl
all-++ p (c ∷ s) t = ground (arith, all-++ p s t)

pub all-imp :
    (p q : ℕ → Bool) (s : Text)
    → ((c : ℕ) → p c ≡ true → q c ≡ true)
    → all p s ≡ true
    → all q s ≡ true
all-imp p q [] f h = refl
all-imp p q (c ∷ s) f h = ground (arith, f c, all-imp p q s f)

abbrev pub is_not : ℕ → ℕ → Bool
is_not sep c = not (c == sep)

-- The byte does not occur.
abbrev pub Lacks : ℕ → Text → Type 0
Lacks sep s = all (is_not sep) s ≡ true

pub cut-++ : (sep : ℕ) (a b : Text) → Lacks sep a → cut sep (a ++ sep ∷ b) ≡ some (a, b)
unfolding cut
cut-++ sep [] b h = ground arith
cut-++ sep (c ∷ a) b h = ground (arith, cut-++ sep a b)

-- A text without the separator is one field.
pub split-last : (sep : ℕ) (a : Text) → Lacks sep a → split sep a ≡ a ∷ []
unfolding split
split-last sep [] h = refl
split-last sep (c ∷ a) h = ground (arith, split-last sep a)

-- A field, its separator and more fields.
pub split-++ : (sep : ℕ) (a b : Text) → Lacks sep a → split sep (a ++ sep ∷ b) ≡ a ∷ split sep b
unfolding split
split-++ sep [] b h = ground arith
split-++ sep (c ∷ a) b h = ground (arith, split-++ sep a b)

-- Splitting undoes joining.
pub split-join :
    (sep : ℕ) (s : Text) (rest : List Text)
    → Lacks sep s
    → All (λ t. Lacks sep t) rest
    → split sep (join (sep ∷ []) (s ∷ rest)) ≡ s ∷ rest
unfolding join
split-join sep s [] h k = split-last sep s h
split-join sep s (t ∷ rest) h k =
    split-++ sep s (join (sep ∷ []) (t ∷ rest)) h ∙ ap (◌∷◌ s) (split-join sep t rest k.0 k.1)

pub trim_prefix-++ : (s t : Text) → trim_prefix (s ++ t) s ≡ t
unfolding trim_prefix
trim_prefix-++ s t = rw (has_prefix-append s t) (drop_lem s t)
  where
    drop_lem : (s t : Text) → drop (length s) (s ++ t) ≡ t
    drop_lem [] t = refl
    drop_lem (c ∷ s) t = drop_lem s t

-- Texts without white space.
abbrev pub no_space : ℕ → Bool
no_space c = not (is_space c)

pub trim_left-plain : (s : Text) → all no_space s ≡ true → trim_left s ≡ s
unfolding trim_left
trim_left-plain [] h = refl
trim_left-plain (c ∷ s) h = ground arith

all-reverse_aux : (p : ℕ → Bool) (s t : Text) → all p (reverse_aux s t) ≡ (all p s && all p t)
all-reverse_aux p [] t = refl
all-reverse_aux p (c ∷ s) t = ground (arith, all-reverse_aux p s (c ∷ t))

all-reverse : (p : ℕ → Bool) (s : Text) → all p s ≡ true → all p (reverse s) ≡ true
all-reverse p s h = ground (arith, all-reverse_aux p s [])

pub trim_space-plain : (s : Text) → all no_space s ≡ true → trim_space s ≡ s
unfolding trim_space
trim_space-plain s h =
    rw (trim_left-plain s h, trim_left-plain (reverse s) (all-reverse no_space s h))
      (reverse-reverse s)

pub trim_space-space : (s : Text) → all no_space s ≡ true → trim_space (b' ' ∷ s) ≡ s
unfolding trim_space trim_left
trim_space-space s h =
    rw (trim_left-plain s h, trim_left-plain (reverse s) (all-reverse no_space s h))
      (reverse-reverse s)
