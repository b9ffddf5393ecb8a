-- ===== src/Text/Laws.antt =====
-- Laws of the comparisons of texts, and of texts one behind the other.
use jario.Base.{ℕ, ◌≡◌, refl, ◌≢◌, ◌⊎◌, inl, inr, true, false, [], ◌∷◌, ◌++◌, arith}
use jario.Text.{Text, text_eq, text_lt, has_prefix, text_eq_iff}

pub text_eq_refl : (s : Text) → text_eq s s ≡ true
text_eq_refl s = (text_eq_iff s s).1 refl

pub text_eq_ne : (s t : Text) → s ≢ t → text_eq s t ≡ false
text_eq_ne s t h = ground (arith, text_eq_iff s t)

pub text_lt_irrefl : (s : Text) → text_lt s s ≡ false
unfolding text_lt
text_lt_irrefl [] = refl
text_lt_irrefl (c ∷ s) = ground (arith, text_lt_irrefl s)

pub text_lt_trans : (s t u : Text) → text_lt s t ≡ true → text_lt t u ≡ true → text_lt s u ≡ true
unfolding text_lt
text_lt_trans s t [] h k = absurd (ground arith)
text_lt_trans s [] (e ∷ u) h k = absurd (ground arith)
text_lt_trans [] (d ∷ t) (e ∷ u) h k = refl
text_lt_trans (c ∷ s) (d ∷ t) (e ∷ u) h k = ground (arith, text_lt_trans s t u)

-- Any two texts are comparable.
pub text_lt_total : (s t : Text) → (text_lt s t ≡ true) ⊎ ((s ≡ t) ⊎ (text_lt t s ≡ true))
unfolding text_lt
text_lt_total [] [] = inr (inl refl)
text_lt_total [] (d ∷ t) = inl refl
text_lt_total (c ∷ s) [] = inr (inr refl)
text_lt_total (c ∷ s) (d ∷ t) = ground (arith, text_lt_total s t)

pub has_prefix-append : (s t : Text) → has_prefix (s ++ t) s ≡ true
unfolding has_prefix
has_prefix-append [] t = refl
has_prefix-append (c ∷ s) t = ground (arith, has_prefix-append s t)

pub has_prefix-++ : (d s t : Text) → has_prefix (d ++ s) (d ++ t) ≡ has_prefix s t
unfolding has_prefix
has_prefix-++ [] s t = refl
has_prefix-++ (c ∷ d) s t = ground (arith, has_prefix-++ d s t)

pub ++_assoc : (a b c : Text) → (a ++ b) ++ c ≡ a ++ (b ++ c)
++_assoc [] b c = refl
++_assoc (x ∷ a) b c = ground (arith, ++_assoc a b c)

pub ++_nil : (a : Text) → a ++ [] ≡ a
++_nil [] = refl
++_nil (x ∷ a) = ground (arith, ++_nil a)

pub cons-injective : {a b : ℕ} {s t : Text} → a ∷ s ≡ b ∷ t → (a ≡ b) × (s ≡ t)
cons-injective h = (cc, cc)

pub ++_cancel : (d : Text) {s t : Text} → d ++ s ≡ d ++ t → s ≡ t
++_cancel [] h = h
++_cancel (c ∷ d) h = ++_cancel d (cons-injective h).1
