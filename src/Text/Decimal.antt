-- ===== src/Text/Decimal.antt =====
-- `strconv.FormatInt(n, 10)` on an int64, and that it tells the numbers apart.
use jario.Base.{
  refl, true, ℕ, zero, suc, ◌+◌, ◌-◌, ◌*◌, ◌/◌, ◌%◌, ◌^◌, ◌≤◌, ◌<◌, ◌≡◌, sym, ap, ◌∙◌, ◌≢◌, [], ◌∷◌,
  arith, ltb, ◌==◌, if◌then◌else◌,
}
use jario.Text.{Text, all, no_slash}

-- The digits of `n` in front of `out`; each round divides by ten, so `n` is fuel enough.
digits : ℕ → ℕ → Text → Text
digits zero n out = out
digits (suc f) n out =
    let rest = digits f (n / 10) ((b'0' + n % 10) ∷ out) in if n == 0 then out else rest

unfoldable pub decimal : ℕ → Text
unfolding digits
decimal n = if n == 0 then b'0' ∷ [] else digits n n []

-- An int64 is kept as its 64-bit pattern.
unfoldable pub format_int : ℕ → Text
unfolding decimal
format_int n = if ltb n (2 ^ 63) then decimal n else b'-' ∷ decimal (2 ^ 64 - n)

-- The number that a row of digits denotes, after the digits already read.
value_from : ℕ → Text → ℕ
value_from acc [] = acc
value_from acc (c ∷ s) = value_from (acc * 10 + (c - b'0')) s

value-digits : (f n : ℕ) (out : Text) → n ≤ f → value_from 0 (digits f n out) ≡ value_from n out
unfolding value_from digits
value-digits zero n out h = ap (λ k. value_from k out) (omega arith)
value-digits (suc f) n out h = ground (
  arith,
  value-digits f (n / 10) ((b'0' + n % 10) ∷ out),
  ap (λ k. value_from k out) (split_digit n),
)
  where
    split_digit : (n : ℕ) → (n / 10) * 10 + ((b'0' + n % 10) - b'0') ≡ n
    split_digit n = omega arith

value-decimal : (n : ℕ) → value_from 0 (decimal n) ≡ n
unfolding decimal value_from
value-decimal n = ground (arith, value-digits n n [])

pub decimal-injective : (a b : ℕ) → decimal a ≡ decimal b → a ≡ b
decimal-injective a b h = sym (value-decimal a) ∙ ap (value_from 0) h ∙ value-decimal b

decimal-ne-nil : (n : ℕ) → decimal n ≢ []
unfolding decimal value_from
decimal-ne-nil n h =
    let zero_value : n ≡ 0 = sym (value-decimal n) ∙ ap (value_from 0) h in
    cc (ap decimal zero_value, h)

pub format_int-ne-nil : (n : ℕ) → format_int n ≢ []
unfolding format_int
format_int-ne-nil n h = ground (arith, decimal-ne-nil n)

-- Two IDs below 2^63 with one text are one ID.
pub format_int-injective : (a b : ℕ) → a < 2 ^ 63 → b < 2 ^ 63 → format_int a ≡ format_int b → a ≡ b
unfolding format_int
format_int-injective a b ha hb h = decimal-injective a b (ground arith)

-- No slash in a decimal number.
digits-no_slash :
    (f n : ℕ) (out : Text) → all no_slash out ≡ true → all no_slash (digits f n out) ≡ true
unfolding digits
digits-no_slash zero n out h = h
digits-no_slash (suc f) n out h =
    ground (arith, digits-no_slash f (n / 10) ((b'0' + n % 10) ∷ out) (ground (arith, h)))

pub format_int-no_slash : (n : ℕ) → all no_slash (format_int n) ≡ true
unfolding format_int decimal
format_int-no_slash n =
    ground (arith, digits-no_slash n n [] refl, digits-no_slash (2 ^ 64 - n) (2 ^ 64 - n) [] refl)
