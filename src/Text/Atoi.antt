-- ===== src/Text/Atoi.antt =====
-- `strconv.Atoi`: a sign and decimal digits, within an int64.
use jario.Base.{
  ℕ, ◌+◌, ◌-◌, ◌*◌, ◌^◌, Bool, ◌&&◌, [], ◌∷◌, Option, none, some, ltb, leb, ◌==◌, if◌then◌else◌,
}
use jario.Text.{Text}

pub data ℤ : Type 0 where
  pos negsuc : ℕ → ℤ

abbrev is_digit : ℕ → Bool
is_digit c = leb b'0' c && leb c b'9'

-- The value of the digits, if all bytes are digits.
unfoldable digits_value : ℕ → Text → Option ℕ
digits_value acc [] = some acc
digits_value acc (c ∷ s) =
    let rest = digits_value (acc * 10 + (c - b'0')) s in if is_digit c then rest else none

unfoldable magnitude : Text → Option ℕ
magnitude [] = none
magnitude (c ∷ s) = digits_value 0 (c ∷ s)

abbrev within_positive : Option ℕ → Option ℤ
within_positive none = none
within_positive (some n) = if ltb n (2 ^ 63) then some (pos n) else none

abbrev within_negative : Option ℕ → Option ℤ
within_negative none = none
within_negative (some n) =
    if n == 0 then some (pos 0) else if leb n (2 ^ 63) then some (negsuc (n - 1)) else none

unfoldable pub atoi : Text → Option ℤ
unfolding magnitude digits_value
atoi [] = none
atoi (c ∷ s) =
    if c == b'-'
    then within_negative (magnitude s)
    else if c == b'+'
    then within_positive (magnitude s)
    else within_positive (magnitude (c ∷ s))

-- `n >= low && n <= high`, for low at least 0
unfoldable pub in_range : ℕ → ℕ → ℤ → Option ℕ
in_range low high (pos n) = if leb low n && leb n high then some n else none
in_range low high (negsuc n) = none
