-- ===== src/Api/Bounds.antt =====
-- internal/api/api.go: the numbers that a client may choose.
use jario.Base.{ℕ, ◌≤◌, ◌≡◌, inl, inr, List, Option-cases, some, arith}
use jario.Text.{Text, codes}
use jario.Text.Atoi.{ℤ, pos, negsuc, atoi, in_range}
use jario.Api.Http.{query_get}
use jario.Api.Buckets.{max_keys}

pub in_range-within :
    (low high n : ℕ) (z : ℤ) → in_range low high z ≡ some n → (low ≤ n) × (n ≤ high)
unfolding in_range
in_range-within low high n (pos k) h = (ground arith, ground arith)
in_range-within low high n (negsuc k) h = absurd (ground arith)

-- Whatever the client asks for, the page size is from 1 to 1000.
pub max_keys-within : (query : List (Text × Text)) → (1 ≤ max_keys query) × (max_keys query ≤ 1000)
unfolding max_keys
max_keys-within query = elim (Option-cases (atoi (query_get (codes "max-keys") query))) [
  | inl bad ↦ (ground (arith, bad), ground (arith, bad))
  | inr (z, parsed) ↦ elim (Option-cases (in_range 1 1000 z)) [
    | inl outside ↦ (ground (arith, parsed, outside), ground (arith, parsed, outside))
    | inr (n, inside) ↦
        let (low, high) = in_range-within 1 1000 n z inside in
        (ground (arith, parsed, inside, low), ground (arith, parsed, inside, high))
  ]
]
