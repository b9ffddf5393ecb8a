-- ===== src/Outcome.antt =====
-- internal/store/store.go, the sentinel errors, and the three ways in which a Go call ends.
use jario.Base.{◌++◌, ◌≡◌, refl, ◌⊎◌, inl, inr, Option, none, some}
use jario.Text.{Text, codes}

-- The sentinels of store.go; `other` carries the message of any other error.
pub data Error : Type 0 where
  bucket_exists no_bucket no_key not_leader invalid_upload_id : Error
  other : Text → Error

-- err.Error()
pub message : Error → Text
message bucket_exists = codes "BucketAlreadyExists"
message no_bucket = codes "NoSuchBucket"
message no_key = codes "NoSuchKey"
message not_leader = codes "not the Raft leader"
message invalid_upload_id = codes "InvalidUploadID"
message (other s) = s

-- A call returns a value, returns an error, or panics.
pub data Outcome {ℓ} (A : Type ℓ) : Type ℓ where
  ok : A → Outcome A
  err : Error → Outcome A
  panic : Outcome A

infixl 5 ◌>>=◌ ◌>>◌
abbrev pub ◌>>=◌ {ℓ κ} : {A : Type ℓ} {B : Type κ} → Outcome A → (A → Outcome B) → Outcome B
ok a >>= f = f a
err e >>= f = err e
panic >>= f = panic

abbrev pub ◌>>◌ {ℓ} : {B : Type ℓ} → Outcome (Unit {0}) → Outcome B → Outcome B
m >> k = m >>= λ _. k

-- fmt.Errorf(prefix + "%w", err)
abbrev pub wrap : {A : Type 0} → Text → Outcome A → Outcome A
wrap prefix (ok a) = ok a
wrap prefix (err e) = err (other (prefix ++ message e))
wrap prefix panic = panic

abbrev pub or_err {ℓ} : {A : Type ℓ} → Error → Option A → Outcome A
or_err e none = err e
or_err e (some a) = ok a

-- `encoding/json` at one type, as the program uses it.
pub record Codec {ℓ} (A : Type ℓ) : Type ℓ where
  pub marshal : A → Outcome Text
  pub unmarshal : Text → Outcome A

-- What is written for a value is read back as that value.
abbrev pub RoundTrips {ℓ} : {A : Type ℓ} → Codec A → A → Type ℓ
RoundTrips c a = (s : Text) → c.marshal a ≡ ok s → c.unmarshal s ≡ ok a

-- To split on how a call ends and keep the equation.
pub Outcome-cases {ℓ} :
    {A : Type ℓ} (r : Outcome A)
    → ((a : A) × (r ≡ ok a)) ⊎ (((e : Error) × (r ≡ err e)) ⊎ (r ≡ panic))
Outcome-cases (ok a) = inl (a, refl)
Outcome-cases (err e) = inr (inl (e, refl))
Outcome-cases panic = inr (inr refl)

-- What succeeded in a chain that succeeded.
pub bind-ok {ℓ κ} :
    {A : Type ℓ} {B : Type κ} (r : Outcome A) (f : A → Outcome B) (b : B)
    → (r >>= f) ≡ ok b
    → (a : A) × (r ≡ ok a) × (f a ≡ ok b)
bind-ok (ok a) f b h = (a, refl, h)
bind-ok (err e) f b h = absurd (cc)
bind-ok panic f b h = absurd (cc)
