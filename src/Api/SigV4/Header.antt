-- ===== src/Api/SigV4/Header.antt =====
-- internal/api/sigv4.go: reading the header that a client writes.
use jario.Base.{
  ℕ, ◌≡◌, refl, ◌≢◌, ◌∙◌, ap, Bool, true, List, [], ◌∷◌, ◌++◌, some, ◌&&◌, arith, All, All-imp,
}
use jario.Text.{all, Text, codes, text_eq, text_eq_iff, text_eq_inst}
use jario.Text.Laws.{has_prefix-append}
use jario.Text.Split.{
  split, trim_prefix, join, all-++, all-imp, is_not, no_space, Lacks, cut-++, split-join,
  trim_prefix-++, trim_space-plain, trim_space-space,
}
use jario.Api.Http.{Request}
use jario.Api.SigV4.{SigV4Auth, empty_auth, set_field, set_fields, algorithm, parse_sigv4}

-- The bytes that credentials, header names and signatures are made of: no white space, comma,
-- slash or semicolon.
abbrev pub is_plain : ℕ → Bool
is_plain c = no_space c && (is_not b',' c && (is_not b'/' c && is_not b';' c))

abbrev pub IsPlain : Text → Type 0
IsPlain s = all is_plain s ≡ true

-- The `Authorization` header of a client.
abbrev pub scope_parts : SigV4Auth → List Text
scope_parts a = a.date ∷ a.region ∷ a.service ∷ codes "aws4_request" ∷ []

abbrev pub credential_field : SigV4Auth → Text
credential_field a = codes "Credential" ++ b'=' ∷ join (b'/' ∷ []) (a.access_key ∷ scope_parts a)

abbrev pub headers_field : SigV4Auth → Text
headers_field a = codes "SignedHeaders" ++ b'=' ∷ join (b';' ∷ []) a.signed_headers

abbrev pub signature_field : SigV4Auth → Text
signature_field a = codes "Signature" ++ b'=' ∷ a.signature

abbrev pub authorization : SigV4Auth → Text
authorization a =
    algorithm
    ++ join (b',' ∷ [])
        (credential_field a ∷ (b' ' ∷ headers_field a) ∷ (b' ' ∷ signature_field a) ∷ [])

-- The fields are made of such bytes, and none that the code asks for is empty.
pub record IsSigned (a : SigV4Auth) : Type 0 where
  pub access_key-IsPlain : IsPlain a.access_key
  pub date-IsPlain : IsPlain a.date
  pub region-IsPlain : IsPlain a.region
  pub service-IsPlain : IsPlain a.service
  pub signature-IsPlain : IsPlain a.signature
  pub signed_headers-IsPlain : All IsPlain a.signed_headers
  pub access_key-ne-nil : a.access_key ≢ []
  pub signature-ne-nil : a.signature ≢ []
  pub datetime-ne-nil : a.datetime ≢ []
  pub signed_headers-ne-nil : a.signed_headers ≢ []

-- The bytes of a field behind its name: a slash and a semicolon may stand there.
abbrev in_field : ℕ → Bool
in_field c = no_space c && is_not b',' c

plain-no_space : (s : Text) → IsPlain s → all no_space s ≡ true
plain-no_space s h = all-imp is_plain no_space s (λ c k. ground (arith, k)) h

plain-Lacks_slash : (s : Text) → IsPlain s → Lacks b'/' s
plain-Lacks_slash s h = all-imp is_plain (is_not b'/') s (λ c k. ground (arith, k)) h

plain-Lacks_semicolon : (s : Text) → IsPlain s → Lacks b';' s
plain-Lacks_semicolon s h = all-imp is_plain (is_not b';') s (λ c k. ground (arith, k)) h

plain-in_field : (s : Text) → IsPlain s → all in_field s ≡ true
plain-in_field s h = all-imp is_plain in_field s (λ c k. ground (arith, k)) h

in_field-no_space : (s : Text) → all in_field s ≡ true → all no_space s ≡ true
in_field-no_space s h = all-imp in_field no_space s (λ c k. ground (arith, k)) h

in_field-Lacks : (s : Text) → all in_field s ≡ true → Lacks b',' s
in_field-Lacks s h = all-imp in_field (is_not b',') s (λ c k. ground (arith, k)) h

join-in_field :
    (sep : ℕ) (hs : List Text)
    → in_field sep ≡ true
    → All IsPlain hs
    → all in_field (join (sep ∷ []) hs) ≡ true
unfolding join
join-in_field sep [] k h = refl
join-in_field sep (x ∷ []) k h = plain-in_field x h.0
join-in_field sep (x ∷ y ∷ hs) k h = ground (
  arith,
  all-++ in_field x (sep ∷ join (sep ∷ []) (y ∷ hs)),
  plain-in_field x h.0,
  join-in_field sep (y ∷ hs) k h.1,
)

split-join_plain :
    (hs : List Text) → hs ≢ [] → All IsPlain hs → split b';' (join (b';' ∷ []) hs) ≡ hs
split-join_plain [] ne h = absurd (ne refl)
split-join_plain (x ∷ hs) ne h =
    split-join b';' x hs (plain-Lacks_semicolon x h.0) (All-imp plain-Lacks_semicolon hs h.1)

module _ (a : SigV4Auth) (s : IsSigned a) where
  scope-IsPlain : All IsPlain (a.access_key ∷ scope_parts a)
  scope-IsPlain =
      (s.access_key-IsPlain, (s.date-IsPlain, (s.region-IsPlain, (s.service-IsPlain, (refl, tt)))))

  credential-in_field : all in_field (credential_field a) ≡ true
  credential-in_field = join-in_field b'/' (a.access_key ∷ scope_parts a) refl scope-IsPlain

  headers-in_field : all in_field (headers_field a) ≡ true
  headers-in_field = join-in_field b';' a.signed_headers refl s.signed_headers-IsPlain

  signature-in_field : all in_field (signature_field a) ≡ true
  signature-in_field = plain-in_field a.signature s.signature-IsPlain

  split-credential :
      split b'/' (join (b'/' ∷ []) (a.access_key ∷ scope_parts a)) ≡ a.access_key ∷ scope_parts a
  split-credential =
      split-join b'/' a.access_key (scope_parts a)
        (plain-Lacks_slash a.access_key s.access_key-IsPlain)
        (All-imp plain-Lacks_slash (scope_parts a) scope-IsPlain.1)

  split-headers : split b';' (join (b';' ∷ []) a.signed_headers) ≡ a.signed_headers
  split-headers = split-join_plain a.signed_headers s.signed_headers-ne-nil s.signed_headers-IsPlain

  split-authorization :
      split b',' (trim_prefix (authorization a) algorithm)
      ≡ credential_field a ∷ (b' ' ∷ headers_field a) ∷ (b' ' ∷ signature_field a) ∷ []
  split-authorization =
      ap (split b',') (trim_prefix-++ algorithm (join (b',' ∷ []) (credential_field a ∷ later)))
      ∙ split-join b',' (credential_field a) later
          (in_field-Lacks (credential_field a) credential-in_field)
          (
            (in_field-Lacks (headers_field a) headers-in_field),
            ((in_field-Lacks (signature_field a) signature-in_field), tt),
          )
    where
      later : List Text
      later = (b' ' ∷ headers_field a) ∷ (b' ' ∷ signature_field a) ∷ []

  set_field-credential :
      (auth : SigV4Auth)
      → set_field (credential_field a) auth
        ≡ some (record auth {
          access_key = a.access_key;
          date = a.date;
          region = a.region;
          service = a.service;
        })
  unfolding set_field text_eq
  set_field-credential auth = ground (
    arith,
    trim_space-plain (credential_field a)
        (in_field-no_space (credential_field a) credential-in_field),
    cut-++ b'=' (codes "Credential") (join (b'/' ∷ []) (a.access_key ∷ scope_parts a)) refl,
    split-credential,
  )

  set_field-headers :
      (auth : SigV4Auth)
      → set_field (b' ' ∷ headers_field a) auth
        ≡ some (record auth { signed_headers = a.signed_headers })
  unfolding set_field text_eq
  set_field-headers auth = ground (
    arith,
    trim_space-space (headers_field a) (in_field-no_space (headers_field a) headers-in_field),
    cut-++ b'=' (codes "SignedHeaders") (join (b';' ∷ []) a.signed_headers) refl,
    split-headers,
  )

  set_field-signature :
      (auth : SigV4Auth)
      → set_field (b' ' ∷ signature_field a) auth ≡ some (record auth { signature = a.signature })
  unfolding set_field text_eq
  set_field-signature auth = ground (
    arith,
    trim_space-space (signature_field a) (in_field-no_space (signature_field a) signature-in_field),
    cut-++ b'=' (codes "Signature") a.signature refl,
  )

  pub parse_sigv4-authorization :
      (r : Request)
      → r.header (codes "Authorization") ≡ authorization a
      → r.header (codes "X-Amz-Date") ≡ a.datetime
      → parse_sigv4 r ≡ some a
  unfolding parse_sigv4 set_fields
  parse_sigv4-authorization r sent dated = ground (
    arith,
    sent,
    dated,
    has_prefix-append algorithm (
        join (b',' ∷ [])
          (credential_field a ∷ (b' ' ∷ headers_field a) ∷ (b' ' ∷ signature_field a) ∷ [])),
    split-authorization,
    set_field-credential empty_auth,
    set_field-headers with_credential,
    set_field-signature with_headers,
    text_eq_iff a.access_key [],
    text_eq_iff a.signature [],
    text_eq_iff a.datetime [],
    s.access_key-ne-nil,
    s.signature-ne-nil,
    s.datetime-ne-nil,
  )
    where
      with_credential : SigV4Auth
      with_credential = record empty_auth {
        access_key = a.access_key;
        date = a.date;
        region = a.region;
        service = a.service;
      }

      with_headers : SigV4Auth
      with_headers = record with_credential { signed_headers = a.signed_headers }
