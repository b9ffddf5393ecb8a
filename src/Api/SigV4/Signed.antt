-- ===== src/Api/SigV4/Signed.antt =====
-- internal/api/sigv4.go: a request that a client has signed is let in, and what the signature covers.
use jario.Base.{
  ◌≡◌, refl, ◌≢◌, ◌↔◌, true, List, [], ◌∷◌, some, arith, Option-cases, inl, inr, if◌then◌else◌,
}
use jario.Text.{Text, codes, text_eq, text_eq_iff, text_eq_inst}
use jario.Text.Split.{trim_space}
use jario.GoMap.{GoMap, insert}
use jario.Store.State.{Env}
use jario.Api.Http.{Request, Platform}
use jario.Api.SigV4.{
  SigV4Auth, set_headers, build_canonical_request, parse_sigv4, payload_hash, compute_signature,
  verify_sigv4,
}
use jario.Api.SigV4.Header.{authorization, IsSigned, parse_sigv4-authorization}

-- Whatever the body is.
parse_sigv4-any_body :
    (r : Request) (body : Text) → parse_sigv4 (record r { body = body }) ≡ parse_sigv4 r
unfolding parse_sigv4
parse_sigv4-any_body r body = refl

set_headers-any_body :
    (r : Request) (body : Text) (signed : List Text) (headers : GoMap Text Text)
    → set_headers (record r { body = body }) signed headers ≡ set_headers r signed headers
unfolding set_headers
set_headers-any_body r body [] headers = refl
set_headers-any_body r body (h ∷ signed) headers =
    set_headers-any_body r body signed
      (if text_eq h (codes "host") then headers else insert h (trim_space (r.header h)) headers)

compute_signature-any_body :
    (platform : Platform) (secret_key : Text) (auth : SigV4Auth) (r : Request) (payload body : Text)
    → compute_signature platform secret_key auth (record r { body = body }) payload
      ≡ compute_signature platform secret_key auth r payload
unfolding compute_signature build_canonical_request
compute_signature-any_body platform secret_key auth r payload body =
    ground (arith, set_headers-any_body r body auth.signed_headers ((codes "host", r.host) ∷ []))

payload_hash-stated :
    (hash : Text → Text) (r : Request) (env : Env)
    → r.header (codes "X-Amz-Content-Sha256") ≢ []
    → payload_hash hash r env ≡ some (r.header (codes "X-Amz-Content-Sha256"))
unfolding payload_hash
payload_hash-stated hash r env h =
    ground (arith, text_eq_iff (r.header (codes "X-Amz-Content-Sha256")) [])

module _ (platform : Platform) (access_key secret_key : Text) (r : Request) (env : Env) where
  -- A request that carries the header that a client writes for a credential, a list of signed
  -- headers and a signature, and the date and access key that go with them, passes exactly if the
  -- signature is the one computed from the request. The fields have no white space, comma, slash
  -- or semicolon, those that the code asks for are not empty, and the hash of the payload is
  -- known.
  pub verify_sigv4-IsSigned :
      (a : SigV4Auth) (payload : Text)
      → IsSigned a
      → r.header (codes "Authorization") ≡ authorization a
      → r.header (codes "X-Amz-Date") ≡ a.datetime
      → a.access_key ≡ access_key
      → payload_hash platform.hash r env ≡ some payload
      → (verify_sigv4 platform access_key secret_key r env ≡ true)
        ↔ (compute_signature platform secret_key a r payload ≡ a.signature)
  unfolding verify_sigv4
  verify_sigv4-IsSigned a payload s sent dated known read =
      let parsed = parse_sigv4-authorization a s r sent dated in
      let computed = compute_signature platform secret_key a r payload in
      (
        (λ accepted. ground (
          arith,
          parsed,
          known,
          read,
          accepted,
          text_eq_iff a.access_key access_key,
          text_eq_iff computed a.signature,
        )),
        (λ same. ground (
          arith,
          parsed,
          known,
          read,
          same,
          text_eq_iff a.access_key access_key,
          text_eq_iff computed a.signature,
        )),
      )

  -- If a request states the hash of its payload in a header, whether it passes does not depend on
  -- its body.
  pub verify_sigv4_any_body :
      (body : Text)
      → r.header (codes "X-Amz-Content-Sha256") ≢ []
      → verify_sigv4 platform access_key secret_key (record r { body = body }) env
        ≡ verify_sigv4 platform access_key secret_key r env
  unfolding verify_sigv4
  verify_sigv4_any_body body h =
      let stated = r.header (codes "X-Amz-Content-Sha256") in
      let same = parse_sigv4-any_body r body in
      let hash_of = payload_hash-stated platform.hash r env h in
      let hash_of_other = payload_hash-stated platform.hash (record r { body = body }) env h in
      elim (Option-cases (parse_sigv4 r)) [
        | inl unsigned ↦ ground (arith, same)
        | inr (auth, parsed) ↦ ground (
          arith,
          same,
          hash_of,
          hash_of_other,
          compute_signature-any_body platform secret_key auth r stated body,
        )
      ]
