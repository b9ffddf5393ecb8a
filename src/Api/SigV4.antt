-- ===== src/Api/SigV4.antt =====
-- internal/api/sigv4.go: AWS Signature Version 4. HMAC, SHA-256 and hex are in Platform.
pub mod Header
pub mod Signed
use jario.Base.{
  ℕ, Bool, true, false, List, [], ◌∷◌, ◌++◌, Option, none, some, not, ◌||◌, ◌&&◌, map,
  if◌then◌else◌,
}
use jario.Text.{Text, codes, text_eq, text_lt, has_prefix, text_eq_inst}
use jario.Text.Split.{split, cut, trim_prefix, trim_space, join}
use jario.Outcome.{Outcome, ok, err, panic}
use jario.GoMap.{GoMap, insert}
use jario.Sort.{sort}
use jario.Store.State.{Env}
use jario.Api.Http.{Request, Platform}

pub record SigV4Auth : Type 0 where
  pub access_key : Text
  pub date : Text
  pub datetime : Text
  pub region : Text
  pub service : Text
  pub signed_headers : List Text
  pub signature : Text

abbrev pub empty_auth : SigV4Auth
empty_auth = record {
  access_key = [];
  date = [];
  datetime = [];
  region = [];
  service = [];
  signed_headers = [];
  signature = [];
}

-- The credential scope: five parts, of which the last is fixed.
abbrev pub set_credential : List Text → SigV4Auth → Option SigV4Auth
set_credential (a ∷ b ∷ c ∷ d ∷ e ∷ []) auth =
    if text_eq e (codes "aws4_request")
    then some (record auth { access_key = a; date = b; region = c; service = d })
    else none
set_credential _ auth = none

-- The body of the loop of `parseSigV4`.
unfoldable pub set_field : Text → SigV4Auth → Option SigV4Auth
set_field f auth = elim (cut b'=' (trim_space f)) [
  | none ↦ some auth
  | some (name, value) ↦
      if text_eq name (codes "Credential")
      then set_credential (split b'/' value) auth
      else if text_eq name (codes "SignedHeaders")
      then some (record auth { signed_headers = split b';' value })
      else if text_eq name (codes "Signature")
      then some (record auth { signature = value })
      else some auth
]

unfoldable pub set_fields : List Text → SigV4Auth → Option SigV4Auth
set_fields [] auth = some auth
set_fields (f ∷ fs) auth = elim (set_field f auth) [
  | none ↦ none
  | some auth' ↦ set_fields fs auth'
]

abbrev pub algorithm : Text
algorithm = codes "AWS4-HMAC-SHA256 "

unfoldable pub parse_sigv4 : Request → Option SigV4Auth
parse_sigv4 r =
    let h = r.header (codes "Authorization") in
    if not (has_prefix h algorithm)
    then none
    else elim (set_fields (split b',' (trim_prefix h algorithm)) empty_auth) [
      | none ↦ none
      | some parsed ↦
          let auth = record parsed { datetime = r.header (codes "X-Amz-Date") } in
          if text_eq auth.access_key [] || (text_eq auth.signature [] || text_eq auth.datetime [])
          then none
          else some auth
    ]

-- Reading the body may fail; it is put back for the handler.
unfoldable pub payload_hash : (hash : Text → Text) → Request → Env → Option Text
payload_hash hash r env =
    let h = r.header (codes "X-Amz-Content-Sha256") in
    if not (text_eq h [])
    then some h
    else elim env.read_error [ none ↦ some (hash r.body) | some _ ↦ none ]

-- headers[h] = … for each signed header but the host
unfoldable pub set_headers : Request → List Text → GoMap Text Text → GoMap Text Text
set_headers r [] headers = headers
set_headers r (h ∷ signed) headers =
    set_headers r signed
      (if text_eq h (codes "host") then headers else insert h (trim_space (r.header h)) headers)

abbrev pub keys : GoMap Text Text → List Text
keys [] = []
keys ((k, v) ∷ m) = k ∷ keys m

abbrev pub less_entry : Text × Text → Text × Text → Bool
less_entry a b = text_lt a.0 b.0

-- name + ":" + headers[name] + "\n"
unfoldable pub header_lines : GoMap Text Text → Text
header_lines [] = []
header_lines ((name, value) ∷ m) = name ++ (b':' ∷ (value ++ (10 ∷ header_lines m)))

-- The names are sorted with their values beside them.
unfoldable pub build_canonical_request :
    (encode_query : List (Text × Text) → Text) (r : Request) (signed_headers : List Text)
    (payload : Text)
    → Text
build_canonical_request encode_query r signed_headers payload =
    let headers = sort less_entry (set_headers r signed_headers ((codes "host", r.host) ∷ [])) in
    join (10 ∷ []) (
      r.method
      ∷ r.escaped_path
      ∷ encode_query r.query
      ∷ header_lines headers
      ∷ join (b';' ∷ []) (keys headers)
      ∷ payload
      ∷ [])

unfoldable pub compute_signature :
    Platform → (secret_key : Text) (a : SigV4Auth) (r : Request) (payload : Text) → Text
compute_signature platform secret_key a r payload =
    let canonical = build_canonical_request platform.encode_query r a.signed_headers payload in
    let scope = a.date ++ (b'/' ∷ (a.region ++ (b'/' ∷ (a.service ++ codes "/aws4_request")))) in
    let string_to_sign =
      codes "AWS4-HMAC-SHA256"
      ++ (10 ∷ (a.datetime ++ (10 ∷ (scope ++ (10 ∷ platform.hash canonical))))) in
    let k_date = platform.hmac (codes "AWS4" ++ secret_key) a.date in
    let k_region = platform.hmac k_date a.region in
    let k_service = platform.hmac k_region a.service in
    let k_signing = platform.hmac k_service (codes "aws4_request") in
    platform.hex (platform.hmac k_signing string_to_sign)

unfoldable pub verify_sigv4 :
    Platform → (access_key secret_key : Text) (r : Request) (env : Env) → Bool
verify_sigv4 platform access_key secret_key r env = elim (parse_sigv4 r) [
  | none ↦ false
  | some auth ↦
      if not (text_eq auth.access_key access_key)
      then false
      else elim (payload_hash platform.hash r env) [
        | none ↦ false
        | some payload ↦
            text_eq (compute_signature platform secret_key auth r payload) auth.signature
      ]
]
