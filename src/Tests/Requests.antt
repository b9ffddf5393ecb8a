-- ===== src/Tests/Requests.antt =====
-- The theorems on the HTTP interface at concrete inputs.
use jario.Base.{
  ◌≡◌, ◌↔◌, ◌⊎◌, inr, refl, true, List, [], ◌∷◌, none, some, arith, nat_eq, if◌then◌else◌,
}
use jario.Text.{Text, codes, text_eq, has_prefix, text_eq_inst}
use jario.Text.Decimal.{format_int}
use jario.Outcome.{ok, err, no_key}
use jario.GoMap.{GoMap, lookup}
use jario.MetaStore.Versions.{current_version}
use jario.MetaStore.Lookups.{versions_at}
use jario.MetaStore.Ops
use jario.MetaStore.Ops.{find_key}
use jario.Raft.Fsm.{put_op}
use jario.Store.State.{Store, blob_path}
use jario.Store.Objects
use jario.Api.Http.{
  Request, Platform, get, put, head, no_body, bytes, s3_error_body, quoted, query_get,
}
use jario.Api.SigV4.{SigV4Auth, payload_hash, compute_signature, verify_sigv4}
use jario.Api.SigV4.Signed
use jario.Api.SigV4.Header.{authorization, IsSigned}
use jario.Api.Objects.{get_object, head_object, object_response}
use jario.Api.Route.{Handler, new_handler, set_joiner, route, serve_http}
use jario.Api.Access
use jario.Api.Access.{IsAdmitted}
use jario.Api.Numbers
use jario.Store.Multipart.Numbers.{AreNumbered}
use jario.Api.Stored
use jario.Api.Stored.{IsObjectRequest, stored, stored_meta}
use jario.Api.Replies
use jario.Tests.Data.{constant, bolt, photos, cat, bucket_meta, second}
use jario.Tests.Metadata.{filled-Opened, at_two}
use jario.Tests.Engine.{engine, env, hash}
use jario.Store.Blobs.{meta_of}

abbrev platform_for : Text → Platform
platform_for body = record {
  bolt = bolt;
  bucket_json = constant bucket_meta;
  json = constant (meta_of hash cat body env);
  op_json = constant (put_op photos cat []);
  hash = hash;
  hmac = λ _ _. codes "mac";
  hex = λ s. s;
  encode_query = λ _. [];
  rfc3339 = λ _. codes "then";
  decode_parts = λ _. ok [];
  decode_join = λ _. err no_key;
}

abbrev pub platform : Platform
platform = platform_for (codes "hi")

abbrev auth : SigV4Auth
auth = record {
  access_key = codes "AK";
  date = codes "20260101";
  datetime = codes "20260101T000000Z";
  region = codes "us-east-1";
  service = codes "s3";
  signed_headers = codes "host" ∷ codes "x-amz-date" ∷ [];
  signature = codes "mac";
}

abbrev signed_header : Text → Text
signed_header name =
    if text_eq name (codes "Authorization")
    then authorization auth
    else if text_eq name (codes "X-Amz-Date")
    then auth.datetime
    else if text_eq name (codes "X-Amz-Content-Sha256")
    then codes "ff"
    else []

abbrev pub request : Text → Text → Request
request method body = record {
  method = method;
  path = codes "/photos/cat";
  escaped_path = codes "/photos/cat";
  scheme = [];
  host = codes "localhost";
  query = [];
  header = signed_header;
  body = body;
}

auth-IsSigned : IsSigned auth
auth-IsSigned = record {
  access_key-IsPlain = refl;
  date-IsPlain = refl;
  region-IsPlain = refl;
  service-IsPlain = refl;
  signature-IsPlain = refl;
  signed_headers-IsPlain = (refl, (refl, tt));
  access_key-ne-nil = λ h. absurd (cc);
  signature-ne-nil = λ h. absurd (cc);
  datetime-ne-nil = λ h. absurd (cc);
  signed_headers-ne-nil = λ h. absurd (cc);
}

verify_sigv4-IsSigned_example :
    (verify_sigv4 platform (codes "AK") (codes "SK") (request get []) env ≡ true)
    ↔ (compute_signature platform (codes "SK") auth (request get []) (codes "ff") ≡ codes "mac")
unfolding text_eq payload_hash
verify_sigv4-IsSigned_example =
    Signed.verify_sigv4-IsSigned platform (codes "AK") (codes "SK") (request get []) env auth
      (codes "ff") auth-IsSigned refl refl refl refl

verify_sigv4_any_body_example :
    verify_sigv4 platform (codes "AK") (codes "SK") (request put (codes "forged")) env
    ≡ verify_sigv4 platform (codes "AK") (codes "SK") (request put (codes "hi")) env
unfolding text_eq
verify_sigv4_any_body_example =
    Signed.verify_sigv4_any_body platform (codes "AK") (codes "SK") (request put (codes "hi")) env
      (codes "forged") (λ h. absurd (cc))

abbrev handler : Handler
handler = set_joiner (some (λ _ _. ok tt)) (new_handler (codes "AK") (codes "SK"))

serve_http-read_example : (serve_http platform handler (request head []) env engine).1 ≡ engine
serve_http-read_example =
    Access.serve_http-read platform handler (request head []) env engine (inr refl)

abbrev unsigned : Request
unsigned = record (request put (codes "hi")) { header = λ _. [] }

serve_http_guarded_example :
    ((has_prefix (codes "/photos/cat") (codes "/internal/") ≡ true)
      × ((serve_http platform handler unsigned env engine).1 ≡ engine))
    ⊎ ((IsAdmitted platform handler unsigned env
          × (serve_http platform handler unsigned env engine ≡ route platform unsigned env engine))
        ⊎ (serve_http platform handler unsigned env engine ≡ (
          ok (record {
            status = 403;
            headers = (codes "Content-Type", codes "application/xml") ∷ [];
            body =
                s3_error_body
                  (record { code = codes "AccessDenied"; message = codes "access denied" });
          }),
          engine,
        )))
serve_http_guarded_example = Access.serve_http_guarded platform handler unsigned env engine

abbrev limited : List (Text × Text)
limited = (codes "max-keys", codes "2000") ∷ []

abbrev part_request : Request
part_request = record (request put (codes "hi")) {
  query = (codes "uploadId", codes "5-ab") ∷ (codes "partNumber", codes "10000") ∷ [];
}

abbrev uploading : Store (GoMap Text Text)
uploading = record engine {
  uploads =
      (
        codes "5-ab",
        record { id = codes "5-ab"; bucket = photos; key = cat; initiated = 5; parts = [] },
      )
      ∷ [];
}

uploading-AreNumbered : AreNumbered uploading
unfolding lookup
uploading-AreNumbered id u found n p there =
    let empty : u.parts ≡ [] = ground (arith, found) in absurd (ground (arith, there, empty))

serve_http-AreNumbered_example :
    AreNumbered (serve_http platform handler part_request env uploading).1
serve_http-AreNumbered_example =
    Numbers.serve_http-AreNumbered platform handler part_request env uploading uploading-AreNumbered

abbrev is_request :
    (method : Text) (body : Text) → IsObjectRequest (request method body) method photos cat
is_request method body = record { method-eq = refl; path-eq = refl; query-eq = refl }

route-put_get_example :
    ((route platform (request put (codes "hi")) env engine).0
      ≡ ok (record {
        status = 200;
        headers =
            (codes "ETag", quoted (hash []))
            ∷ (codes "X-Amz-Version-Id", format_int (versions_at engine.meta photos cat).next_id)
            ∷ [];
        body = no_body;
      }))
    × ((route platform
          (request get [])
          env
          (route platform (request put (codes "hi")) env engine).1).0
        ≡ ok (record {
          status = 200;
          headers =
              (codes "ETag", quoted (hash []))
              ∷ (codes "Content-Length", format_int 2)
              ∷ (codes "X-Amz-Version-Id", format_int (versions_at engine.meta photos cat).next_id)
              ∷ [];
          body = bytes (codes "hi");
        }))
route-put_get_example =
    Stored.route-put_get platform engine photos cat [] env (request put (codes "hi"))
      (request get []) env (is_request put (codes "hi")) (is_request get []) refl filled-Opened
      at_two refl refl refl refl refl (λ s _. refl)

-- The second version is the current one, and its blob is there.
read_current : Objects.get_object engine photos cat [] ≡ ok (codes "two", second.meta)
unfolding Objects.get_object Ops.get_object find_key lookup current_version blob_path text_eq
read_current = refl

head_object-get_object_example :
    (get_object platform engine (request get []) photos cat
      ≡ ok (object_response second.meta (bytes (codes "two"))))
    × (head_object platform engine (request get []) photos cat
        ≡ ok (object_response second.meta no_body))
unfolding query_get
head_object-get_object_example =
    Replies.head_object-get_object platform engine (request get []) photos cat (codes "two")
      second.meta read_current

no_dog : find_key engine.meta photos (codes "dog") ≡ none
unfolding find_key lookup text_eq
no_dog = refl
