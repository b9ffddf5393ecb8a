-- ===== src/Api/Http.antt =====
-- What internal/api takes of net/http, net/url and its codecs: a request as the server has parsed
-- it, a response as the handler has written it.
use jario.Base.{ℕ, Bool, true, false, List, [], ◌∷◌, ◌++◌, if◌then◌else◌}
use jario.Text.{Text, codes, text_eq}
use jario.Outcome.{Outcome, Codec}
use jario.BucketDb.{Bolt, BucketMeta}
use jario.MetaStore.Versions.{ObjectMeta}
use jario.Raft.Fsm.{RaftOp}
use jario.Store.Multipart.Complete.{CompletedPart}

-- `query` is r.URL.Query(), its parameters in order; `header` is r.Header.Get.
pub record Request : Type 0 where
  pub method : Text
  pub path : Text
  pub escaped_path : Text
  pub scheme : Text
  pub host : Text
  pub query : List (Text × Text)
  pub header : Text → Text
  pub body : Text

-- q.Get and q.Has
unfoldable pub query_get : Text → List (Text × Text) → Text
query_get name [] = []
query_get name ((k, v) ∷ query) = if text_eq k name then v else query_get name query

unfoldable pub query_has : Text → List (Text × Text) → Bool
query_has name [] = false
query_has name ((k, v) ∷ query) = if text_eq k name then true else query_has name query

pub record JoinPayload : Type 0 where
  pub id : Text
  pub addr : Text

-- What the handlers call: BoltDB, encoding/json and encoding/xml at the types used, SHA-256 in hex
-- (`hash`), HMAC-SHA256 (`hmac`), encoding/hex, url.Values.Encode and the time format.
pub record Platform : Type 1 where
  pub bolt : Bolt
  pub bucket_json : Codec BucketMeta
  pub json : Codec ObjectMeta
  pub op_json : Codec RaftOp
  pub hash : Text → Text
  pub hmac : Text → Text → Text
  pub hex : Text → Text
  pub encode_query : List (Text × Text) → Text
  pub rfc3339 : ℕ → Text
  pub decode_parts : Text → Outcome (List CompletedPart)
  pub decode_join : Text → Outcome JoinPayload

abbrev pub get : Text
get = codes "GET"

abbrev pub put : Text
put = codes "PUT"

abbrev pub post : Text
post = codes "POST"

abbrev pub head : Text
head = codes "HEAD"

abbrev pub delete : Text
delete = codes "DELETE"

-- `"` + s + `"`
abbrev pub quoted : Text → Text
quoted s = b'"' ∷ (s ++ b'"' ∷ [])

-- http://s3.amazonaws.com/doc/2006-03-01/
abbrev pub s3xmlns : Text
s3xmlns = codes "http://s3.amazonaws.com/doc/2006-03-01/"

pub record S3ErrorBody : Type 0 where
  pub code : Text
  pub message : Text

pub record BucketEntry : Type 0 where
  pub name : Text
  pub creation_date : Text

pub record ListBucketsResult : Type 0 where
  pub xmlns : Text
  pub buckets : List BucketEntry

pub record ObjectEntry : Type 0 where
  pub key : Text
  pub last_modified : Text
  pub etag : Text
  pub size : ℕ
  pub storage_class : Text

pub record ListBucketResult : Type 0 where
  pub xmlns : Text
  pub name : Text
  pub prefix : Text
  pub key_count : ℕ
  pub max_keys : ℕ
  pub is_truncated : Bool
  pub next_continuation_token : Text
  pub contents : List ObjectEntry

pub record InitiateMultipartUploadResult : Type 0 where
  pub xmlns : Text
  pub bucket : Text
  pub key : Text
  pub upload_id : Text

pub record CompleteMultipartUploadResult : Type 0 where
  pub xmlns : Text
  pub location : Text
  pub bucket : Text
  pub key : Text
  pub etag : Text

pub record PartEntry : Type 0 where
  pub part_number : ℕ
  pub last_modified : Text
  pub etag : Text
  pub size : ℕ

pub record ListPartsResult : Type 0 where
  pub xmlns : Text
  pub bucket : Text
  pub key : Text
  pub upload_id : Text
  pub parts : List PartEntry

pub record UploadEntry : Type 0 where
  pub key : Text
  pub upload_id : Text
  pub initiated : Text

pub record ListMultipartUploadsResult : Type 0 where
  pub xmlns : Text
  pub bucket : Text
  pub uploads : List UploadEntry

pub record VersionRow : Type 0 where
  pub key : Text
  pub version_id : Text
  pub is_latest : Bool
  pub last_modified : Text
  pub etag : Text
  pub size : ℕ
  pub storage_class : Text

pub record MarkerRow : Type 0 where
  pub key : Text
  pub version_id : Text
  pub is_latest : Bool
  pub last_modified : Text

pub record ListVersionsResult : Type 0 where
  pub xmlns : Text
  pub name : Text
  pub prefix : Text
  pub key_marker : Text
  pub version_id_marker : Text
  pub max_keys : ℕ
  pub is_truncated : Bool
  pub versions : List VersionRow
  pub delete_markers : List MarkerRow

-- A body is nothing, bytes, or a value that encoding/xml writes.
pub data Body : Type 0 where
  no_body : Body
  bytes : Text → Body
  s3_error_body : S3ErrorBody → Body
  list_buckets_result : ListBucketsResult → Body
  list_bucket_result : ListBucketResult → Body
  list_versions_result : ListVersionsResult → Body
  initiate_multipart_upload_result : InitiateMultipartUploadResult → Body
  complete_multipart_upload_result : CompleteMultipartUploadResult → Body
  list_parts_result : ListPartsResult → Body
  list_multipart_uploads_result : ListMultipartUploadsResult → Body

pub record Response : Type 0 where
  pub status : ℕ
  pub headers : List (Text × Text)
  pub body : Body

-- w.WriteHeader(status), with no header and no body
abbrev pub status_only : ℕ → Response
status_only status = record { status = status; headers = []; body = no_body }
