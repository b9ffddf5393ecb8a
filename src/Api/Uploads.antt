-- ===== src/Api/Uploads.antt =====
-- internal/api/api.go: the requests on uploads in parts.
use jario.Base.{ℕ, [], ◌∷◌, ◌++◌, Option, none, some, map}
use jario.Text.{Text, codes}
use jario.Text.Atoi.{atoi, in_range}
use jario.Outcome.{Outcome, ok, err, panic}
use jario.Action.{Action}
use jario.Store.State.{Store, Env, Part}
use jario.Store.Multipart.Uploads.{new_multipart_upload, abort_multipart_upload}
use jario.Store.Multipart.Uploads
use jario.Store.Multipart.Complete
use jario.Store.Multipart.Lists
use jario.Api.Http.{
  Request, Response, Platform, PartEntry, no_body, initiate_multipart_upload_result,
  complete_multipart_upload_result, list_parts_result, status_only, query_get, quoted, s3xmlns,
}
use jario.Api.Errors.{write_xml, s3_error, respond}
use jario.Api.Buckets.{answer}

abbrev pub upload_id : Request → Text
upload_id r = query_get (codes "uploadId") r.query

unfoldable pub part_number : Request → Option ℕ
part_number r = elim (atoi (query_get (codes "partNumber") r.query)) [
  | none ↦ none
  | some n ↦ in_range 1 10000 n
]

module _ (platform : Platform) where
  abbrev pub part_entry : Part → PartEntry
  part_entry p = record {
    part_number = p.part_number;
    last_modified = platform.rfc3339 p.created_at;
    etag = quoted p.etag;
    size = p.size;
  }

  unfoldable pub create_multipart_upload :
      (bucket key : Text) (env : Env) → Action (Store platform.bolt.Db) Response
  create_multipart_upload bucket key env st =
      answer (new_multipart_upload platform.bolt platform.bucket_json bucket key env st) (λ id.
        write_xml (
          initiate_multipart_upload_result
            (record { xmlns = s3xmlns; bucket = bucket; key = key; upload_id = id })))

  unfoldable pub upload_part :
      Request → (bucket key : Text) (env : Env) → Action (Store platform.bolt.Db) Response
  upload_part r bucket key env st = elim (part_number r) [
    | none ↦ (
      ok (s3_error (codes "InvalidArgument") (codes "partNumber must be between 1 and 10000")),
      st,
    )
    | some n ↦
        answer (Uploads.upload_part platform.hash bucket key (upload_id r) n r.body env st) (λ etag.
          record { status = 200; headers = (codes "ETag", quoted etag) ∷ []; body = no_body })
  ]

  unfoldable pub complete_multipart_upload :
      Request → (bucket key : Text) (env : Env) → Action (Store platform.bolt.Db) Response
  complete_multipart_upload r bucket key env st = elim (platform.decode_parts r.body) [
    | err _ ↦
        (ok (s3_error (codes "MalformedXML") (codes "invalid CompleteMultipartUpload body")), st)
    | panic ↦ (panic, st)
    | ok [] ↦
        (ok (s3_error (codes "MalformedXML") (codes "At least one part must be specified")), st)
    | ok (p ∷ parts) ↦
        answer
          (Complete.complete_multipart_upload platform.json platform.op_json platform.hash bucket
            key (upload_id r) (p ∷ parts) env st)
          (λ _. write_xml (
            complete_multipart_upload_result (record {
              xmlns = s3xmlns;
              location =
                  r.scheme
                  ++ (codes "://" ++ (r.host ++ (codes "/" ++ (bucket ++ (codes "/" ++ key)))));
              bucket = bucket;
              key = key;
              etag = [];
            })))
  ]

  unfoldable pub list_parts :
      Store platform.bolt.Db → Request → (bucket key : Text) → Outcome Response
  list_parts st r bucket key = respond (Lists.list_parts st bucket key (upload_id r)) (λ parts.
      write_xml (
        list_parts_result (record {
          xmlns = s3xmlns;
          bucket = bucket;
          key = key;
          upload_id = upload_id r;
          parts = map part_entry parts;
        })))

  unfoldable pub abort_multipart_upload_handler :
      Request → (bucket key : Text) → Action (Store platform.bolt.Db) Response
  abort_multipart_upload_handler r bucket key st =
      answer (abort_multipart_upload bucket key (upload_id r) st) (λ _. status_only 204)
