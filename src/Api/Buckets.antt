-- ===== src/Api/Buckets.antt =====
-- internal/api/api.go: the requests on buckets.
use jario.Base.{ℕ, false, not, ◌&&◌, List, [], none, some, length, map, if◌then◌else◌}
use jario.Text.{Text, codes, text_eq}
use jario.Text.Atoi.{atoi, in_range}
use jario.Outcome.{Outcome, ok}
use jario.Action.{Action}
use jario.BucketDb.{Bucket}
use jario.MetaStore.Versions.{ObjectMeta}
use jario.MetaStore.Listing.{ObjectVersion}
use jario.Store.State.{Store, Env}
use jario.Store.Objects.{
  create_bucket, delete_bucket, get_bucket, list_buckets, list_objects_paged, list_object_versions,
}
use jario.Store.Multipart.Lists.{MultipartUpload, list_multipart_uploads}
use jario.Api.Http.{
  Request, Response, Platform, BucketEntry, ObjectEntry, VersionRow, MarkerRow, UploadEntry,
  list_buckets_result, list_bucket_result, list_versions_result, list_multipart_uploads_result,
  status_only, query_get, query_has, quoted, s3xmlns, get, put, delete, head,
}
use jario.Api.Errors.{write_xml, respond}

-- if ct := …Get("continuation-token"); ct != "" { startAfter = ct }
unfoldable pub start_after : List (Text × Text) → Text
start_after query =
    let token = query_get (codes "continuation-token") query in
    if text_eq token [] then query_get (codes "start-after") query else token

unfoldable pub max_keys : List (Text × Text) → ℕ
max_keys query = elim (atoi (query_get (codes "max-keys") query)) [
  | none ↦ 1000
  | some n ↦ elim (in_range 1 1000 n) [ none ↦ 1000 | some m ↦ m ]
]

abbrev pub version_entry : ObjectVersion → VersionRow
version_entry v = record {
  key = v.key;
  version_id = v.version_id;
  is_latest = v.is_latest;
  last_modified = v.last_modified;
  etag = v.etag;
  size = v.size;
  storage_class = v.storage_class;
}

abbrev pub marker_entry : ObjectVersion → MarkerRow
marker_entry v = record {
  key = v.key;
  version_id = v.version_id;
  is_latest = v.is_latest;
  last_modified = v.last_modified;
}

-- A call that changes the store, answered with a response.
abbrev pub answer :
    {Db A : Type 0} → Outcome A × Store Db → (A → Response) → Outcome Response × Store Db
answer (r, st) f = (respond r f, st)

module _ (platform : Platform) where
  abbrev pub bucket_entry : Bucket → BucketEntry
  bucket_entry b = record { name = b.name; creation_date = platform.rfc3339 b.created_at }

  abbrev pub object_entry : ObjectMeta → ObjectEntry
  object_entry o = record {
    key = o.key;
    last_modified = platform.rfc3339 o.created_at;
    etag = quoted o.etag;
    size = o.size;
    storage_class = codes "STANDARD";
  }

  abbrev pub upload_entry : MultipartUpload → UploadEntry
  upload_entry u = record {
    key = u.key;
    upload_id = u.upload_id;
    initiated = platform.rfc3339 u.initiated;
  }

  module _ (st : Store platform.bolt.Db) where
    unfoldable pub list_buckets_handler : Response
    list_buckets_handler = write_xml (
        list_buckets_result (record {
          xmlns = s3xmlns;
          buckets = map bucket_entry (list_buckets platform.bolt platform.bucket_json st);
        }))

    unfoldable pub head_bucket : Text → Outcome Response
    head_bucket bucket =
        respond (get_bucket platform.bolt platform.bucket_json st bucket) (λ _. status_only 200)

    unfoldable pub list_objects_v2 : Request → Text → Outcome Response
    list_objects_v2 r bucket =
        respond (get_bucket platform.bolt platform.bucket_json st bucket) (λ _.
          let prefix = query_get (codes "prefix") r.query in
          let limit = max_keys r.query in
          let (objects, next_token) =
            list_objects_paged st bucket prefix (start_after r.query) limit in
          write_xml (
            list_bucket_result (record {
              xmlns = s3xmlns;
              name = bucket;
              prefix = prefix;
              key_count = length objects;
              max_keys = limit;
              is_truncated = not (text_eq next_token []);
              next_continuation_token = next_token;
              contents = map object_entry objects;
            })))

    unfoldable pub list_versions : Request → Text → Outcome Response
    list_versions r bucket = respond (get_bucket platform.bolt platform.bucket_json st bucket) (λ _.
        let prefix = query_get (codes "prefix") r.query in
        let (versions, markers) = list_object_versions platform.rfc3339 st bucket prefix in
        write_xml (
          list_versions_result (record {
            xmlns = s3xmlns;
            name = bucket;
            prefix = prefix;
            key_marker = query_get (codes "key-marker") r.query;
            version_id_marker = query_get (codes "version-id-marker") r.query;
            max_keys = 0;
            is_truncated = false;
            versions = map version_entry versions;
            delete_markers = map marker_entry markers;
          })))

    unfoldable pub list_uploads : Text → Outcome Response
    list_uploads bucket =
        respond (list_multipart_uploads platform.bolt platform.bucket_json st bucket) (λ uploads.
          write_xml (
            list_multipart_uploads_result
              (record { xmlns = s3xmlns; bucket = bucket; uploads = map upload_entry uploads })))

  unfoldable pub handle_bucket : Request → Text → Env → Action (Store platform.bolt.Db) Response
  handle_bucket r bucket env st =
      if text_eq r.method get && query_has (codes "uploads") r.query
      then (list_uploads st bucket, st)
      else if text_eq r.method get && query_has (codes "versions") r.query
      then (list_versions st r bucket, st)
      else if text_eq r.method put
      then answer (create_bucket platform.bolt platform.bucket_json bucket env st)
          (λ _. status_only 200)
      else if text_eq r.method delete
      then answer (delete_bucket platform.bolt platform.bucket_json bucket st)
          (λ _. status_only 204)
      else if text_eq r.method get
      then (list_objects_v2 st r bucket, st)
      else if text_eq r.method head
      then (head_bucket st bucket, st)
      else (ok (status_only 405), st)
