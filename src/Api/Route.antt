-- ===== src/Api/Route.antt =====
-- internal/api/api.go: `ServeHTTP` and the dispatch by path and method.
use jario.Base.{Bool, [], Option, none, some, ◌&&◌, not, if◌then◌else◌}
use jario.Text.{Text, codes, text_eq, has_prefix}
use jario.Text.Split.{cut, trim_prefix}
use jario.Outcome.{ok}
use jario.Action.{Action}
use jario.Store.State.{Store, Env}
use jario.Api.Http.{
  Request, Response, Platform, status_only, query_has, get, put, post, head, delete,
}
use jario.Api.Errors.{s3_error}
use jario.Api.SigV4.{verify_sigv4}
use jario.Api.Buckets.{list_buckets_handler, handle_bucket}
use jario.Api.Objects.{put_object, get_object, head_object, delete_object}
use jario.Api.Uploads.{
  create_multipart_upload, upload_part, complete_multipart_upload, list_parts,
  abort_multipart_upload_handler,
}
use jario.Api.Join.{Joiner, route_internal}

pub record Handler : Type 0 where
  pub access_key : Text
  pub secret_key : Text
  pub joiner : Option Joiner

-- The handler holds the store as well, which is passed beside it here.
abbrev pub new_handler : (access_key secret_key : Text) → Handler
new_handler access_key secret_key = record {
  access_key = access_key;
  secret_key = secret_key;
  joiner = none;
}

abbrev pub set_joiner : Option Joiner → Handler → Handler
set_joiner joiner h = record h { joiner = joiner }

module _ (platform : Platform) where
  unfoldable pub handle_object :
      Request → (bucket key : Text) (env : Env) → Action (Store platform.bolt.Db) Response
  handle_object r bucket key env st =
      let is : Text → Bool = text_eq r.method in
      let has : Text → Bool = λ name. query_has name r.query in
      if is post && has (codes "uploads")
      then create_multipart_upload platform bucket key env st
      else if is put && (has (codes "uploadId") && has (codes "partNumber"))
      then upload_part platform r bucket key env st
      else if is post && has (codes "uploadId")
      then complete_multipart_upload platform r bucket key env st
      else if is get && has (codes "uploadId")
      then (list_parts platform st r bucket key, st)
      else if is delete && has (codes "uploadId")
      then abort_multipart_upload_handler platform r bucket key st
      else if is put
      then put_object platform r bucket key env st
      else if is get
      then (get_object platform st r bucket key, st)
      else if is head
      then (head_object platform st r bucket key, st)
      else if is delete
      then delete_object platform r bucket key env st
      else (ok (status_only 405), st)

  unfoldable pub route : Request → Env → Action (Store platform.bolt.Db) Response
  route r env st =
      let path = trim_prefix r.path (codes "/") in
      if text_eq path [] && text_eq r.method get
      then (ok (list_buckets_handler platform st), st)
      else elim (cut b'/' path) [
        | none ↦ handle_bucket platform r path env st
        | some (bucket, key) ↦ handle_object r bucket key env st
      ]

  unfoldable pub serve_http : Handler → Request → Env → Action (Store platform.bolt.Db) Response
  serve_http h r env st =
      if has_prefix r.path (codes "/internal/")
      then (route_internal platform h.joiner r, st)
      else if not (verify_sigv4 platform h.access_key h.secret_key r env)
      then (ok (s3_error (codes "AccessDenied") (codes "access denied")), st)
      else route r env st
