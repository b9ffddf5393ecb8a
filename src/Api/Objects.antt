-- ===== src/Api/Objects.antt =====
-- internal/api/api.go: the requests on objects.
use jario.Base.{List, [], ◌∷◌, if◌then◌else◌}
use jario.Text.{Text, codes, text_eq}
use jario.Text.Decimal.{format_int}
use jario.Outcome.{Outcome, ok, err, panic}
use jario.Action.{Action}
use jario.MetaStore.Versions.{ObjectMeta}
use jario.Store.State.{Store, Env}
use jario.Store.Objects.{get_meta, get_meta_version}
use jario.Store.Objects
use jario.Api.Http.{
  Request, Response, Platform, Body, no_body, bytes, status_only, query_get, quoted,
}
use jario.Api.Errors.{respond}
use jario.Api.Buckets.{answer}

-- if id != "" { w.Header().Set("X-Amz-Version-Id", id) }
abbrev pub version_header : Text → List (Text × Text)
version_header id = if text_eq id [] then [] else (codes "X-Amz-Version-Id", id) ∷ []

abbrev pub marker_response : ObjectMeta → Response
marker_response meta = record {
  status = 404;
  headers = (codes "X-Amz-Delete-Marker", codes "true") ∷ version_header meta.version_id;
  body = no_body;
}

abbrev pub object_headers : ObjectMeta → List (Text × Text)
object_headers meta =
    (codes "ETag", quoted meta.etag)
    ∷ (codes "Content-Length", format_int meta.size)
    ∷ version_header meta.version_id

abbrev pub object_response : ObjectMeta → Body → Response
object_response meta body =
    if meta.is_delete_marker
    then marker_response meta
    else record { status = 200; headers = object_headers meta; body = body }

module _ (platform : Platform) where
  unfoldable pub put_object :
      Request → (bucket key : Text) (env : Env) → Action (Store platform.bolt.Db) Response
  put_object r bucket key env st =
      answer
        (Objects.put_object platform.json platform.op_json platform.hash bucket key r.body env st)
        (λ stored. record {
          status = 200;
          headers = (codes "ETag", quoted stored.0) ∷ version_header stored.1;
          body = no_body;
        })

  unfoldable pub get_object :
      Store platform.bolt.Db → Request → (bucket key : Text) → Outcome Response
  get_object st r bucket key =
      respond (Objects.get_object st bucket key (query_get (codes "versionId") r.query))
        (λ found. object_response found.1 (bytes found.0))

  -- Every error is 404.
  unfoldable pub head_object :
      Store platform.bolt.Db → Request → (bucket key : Text) → Outcome Response
  head_object st r bucket key =
      let version_id = query_get (codes "versionId") r.query in
      elim (if text_eq version_id []
        then get_meta st bucket key
        else get_meta_version st bucket key version_id) [
          | err e ↦ ok (status_only 404)
          | panic ↦ panic
          | ok meta ↦ ok (object_response meta no_body)
        ]

  unfoldable pub delete_object :
      Request → (bucket key : Text) (env : Env) → Action (Store platform.bolt.Db) Response
  delete_object r bucket key env st =
      answer
        (Objects.delete_object platform.json platform.op_json bucket key
          (query_get (codes "versionId") r.query) env st)
        (λ _. status_only 204)
