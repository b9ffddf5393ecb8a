-- ===== src/Api/Stored.antt =====
-- internal/api/api.go: what is put over HTTP comes back over HTTP.
use jario.Base.{◌≡◌, refl, ◌∙◌, ap, ◌≢◌, [], ◌∷◌, ◌++◌, none, arith, length}
use jario.Text.{Text, codes, text_eq, text_eq_iff}
use jario.Text.Decimal.{format_int, format_int-ne-nil}
use jario.Text.Split.{Lacks, cut-++, trim_prefix-++}
use jario.Outcome.{ok, RoundTrips}
use jario.MetaStore.Versions.{ObjectMeta, with_version_id}
use jario.MetaStore.Lookups.{Opened, versions_at}
use jario.MetaStore.Invariant.{IsOpen}
use jario.Store.State.{Store, Env}
use jario.Store.Objects
use jario.Store.Objects.{get_meta, get_meta_version}
use jario.Store.Blobs.{content_of, meta_of, get_object-put_object_body}
use jario.Api.Http.{Request, Platform, query_get, query_has, get, put, no_body, bytes, quoted}
use jario.Api.Objects.{put_object, get_object, object_headers}
use jario.Api.Route.{handle_object, route}

-- A request for an object, without parameters.
pub record IsObjectRequest (r : Request) (method b k : Text) : Type 0 where
  pub method-eq : r.method ≡ method
  pub path-eq : r.path ≡ codes "/" ++ (b ++ b'/' ∷ k)
  pub query-eq : r.query ≡ []

append-ne-nil : (b k : Text) → (b ++ b'/' ∷ k) ≢ []
append-ne-nil [] k h = absurd (cc)
append-ne-nil (c ∷ b) k h = absurd (cc)

module _ (platform : Platform) where
  route-object :
      (r : Request) (method b k : Text) (env : Env) (st : Store platform.bolt.Db)
      → IsObjectRequest r method b k
      → Lacks b'/' b
      → route platform r env st ≡ handle_object platform r b k env st
  unfolding route
  route-object r method b k env st o clean = ground (
    arith,
    o.path-eq,
    trim_prefix-++ (codes "/") (b ++ b'/' ∷ k),
    cut-++ b'/' b k clean,
    text_eq_iff (b ++ b'/' ∷ k) [],
    append-ne-nil b k,
  )

  handle_object-put :
      (r : Request) (b k : Text) (env : Env) (st : Store platform.bolt.Db)
      → IsObjectRequest r put b k
      → handle_object platform r b k env st ≡ put_object platform r b k env st
  unfolding handle_object query_has text_eq
  handle_object-put r b k env st o = rw (o.method-eq, o.query-eq) refl

  handle_object-get :
      (r : Request) (b k : Text) (env : Env) (st : Store platform.bolt.Db)
      → IsObjectRequest r get b k
      → handle_object platform r b k env st ≡ (get_object platform st r b k, st)
  unfolding handle_object query_has text_eq
  handle_object-get r b k env st o = rw (o.method-eq, o.query-eq) refl

  module _ (st : Store platform.bolt.Db) (b k text : Text) (env : Env) (sent : Request) where
    abbrev pub stored : Text
    stored = content_of sent.body

    abbrev pub stored_meta : ObjectMeta
    stored_meta =
        with_version_id (meta_of platform.hash k sent.body env) (versions_at st.meta b k).next_id

    object_headers-stored :
        object_headers stored_meta
        ≡ (codes "ETag", quoted (platform.hash stored))
          ∷ (codes "Content-Length", format_int (length stored))
          ∷ (codes "X-Amz-Version-Id", format_int (versions_at st.meta b k).next_id)
          ∷ []
    object_headers-stored =
        let next = (versions_at st.meta b k).next_id in
        ground (arith, text_eq_iff (format_int next) [], format_int-ne-nil next)

    -- Over HTTP, without Raft: a PUT of an object into an open bucket, by a request without
    -- parameters, is answered with 200, the quoted hash of the body and the next version ID of the
    -- key; a GET of the object then is answered with 200, the quoted hash, the length of the
    -- content, the version ID and the body, cut at the size limit. No call to the disk fails, the
    -- bucket name has no slash, the hash is a text of 64 digits, the metadata is written to JSON
    -- and read back, the versions of the key are numbered, and an ID is left.
    pub route-put_get :
        (asked : Request) (later : Env)
        → IsObjectRequest sent put b k
        → IsObjectRequest asked get b k
        → Lacks b'/' b
        → Opened st.meta b
        → IsOpen k (versions_at st.meta b k)
        → st.raft ≡ none
        → env.read_error ≡ none
        → env.write_error ≡ none
        → length (platform.hash stored) ≡ 64
        → platform.json.marshal (meta_of platform.hash k sent.body env) ≡ ok text
        → RoundTrips platform.json (meta_of platform.hash k sent.body env)
        → ((route platform sent env st).0
            ≡ ok (record {
              status = 200;
              headers =
                  (codes "ETag", quoted (platform.hash stored))
                  ∷ (codes "X-Amz-Version-Id", format_int (versions_at st.meta b k).next_id)
                  ∷ [];
              body = no_body;
            }))
          × ((route platform asked later (route platform sent env st).1).0
              ≡ ok (record {
                status = 200;
                headers =
                    (codes "ETag", quoted (platform.hash stored))
                    ∷ (codes "Content-Length", format_int (length stored))
                    ∷ (codes "X-Amz-Version-Id", format_int (versions_at st.meta b k).next_id)
                    ∷ [];
                body = bytes stored;
              }))
    unfolding put_object get_object query_get
    route-put_get asked later puts gets clean o v alone read write digits written trips =
        let (done, back) =
          get_object-put_object_body platform.json platform.op_json platform.hash st b k sent.body
            text env o v alone read write digits written trips in
        let st' =
          (Objects.put_object platform.json platform.op_json platform.hash b k sent.body env
            st).1 in
        let next = (versions_at st.meta b k).next_id in
        let served : (route platform asked later (route platform sent env st).1).0
            ≡ ok (record {
              status = 200;
              headers = object_headers stored_meta;
              body = bytes stored;
            }) =
          ground (
            arith,
            route-object sent put b k env st puts clean,
            handle_object-put sent b k env st puts,
            route-object asked get b k later st' gets clean,
            handle_object-get asked b k later st' gets,
            gets.query-eq,
            back,
          ) in
        (
          ground (
            arith,
            route-object sent put b k env st puts clean,
            handle_object-put sent b k env st puts,
            done,
            text_eq_iff (format_int next) [],
            format_int-ne-nil next,
          ),
          served
              ∙ ap (λ headers. ok (record { status = 200; headers = headers; body = bytes stored }))
                  object_headers-stored,
        )
