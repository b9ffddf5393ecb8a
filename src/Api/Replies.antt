-- ===== src/Api/Replies.antt =====
-- internal/api/api.go and xml.go: how answers relate to each other and to the calls behind them.
use jario.Base.{◌≡◌, false, [], ◌∷◌, none, some, arith}
use jario.Text.{Text, codes, text_eq, text_eq_inst}
use jario.Outcome.{ok, no_key, not_leader, message}
use jario.MetaStore.Versions.{ObjectMeta}
use jario.MetaStore.Ops
use jario.MetaStore.Ops.{find_key}
use jario.MetaStore.Lookups.{Opened}
use jario.Raft.Fsm.{Raft, raft_apply}
use jario.Store.State.{Store, Env, write_blob, blob_path}
use jario.Store.Objects
use jario.Store.Objects.{get_meta, get_meta_version, version_pointer}
use jario.Store.Blobs.{content_of, meta_of, path_of}
use jario.Api.Http.{Request, Platform, query_get, no_body, bytes, s3_error_body}
use jario.Api.Errors.{s3_error, store_error, error_status}
use jario.Api.Objects.{put_object, get_object, head_object, delete_object, object_response}

module _ (platform : Platform) (st : Store platform.bolt.Db) (r : Request) (b k : Text) where
  -- What a get that answers has read.
  read_meta :
      (content : Text) (meta : ObjectMeta) (vid : Text)
      → Objects.get_object st b k vid ≡ ok (content, meta)
      → Ops.get_object st.meta b k vid ≡ ok meta
  unfolding Objects.get_object
  read_meta content meta vid h = ground arith

  -- Where a GET reads an object, with or without a version ID, a HEAD has the same status and
  -- headers, and no body.
  pub head_object-get_object :
      (content : Text) (meta : ObjectMeta)
      → Objects.get_object st b k (query_get (codes "versionId") r.query) ≡ ok (content, meta)
      → (get_object platform st r b k ≡ ok (object_response meta (bytes content)))
        × (head_object platform st r b k ≡ ok (object_response meta no_body))
  unfolding get_object head_object get_meta get_meta_version Ops.get_object Ops.get_object_version
      text_eq
  head_object-get_object content meta h =
      let found = read_meta content meta (query_get (codes "versionId") r.query) h in
      (ground (arith, h), ground (arith, found))

  -- A DELETE of a key that is not there, in an open bucket, is answered with the error NoSuchKey,
  -- and changes nothing.
  pub delete_object-missing :
      (env : Env)
      → Opened st.meta b
      → find_key st.meta b k ≡ none
      → delete_object platform r b k env st
        ≡ (ok (s3_error (codes "NoSuchKey") (message no_key)), st)
  unfolding delete_object Objects.delete_object Ops.delete_object version_pointer store_error
      find_key
  delete_object-missing env (cached, objs, found) missing = ground (arith, cached, found, missing)

  -- A PUT on a node that does not lead, when no call to the disk fails, is answered with status
  -- 400, the code InternalError and the text of the error.
  pub put_object-follower :
      (env : Env) (raft : Raft) (text : Text)
      → st.raft ≡ some raft
      → raft.is_leader ≡ false
      → env.read_error ≡ none
      → env.write_error ≡ none
      → blob_path st.data_dir (platform.hash (content_of r.body))
        ≡ ok (path_of st.data_dir (platform.hash (content_of r.body)))
      → platform.json.marshal (meta_of platform.hash k r.body env) ≡ ok text
      → (put_object platform r b k env st).0
        ≡ ok (record {
          status = 400;
          headers = (codes "Content-Type", codes "application/xml") ∷ [];
          body =
              s3_error_body (record { code = codes "InternalError"; message = message not_leader });
        })
  unfolding put_object Objects.put_object write_blob raft_apply store_error s3_error error_status
      text_eq
  put_object-follower env raft text wired follows read write path written =
      ground (arith, wired, follows, read, write, path, written)
