-- ===== src/Store/Blobs.antt =====
-- internal/store/store.go: what a put leaves on the disk, and that a get returns it.
use jario.Base.{ℕ, ◌≤◌, ◌≡◌, refl, [], ◌++◌, none, arith, length, take}
use jario.Text.{Text, codes, text_eq_inst}
use jario.Text.Decimal.{format_int}
use jario.Outcome.{ok, Codec, RoundTrips}
use jario.GoMap.{insert, lookup-insert_self}
use jario.MetaStore.Versions.{ObjectMeta, with_version_id}
use jario.MetaStore.Ops
use jario.MetaStore.Ops.{MetaStore, find_key}
use jario.MetaStore.Lookups.{Opened, versions_at, put_object_lem}
use jario.MetaStore.Invariant.{IsOpen}
use jario.MetaStore.Behaviour.{get_object-put_object}
use jario.Raft.Fsm.{RaftOp, put_op, raft_apply, forget}
use jario.Raft.Replicas.{apply_op-put}
use jario.Store.State.{Store, Env, blob_path, write_blob, max_object_size}
use jario.Store.Objects.{object_meta, id_of, put_object, get_object}

abbrev pub path_of : Text → Text → Text
path_of data_dir sha = data_dir ++ (codes "/blobs/" ++ (take 2 sha ++ (codes "/" ++ sha)))

pub blob_path-eq :
    (data_dir sha : Text) → 2 ≤ length sha → blob_path data_dir sha ≡ ok (path_of data_dir sha)
unfolding blob_path
blob_path-eq data_dir sha h = ground arith

pub write_blob-eq :
    {Db : Type 0} (st : Store Db) (sha content : Text) (env : Env)
    → 2 ≤ length sha
    → env.write_error ≡ none
    → write_blob sha content env st
      ≡ (ok tt, record st { files = insert (path_of st.data_dir sha) content st.files })
unfolding write_blob
write_blob-eq st sha content env h fine = ground (arith, blob_path-eq st.data_dir sha h, fine)

-- What a put stores of a body: at most the size limit.
abbrev pub content_of : Text → Text
content_of body = take max_object_size body

abbrev pub meta_of : (Text → Text) → Text → Text → Env → ObjectMeta
meta_of hash k body env = object_meta k (length (content_of body)) (hash (content_of body)) env.now

abbrev pub after_write : {Db : Type 0} → (Text → Text) → Text → Store Db → Store Db
after_write hash body st = record st {
  files = insert (path_of st.data_dir (hash (content_of body))) (content_of body) st.files;
}

module _ {Db : Type 0} (json : Codec ObjectMeta) (op_json : Codec RaftOp) (hash : Text → Text) where
  pub raft_apply-put :
      (m : MetaStore Db) (b k text : Text) (meta : ObjectMeta) (now : ℕ)
      → json.unmarshal text ≡ ok meta
      → raft_apply json op_json none m (put_op b k text) now ≡ forget (Ops.put_object m b k meta)
  unfolding raft_apply
  raft_apply-put m b k text meta now read = apply_op-put json m b k text meta now read

  put_object-eq :
      (st : Store Db) (b k body text : Text) (env : Env)
      → Opened st.meta b
      → st.raft ≡ none
      → env.read_error ≡ none
      → env.write_error ≡ none
      → 2 ≤ length (hash (content_of body))
      → json.marshal (meta_of hash k body env) ≡ ok text
      → json.unmarshal text ≡ ok (meta_of hash k body env)
      → put_object json op_json hash b k body env st ≡ (
        ok (
          hash (content_of body),
          id_of (Ops.get_object (Ops.put_object st.meta b k (meta_of hash k body env)).1 b k []),
        ),
        record st {
          files = (after_write hash body st).files;
          meta = (Ops.put_object st.meta b k (meta_of hash k body env)).1;
        },
      )
  unfolding put_object
  put_object-eq st b k body text env o alone read write digits written back =
      let put = (put_object_lem st.meta b k (meta_of hash k body env) o).0 in
      ground (
        arith,
        read,
        alone,
        written,
        put,
        write_blob-eq st (hash (content_of body)) (content_of body) env digits write,
        raft_apply-put st.meta b k text (meta_of hash k body env) env.now back,
      )

  -- Without Raft, a put into an open bucket returns the hash of the body and the next version ID
  -- of the key, and a get of the key then returns the body, cut at the size limit, with its
  -- metadata. No call to the disk fails, the hash is a text of 64 digits, the metadata is written
  -- to JSON and read back, the versions of the key are numbered, and an ID is left.
  pub get_object-put_object_body :
      (st : Store Db) (b k body text : Text) (env : Env)
      → Opened st.meta b
      → IsOpen k (versions_at st.meta b k)
      → st.raft ≡ none
      → env.read_error ≡ none
      → env.write_error ≡ none
      → length (hash (content_of body)) ≡ 64
      → json.marshal (meta_of hash k body env) ≡ ok text
      → RoundTrips json (meta_of hash k body env)
      → ((put_object json op_json hash b k body env st).0
          ≡ ok (hash (content_of body), format_int (versions_at st.meta b k).next_id))
        × (get_object (put_object json op_json hash b k body env st).1 b k []
            ≡ ok (
              content_of body,
              with_version_id (meta_of hash k body env) (versions_at st.meta b k).next_id,
            ))
  unfolding get_object
  get_object-put_object_body st b k body text env o v alone read write digits written trips =
      let current = get_object-put_object st.meta b k (meta_of hash k body env) o v refl in
      rw
        (
          put_object-eq st b k body text env o alone read write (omega (arith, digits)) written
              (trips text written),
          current,
        )
        (
          refl,
          ground (
            arith,
            blob_path-eq st.data_dir (hash (content_of body)) (omega (arith, digits)),
            lookup-insert_self (path_of st.data_dir (hash (content_of body))) (content_of body)
                st.files,
          ),
        )
