-- ===== src/Store/Multipart/Completion.antt =====
-- internal/store/multipart.go: what completing an upload stores.
use jario.Base.{
  ℕ, ◌+◌, ◌^◌, ◌≤◌, ◌<◌, ◌≡◌, refl, List, [], ◌∷◌, ◌++◌, none, some, false, arith, length,
  length-append, All, nat_eq,
}
use jario.Text.{Text, codes, has_prefix, text_eq_iff, text_eq_inst}
use jario.Text.Laws.{has_prefix-++, ++_assoc, ++_nil}
use jario.Outcome.{ok, err, invalid_upload_id, Codec, RoundTrips}
use jario.GoMap.{lookup, insert, lookup-insert_self, lookup-delete_self}
use jario.Sort.{sort}
use jario.Sort.Laws.{All-sort}
use jario.MetaStore.Versions.{ObjectMeta, with_version_id}
use jario.MetaStore.Ops
use jario.MetaStore.Lookups.{Opened, versions_at, put_object_lem}
use jario.MetaStore.Invariant.{IsOpen}
use jario.MetaStore.Behaviour.{get_object-put_object}
use jario.Raft.Fsm.{RaftOp}
use jario.Store.State.{Store, Env, Part, Upload}
use jario.Store.Objects.{object_meta, get_object}
use jario.Store.Blobs.{path_of, blob_path-eq, write_blob-eq, raft_apply-put}
use jario.Store.Multipart.Uploads.{multipart_dir, part_path, validate_upload, cleanup_upload}
use jario.Store.Multipart.Complete.{
  CompletedPart, trim_quotes, less_completed, check_parts, read_parts, complete_multipart_upload,
}
use jario.Store.Multipart.Steps.{lookup-remove_all}

-- No blob stands in the directory of an upload.
pub has_prefix-path_of :
    (data_dir id sha : Text)
    → has_prefix (path_of data_dir sha) (multipart_dir data_dir id ++ codes "/") ≡ false
unfolding multipart_dir has_prefix
has_prefix-path_of data_dir id sha =
    rw (++_assoc data_dir (codes "/multipart/" ++ id) (codes "/"), has_prefix-++ data_dir) refl

-- The contents of the listed parts, one behind the other.
abbrev pub joined : (ℕ → Text) → List CompletedPart → Text
joined contents [] = []
joined contents (cp ∷ parts) = contents cp.part_number ++ joined contents parts

-- The part is registered with this ETag and the size of its content, and its file is there.
abbrev pub IsUploaded :
    {Db : Type 0} → Store Db → Text → Upload → (ℕ → Text) → CompletedPart → Type 0
IsUploaded st id u contents cp =
    (p : Part) × (lookup cp.part_number u.parts ≡ some p)
    × (trim_quotes cp.etag ≡ p.etag)
    × (p.size ≡ length (contents cp.part_number))
    × (lookup (part_path st.data_dir id cp.part_number) st.files ≡ some (contents cp.part_number))

module _ {Db : Type 0} (st : Store Db) (id : Text) (u : Upload) (contents : ℕ → Text) where
  pub check_parts_lem :
      (parts : List CompletedPart) (total : ℕ)
      → All (IsUploaded st id u contents) parts
      → total + length (joined contents parts) < 2 ^ 64
      → check_parts u.parts parts total ≡ ok (total + length (joined contents parts))
  unfolding check_parts
  check_parts_lem [] total h bound = ground arith
  check_parts_lem (cp ∷ parts) total ((p, found, tag, size, file), h) bound =
      let split = length-append (contents cp.part_number) (joined contents parts) in
      ground (
        arith,
        found,
        text_eq_iff (trim_quotes cp.etag) p.etag,
        split,
        check_parts_lem parts (total + p.size) h (omega (arith, split, size, bound)),
      )

  pub read_parts_lem :
      (parts : List CompletedPart) (combined : Text)
      → All (IsUploaded st id u contents) parts
      → read_parts st.data_dir id st.files parts combined ≡ ok (combined ++ joined contents parts)
  unfolding read_parts
  read_parts_lem [] combined h = rw (++_nil combined) refl
  read_parts_lem (cp ∷ parts) combined ((p, found, tag, size, file), h) = ground (
    arith,
    file,
    read_parts_lem parts (combined ++ contents cp.part_number) h,
    ++_assoc combined (contents cp.part_number) (joined contents parts),
  )

module _ {Db : Type 0} (json : Codec ObjectMeta) (op_json : Codec RaftOp) (hash : Text → Text) where
  -- What a completion leaves: the combined blob and its metadata, and no upload.
  abbrev completed : Store Db → (b k id : Text) → Text → Env → Store Db
  completed st b k id body env = cleanup_upload id (record st {
    files = insert (path_of st.data_dir (hash body)) body st.files;
    meta = (Ops.put_object st.meta b k (object_meta k (length body) (hash body) env.now)).1;
  })

  module _ (st : Store Db) (b k id : Text) (parts : List CompletedPart) (env : Env) (u : Upload)
      (contents : ℕ → Text) (text : Text) where
    abbrev pub body : Text
    body = joined contents (sort less_completed parts)

    abbrev pub meta : ObjectMeta
    meta = object_meta k (length body) (hash body) env.now

    complete_multipart_upload-eq :
        Opened st.meta b
        → validate_upload st b k id ≡ ok tt
        → lookup id st.uploads ≡ some u
        → All (IsUploaded st id u contents) parts
        → length body < 2 ^ 64
        → st.raft ≡ none
        → env.write_error ≡ none
        → 2 ≤ length (hash body)
        → json.marshal meta ≡ ok text
        → json.unmarshal text ≡ ok meta
        → complete_multipart_upload json op_json hash b k id parts env st
          ≡ (ok tt, completed st b k id body env)
    unfolding complete_multipart_upload
    complete_multipart_upload-eq o valid found uploaded bound alone write digits written back =
        let sorted = All-sort less_completed (IsUploaded st id u contents) parts uploaded in
        let put = (put_object_lem st.meta b k meta o).0 in
        ground (
          arith,
          valid,
          found,
          check_parts_lem st id u contents (sort less_completed parts) 0 sorted
              (omega (arith, bound)),
          read_parts_lem st id u contents (sort less_completed parts) [] sorted,
          alone,
          written,
          put,
          write_blob-eq st (hash body) body env digits write,
          raft_apply-put json op_json hash st.meta b k text meta env.now back,
        )

    -- Completing an upload without Raft, with parts that are registered under the ETags given and
    -- whose files hold their contents, succeeds; a get of the key then returns the contents one
    -- behind the other in the order of the part numbers, with their total size, under the next
    -- version ID, and the upload is gone. The bucket is open, the total size fits in an int64, the
    -- blob is written, the hash is a text of 64 digits, the metadata is written to JSON and read
    -- back, the versions of the key are numbered, and an ID is left.
    pub get_object-complete_multipart_upload :
        Opened st.meta b
        → IsOpen k (versions_at st.meta b k)
        → validate_upload st b k id ≡ ok tt
        → lookup id st.uploads ≡ some u
        → All (IsUploaded st id u contents) parts
        → length body < 2 ^ 64
        → st.raft ≡ none
        → env.write_error ≡ none
        → length (hash body) ≡ 64
        → json.marshal meta ≡ ok text
        → RoundTrips json meta
        → ((complete_multipart_upload json op_json hash b k id parts env st).0 ≡ ok tt)
          × (get_object (complete_multipart_upload json op_json hash b k id parts env st).1 b k []
              ≡ ok (body, with_version_id meta (versions_at st.meta b k).next_id))
          × (validate_upload
                (complete_multipart_upload json op_json hash b k id parts env st).1
                b
                k
                id
              ≡ err invalid_upload_id)
    unfolding get_object cleanup_upload validate_upload
    get_object-complete_multipart_upload o v valid found uploaded bound alone write digits written
          trips =
        rw
          (complete_multipart_upload-eq o valid found uploaded bound alone write
            (omega (arith, digits)) written (trips text written))
          (
            refl,
            ground (
              arith,
              get_object-put_object st.meta b k meta o v refl,
              blob_path-eq st.data_dir (hash body) (omega (arith, digits)),
              lookup-remove_all st.held (multipart_dir st.data_dir id)
                  (path_of st.data_dir (hash body))
                  (insert (path_of st.data_dir (hash body)) body st.files),
              has_prefix-path_of st.data_dir id (hash body),
              lookup-insert_self (path_of st.data_dir (hash body)) body st.files,
            ),
            ground (arith, lookup-delete_self id st.uploads),
          )
