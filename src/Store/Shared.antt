-- ===== src/Store/Shared.antt =====
-- internal/store/store.go: blobs are named by their content, so two keys may share one.
use jario.Base.{
  ℕ, zero, suc, ◌≤◌, ◌≡◌, refl, subst, ◌∙◌, ◌≢◌, false, List, [], ◌∷◌, none, some, arith, length,
  get_elem?, inl, inr,
}
use jario.Text.{Text, text_eq_iff, text_eq_inst}
use jario.Text.Laws.{text_eq_refl}
use jario.Outcome.{ok, err, other, Codec, Outcome-cases}
use jario.GoMap.{delete, lookup-delete_self}
use jario.MetaStore.Versions.{ObjectMeta, VersionEntry, VersionState, find_from}
use jario.MetaStore.Ops
use jario.MetaStore.Ops.{MetaStore, find_key}
use jario.MetaStore.Lookups.{Opened, after_removal, delete_version_lem}
use jario.Raft.Fsm.{RaftOp, raft_apply}
use jario.Store.State.{Store, Env, remove_blob, remove_file}
use jario.Store.Objects.{delete_object, get_object, version_pointer, pointee, open_error}
use jario.Store.Blobs.{path_of, blob_path-eq}
use jario.Store.Deletes.{remove-at_found, apply_op-delete_version}

-- The slot of the newest version is past the end after its removal, and keeps what it held.
pointee-newest :
    {Db : Type 0} (m : MetaStore Db) (b k : Text) (vst : VersionState) (rest : List VersionEntry)
    (i : ℕ) (meta : ObjectMeta)
    → find_key m b k ≡ after_removal vst rest
    → get_elem? rest i ≡ none
    → pointee m b k i meta ≡ meta
unfolding pointee
pointee-newest m b k vst [] i meta gone slot = ground (arith, gone)
pointee-newest m b k vst (e ∷ es) i meta gone slot = ground (arith, gone, slot)

get_elem?-past : (es : List VersionEntry) (i : ℕ) → length es ≤ i → get_elem? es i ≡ none
get_elem?-past [] i h = refl
get_elem?-past (e ∷ es) zero h = absurd (omega (arith, h))
get_elem?-past (e ∷ es) (suc i) h = get_elem?-past es i (omega (arith, h))

get_object-find_key :
    {Db : Type 0} (m n : MetaStore Db) (b k : Text)
    → find_key m b k ≡ find_key n b k
    → Ops.get_object m b k [] ≡ Ops.get_object n b k []
unfolding Ops.get_object
get_object-find_key m n b k same = ground (arith, same)

get_object-meta :
    {Db : Type 0} (st : Store Db) (b k content : Text) (meta : ObjectMeta)
    → get_object st b k [] ≡ ok (content, meta)
    → Ops.get_object st.meta b k [] ≡ ok meta
unfolding get_object
get_object-meta st b k content meta read = elim (Outcome-cases (Ops.get_object st.meta b k [])) [
  | inr (inl (e, failed)) ↦ absurd (ground (arith, failed))
  | inr (inr failed) ↦ absurd (ground (arith, failed))
  | inl (found, there) ↦ ground (arith, there)
]

module _ {Db : Type 0} (json : Codec ObjectMeta) (op_json : Codec RaftOp) where
  delete_object-newest :
      (st : Store Db) (b k vid : Text) (env : Env) (vst : VersionState) (i : ℕ) (meta : ObjectMeta)
      → Opened st.meta b
      → find_key st.meta b k ≡ some vst
      → st.raft ≡ none
      → vid ≢ []
      → find_from 0 vid vst.versions ≡ some (i, meta)
      → length vst.versions ≤ suc i
      → meta.is_delete_marker ≡ false
      → 2 ≤ length meta.sha256
      → st.held (path_of st.data_dir meta.sha256) ≡ false
      → delete_object json op_json b k vid env st ≡ (
        ok [],
        record st {
          meta = (Ops.delete_object st.meta b k vid env.now).1;
          files = delete (path_of st.data_dir meta.sha256) st.files;
        },
      )
  unfolding delete_object raft_apply version_pointer remove_blob remove_file
  delete_object-newest st b k vid env vst i meta o h alone ne found newest live digits free =
      let (n, place, rest, removed, shifted) = remove-at_found vid 0 vst.versions i meta found in
      let deleted = delete_version_lem st.meta b k vid env.now vst rest o h ne removed in
      let slot : get_elem? rest i ≡ none =
        subst (λ x. get_elem? rest x ≡ none) (omega (arith, place))
          (shifted ∙ get_elem?-past vst.versions (suc n) (omega (arith, place, newest))) in
      let gone : find_key (Ops.delete_object st.meta b k vid env.now).1 b k
          ≡ after_removal vst rest =
        ground (arith, deleted.1 b k, text_eq_refl b, text_eq_refl k) in
      let points =
        pointee-newest (Ops.delete_object st.meta b k vid env.now).1 b k vst rest i meta gone
          slot in
      ground (
        arith,
        alone,
        h,
        found,
        deleted.0,
        points,
        live,
        blob_path-eq st.data_dir meta.sha256 digits,
        text_eq_iff vid [],
        apply_op-delete_version json op_json st.meta b k vid env.now,
      )

  other_kept :
      (st : Store Db) (b k vid : Text) (env : Env) (vst : VersionState) (i : ℕ) (meta : ObjectMeta)
      (twin : Text)
      → Opened st.meta b
      → find_key st.meta b k ≡ some vst
      → vid ≢ []
      → find_from 0 vid vst.versions ≡ some (i, meta)
      → k ≢ twin
      → Ops.get_object (Ops.delete_object st.meta b k vid env.now).1 b twin []
        ≡ Ops.get_object st.meta b twin []
  other_kept st b k vid env vst i meta twin o h ne found apart =
      let (n, place, rest, removed, shifted) = remove-at_found vid 0 vst.versions i meta found in
      let deleted = delete_version_lem st.meta b k vid env.now vst rest o h ne removed in
      get_object-find_key (Ops.delete_object st.meta b k vid env.now).1 st.meta b twin
        (ground (arith, deleted.1 b twin, text_eq_iff k twin))

  -- Two keys of a bucket have the same content, and so the same blob. If the newest version of one
  -- is deleted by its ID, without Raft, the delete succeeds and removes the blob, and a get of the
  -- other key, which was never deleted, then fails as its blob cannot be opened. The bucket is
  -- open, the version is no delete marker, the hash has 8 digits or more, and the file system lets
  -- the blob be removed.
  pub get_object-shared_blob :
      (st : Store Db) (b k vid : Text) (env : Env) (vst : VersionState) (i : ℕ) (meta : ObjectMeta)
      (twin : Text) (twin_meta : ObjectMeta) (content : Text)
      → Opened st.meta b
      → find_key st.meta b k ≡ some vst
      → st.raft ≡ none
      → vid ≢ []
      → find_from 0 vid vst.versions ≡ some (i, meta)
      → length vst.versions ≤ suc i
      → meta.is_delete_marker ≡ false
      → 8 ≤ length meta.sha256
      → st.held (path_of st.data_dir meta.sha256) ≡ false
      → k ≢ twin
      → get_object st b twin [] ≡ ok (content, twin_meta)
      → twin_meta.sha256 ≡ meta.sha256
      → ((delete_object json op_json b k vid env st).0 ≡ ok [])
        × (get_object (delete_object json op_json b k vid env st).1 b twin []
            ≡ err (other (open_error (path_of st.data_dir meta.sha256) meta.sha256)))
  unfolding get_object
  get_object-shared_blob st b k vid env vst i meta twin twin_meta content o h alone ne found newest
        live digits free apart read shared =
      let gone =
        delete_object-newest st b k vid env vst i meta o h alone ne found newest live
          (omega (arith, digits)) free in
      let path = path_of st.data_dir meta.sha256 in
      rw gone (
        refl,
        ground (
          arith,
          other_kept st b k vid env vst i meta twin o h ne found apart,
          get_object-meta st b twin content twin_meta read,
          shared,
          blob_path-eq st.data_dir meta.sha256 (omega (arith, digits)),
          lookup-delete_self path st.files,
        ),
      )
