-- ===== src/Store/Deletes.antt =====
-- internal/store/store.go: what a delete does to the blobs and to Raft.
use jario.Base.{
  not, ◌&&◌, ℕ, suc, ◌+◌, ◌≤◌, ◌≡◌, refl, sym, subst, ◌∙◌, ◌≢◌, false, List, [], ◌∷◌, none, some,
  arith, length, get_elem?, Bool-cases, inl, inr, if◌then◌else◌,
}
use jario.Text.{Text, text_eq, text_eq_iff, text_eq_inst}
use jario.Text.Laws.{text_eq_refl}
use jario.Text.Decimal.{format_int, format_int-ne-nil}
use jario.Outcome.{ok, err, panic, not_leader, Codec}
use jario.GoMap.{lookup, lookup-delete}
use jario.MetaStore.Versions.{ObjectMeta, VersionEntry, VersionState, find_from, remove_version}
use jario.MetaStore.Ops
use jario.MetaStore.Ops.{MetaStore, find_key, marker}
use jario.MetaStore.Lookups.{Opened, after_removal, delete_version_lem, delete_marker_lem}
use jario.MetaStore.Invariant.{IsOpen}
use jario.MetaStore.Behaviour.{delete_marker_reads}
use jario.Raft.Fsm.{RaftOp, Raft, delete_version_op, raft_apply, apply_op, forget}
use jario.Raft.Replicas.{raft_apply-not_leader}
use jario.Store.State.{Store, Env, blob_path, remove_blob, remove_file}
use jario.Store.Objects.{delete_object, get_object, version_pointer, pointee}
use jario.Store.Blobs.{path_of, blob_path-eq}

-- Where a version is found it is removed, and the versions behind it move down by one slot.
pub remove-at_found :
    (vid : Text) (j : ℕ) (es : List VersionEntry) (i : ℕ) (meta : ObjectMeta)
    → find_from j vid es ≡ some (i, meta)
    → (n : ℕ) × (i ≡ j + n)
      × (rest : List VersionEntry) × (remove_version vid es ≡ some rest)
      × (get_elem? rest n ≡ get_elem? es (suc n))
unfolding find_from remove_version
remove-at_found vid j [] i meta h = absurd (cc)
remove-at_found vid j (e ∷ es) i meta h = elim (Bool-cases (text_eq e.meta.version_id vid)) [
  | inl found ↦ (0, ground arith, es, rw found, refl)
  | inr other ↦
      let (n, place, rest, removed, shifted) =
        remove-at_found vid (suc j) es i meta (ground arith) in
      (suc n, omega arith, e ∷ rest, rw (other, removed), shifted)
]

pointee-after :
    {Db : Type 0} (m : MetaStore Db) (b k : Text) (vst : VersionState) (rest : List VersionEntry)
    (i : ℕ) (meta : ObjectMeta) (next : VersionEntry)
    → find_key m b k ≡ after_removal vst rest
    → get_elem? rest i ≡ some next
    → pointee m b k i meta ≡ next.meta
unfolding pointee
pointee-after m b k vst [] i meta next gone slot = absurd (cc)
pointee-after m b k vst (e ∷ es) i meta next gone slot = ground (arith, gone, slot)

get_object-named :
    {Db : Type 0} (m : MetaStore Db) (b k vid : Text)
    → vid ≢ []
    → Ops.get_object m b k vid ≡ Ops.get_object_version m b k vid
unfolding Ops.get_object Ops.get_object_version
get_object-named m b k vid ne = ground (arith, text_eq_iff vid [])

module _ {Db : Type 0} (json : Codec ObjectMeta) (op_json : Codec RaftOp) where
  pub apply_op-delete_version :
      (m : MetaStore Db) (b k vid : Text) (now : ℕ)
      → apply_op json m (delete_version_op b k vid) now ≡ forget (Ops.delete_object m b k vid now)
  unfolding apply_op text_eq
  apply_op-delete_version m b k vid now = refl

  -- Deleting a version by its ID, without Raft, when the next newer version of the key is no
  -- delete marker and has a hash of two digits or more: the call succeeds, the blob of that newer
  -- version is removed, if the file system lets it be removed, and every other file stays as it
  -- was. The bucket is open.
  pub delete_object-removes_next_blob :
      (st : Store Db) (b k vid : Text) (env : Env) (vst : VersionState) (i : ℕ) (meta : ObjectMeta)
      (next : VersionEntry)
      → Opened st.meta b
      → find_key st.meta b k ≡ some vst
      → st.raft ≡ none
      → vid ≢ []
      → find_from 0 vid vst.versions ≡ some (i, meta)
      → get_elem? vst.versions (suc i) ≡ some next
      → next.meta.is_delete_marker ≡ false
      → 2 ≤ length next.meta.sha256
      → ((delete_object json op_json b k vid env st).0 ≡ ok [])
        × ((path : Text)
            → lookup path (delete_object json op_json b k vid env st).1.files ≡ (
                if text_eq (path_of st.data_dir next.meta.sha256) path && not (st.held path)
                then none
                else lookup path st.files))
  unfolding delete_object raft_apply version_pointer remove_blob remove_file
  delete_object-removes_next_blob st b k vid env vst i meta next o h alone ne found newer live
        digits =
      let (n, place, rest, removed, shifted) = remove-at_found vid 0 vst.versions i meta found in
      let deleted = delete_version_lem st.meta b k vid env.now vst rest o h ne removed in
      let same : i ≡ n = omega (arith, place) in
      let slot : get_elem? rest i ≡ some next =
        subst (λ x. get_elem? rest x ≡ some next) (sym same)
          (shifted ∙ subst (λ x. get_elem? vst.versions (suc x) ≡ some next) same newer) in
      let gone : find_key (Ops.delete_object st.meta b k vid env.now).1 b k
          ≡ after_removal vst rest =
        ground (arith, deleted.1 b k, text_eq_refl b, text_eq_refl k) in
      let points =
        pointee-after (Ops.delete_object st.meta b k vid env.now).1 b k vst rest i meta next gone
          slot in
      let path = blob_path-eq st.data_dir next.meta.sha256 digits in
      (
        ground (
          arith,
          alone,
          h,
          found,
          deleted.0,
          points,
          live,
          path,
          text_eq_iff vid [],
          apply_op-delete_version st.meta b k vid env.now,
        ),
        λ p. ground (
          arith,
          alone,
          h,
          found,
          deleted.0,
          points,
          live,
          path,
          text_eq_iff vid [],
          apply_op-delete_version st.meta b k vid env.now,
          lookup-delete (path_of st.data_dir next.meta.sha256) p st.files,
          text_eq_iff (path_of st.data_dir next.meta.sha256) p,
        ),
      )

  -- On a node that does not lead, a delete without a version ID of a key in an open bucket
  -- succeeds and changes the versions of this node alone, while a delete of one of its versions is
  -- refused and changes nothing.
  pub delete_object-ignores_raft :
      (st : Store Db) (b k vid : Text) (env : Env) (vst : VersionState) (raft : Raft) (i : ℕ)
      (meta : ObjectMeta)
      → Opened st.meta b
      → find_key st.meta b k ≡ some vst
      → st.raft ≡ some raft
      → raft.is_leader ≡ false
      → vid ≢ []
      → find_from 0 vid vst.versions ≡ some (i, meta)
      → (delete_object json op_json b k [] env st ≡ (
        ok (format_int vst.next_id),
        record st { meta = (Ops.delete_object st.meta b k [] env.now).1 },
      ))
        × (delete_object json op_json b k vid env st ≡ (err not_leader, st))
  unfolding delete_object version_pointer text_eq
  delete_object-ignores_raft st b k vid env vst raft i meta o h wired follows ne found = (
    ground (arith, (delete_marker_lem st.meta b k env.now vst o h).0),
    ground (
      arith,
      h,
      found,
      wired,
      text_eq_iff vid [],
      raft_apply-not_leader json op_json raft st.meta (delete_version_op b k vid) env.now follows,
    ),
  )

  -- A get of a delete marker by its version ID, right after the delete that wrote it, panics: it
  -- has no hash to make a path of. The bucket is open, the key was there with numbered versions,
  -- and an ID was left.
  pub get_object-marker_panics :
      (st : Store Db) (b k : Text) (env : Env) (vst : VersionState)
      → Opened st.meta b
      → find_key st.meta b k ≡ some vst
      → IsOpen k vst
      → get_object (delete_object json op_json b k [] env st).1 b k (format_int vst.next_id) ≡ panic
  unfolding get_object delete_object text_eq blob_path
  get_object-marker_panics st b k env vst o h v = ground (
    arith,
    get_object-named (Ops.delete_object st.meta b k [] env.now).1 b k (format_int vst.next_id)
        (format_int-ne-nil vst.next_id),
    delete_marker_reads st.meta b k env.now vst o h v,
  )
