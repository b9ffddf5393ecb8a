-- ===== src/Store/Objects.antt =====
-- internal/store/store.go: the object operations. `hash` is the hex text of SHA-256.
use jario.Base.{ℕ, false, List, [], ◌++◌, none, some, length, get_elem?, take, ltb, if◌then◌else◌}
use jario.Text.{Text, codes, text_eq, text_eq_inst}
use jario.Outcome.{Outcome, ok, err, panic, other, no_key, Codec, wrap}
use jario.Action.{Action, pure, lift, gets, ◌>>=◌, ◌>>◌}
use jario.GoMap.{lookup}
use jario.BucketDb.{Bolt, Bucket, BucketMeta}
use jario.MetaStore.Versions.{ObjectMeta, find_from}
use jario.MetaStore.Ops
use jario.MetaStore.Ops.{MetaStore, find_key}
use jario.MetaStore.Listing
use jario.MetaStore.Listing.{ObjectVersion}
use jario.Raft.Fsm.{RaftOp, put_op, delete_version_op, raft_apply}
use jario.Store.State.{Store, Env, read_all, blob_path, write_blob, remove_blob}

abbrev pub object_meta : Text → ℕ → Text → ℕ → ObjectMeta
object_meta key size sha now = record {
  key = key;
  size = size;
  etag = sha;
  content_type = [];
  sha256 = sha;
  created_at = now;
  version_id = [];
  is_delete_marker = false;
}

-- `m, _ := s.meta.GetObject(bucket, key, "")`
abbrev pub id_of : Outcome ObjectMeta → Text
id_of (ok meta) = meta.version_id
id_of (err e) = []
id_of panic = []

-- fmt.Errorf("open blob %s: %w", meta.Sha256[:8], err) for a file that is not there
abbrev pub open_error : Text → Text → Text
open_error path sha =
    codes "open blob "
    ++ (take 8 sha ++ (codes ": open " ++ (path ++ codes ": no such file or directory")))

module _ {Db : Type 0} where
  abbrev pub on_meta :
      {A : Type 0} → (MetaStore Db → Outcome A × MetaStore Db) → Action (Store Db) A
  on_meta f st = let (r, m) = f st.meta in (r, record st { meta = m })

  -- What `&vst.Versions[i].Meta` reads after the version list has changed under it: slot `i` of the
  -- array. A removal shifts the later versions down in place, and leaves a slot past its end as it
  -- was.
  unfoldable pub pointee : MetaStore Db → (bucket key : Text) → ℕ → ObjectMeta → ObjectMeta
  pointee m bucket key i meta = elim (find_key m bucket key) [
    | none ↦ meta
    | some vst ↦ elim (get_elem? vst.versions i) [ none ↦ meta | some e ↦ e.meta ]
  ]

  -- The pointer that `GetObjectVersion` returns: the index of the version and what it holds now.
  unfoldable pub version_pointer :
      MetaStore Db → (bucket key version_id : Text) → Outcome (ℕ × ObjectMeta)
  version_pointer m bucket key version_id = elim (find_key m bucket key) [
    | none ↦ err no_key
    | some vst ↦ elim (find_from 0 version_id vst.versions) [ none ↦ err no_key | some p ↦ ok p ]
  ]

  -- An open file is its content.
  unfoldable pub get_object :
      Store Db → (bucket key version_id : Text) → Outcome (Text × ObjectMeta)
  get_object st bucket key version_id = elim (Ops.get_object st.meta bucket key version_id) [
    | err e ↦ err e
    | panic ↦ panic
    | ok meta ↦ elim (blob_path st.data_dir meta.sha256) [
      | err e ↦ err e
      | panic ↦ panic
      | ok path ↦ elim (lookup path st.files) [
        | some content ↦ ok (content, meta)
        | none ↦
            if ltb (length meta.sha256) 8 then panic else err (other (open_error path meta.sha256))
      ]
    ]
  ]

  unfoldable pub get_meta : Store Db → (bucket key : Text) → Outcome ObjectMeta
  get_meta st bucket key = Ops.get_object st.meta bucket key []

  unfoldable pub get_meta_version : Store Db → (bucket key version_id : Text) → Outcome ObjectMeta
  get_meta_version st bucket key version_id = Ops.get_object_version st.meta bucket key version_id

  unfoldable pub list_objects_paged :
      Store Db → (bucket prefix start_after : Text) → ℕ → List ObjectMeta × Text
  list_objects_paged st bucket prefix start_after max_keys =
      Listing.list_objects_paged st.meta bucket prefix start_after max_keys

  unfoldable pub list_object_versions :
      (ℕ → Text) → Store Db → (bucket prefix : Text) → List ObjectVersion × List ObjectVersion
  list_object_versions rfc3339 st bucket prefix =
      Listing.list_object_versions rfc3339 st.meta bucket prefix

module _ {Db : Type 0} (json : Codec ObjectMeta) (op_json : Codec RaftOp) where
  -- s.raftApply(op)
  abbrev pub apply : RaftOp → ℕ → Action (Store Db) (Unit {0})
  apply op now st = on_meta (λ m. raft_apply json op_json st.raft m op now) st

  unfoldable pub put_object :
      (hash : Text → Text) (bucket key body : Text) (env : Env) → Action (Store Db) (Text × Text)
  put_object hash bucket key body env = do
    content ← lift (wrap (codes "read body: ") (read_all body env))
    let sha = hash content
    (λ st. let (r, st') = write_blob sha content env st in (wrap (codes "write blob: ") r, st'))
    text ← lift (
        wrap (codes "marshal meta: ") (json.marshal (object_meta key (length content) sha env.now)))
    apply (put_op bucket key text) env.now
    found ← gets (λ st. Ops.get_object st.meta bucket key [])
    pure (sha, id_of found)

  -- Without a version ID the metadata store is called directly, and not through Raft.
  unfoldable pub delete_object : (bucket key version_id : Text) (env : Env) → Action (Store Db) Text
  delete_object bucket key version_id env =
      if text_eq version_id [] then on_meta (λ m. Ops.delete_object m bucket key [] env.now) else do
        (i, meta) ← (λ st. (version_pointer st.meta bucket key version_id, st))
        apply (delete_version_op bucket key version_id) env.now
        now_there ← gets (λ st. pointee st.meta bucket key i meta)
        if now_there.is_delete_marker then pure tt else remove_blob now_there.sha256
        pure []

module _ (bolt : Bolt) (json : Codec BucketMeta) where
  unfoldable pub create_bucket : Text → Env → Action (Store bolt.Db) (Unit {0})
  create_bucket name env = on_meta (λ m. Ops.create_bucket bolt json m name env.now)

  unfoldable pub delete_bucket : Text → Action (Store bolt.Db) (Unit {0})
  delete_bucket name = on_meta (λ m. Ops.delete_bucket bolt json m name)

  unfoldable pub get_bucket : Store bolt.Db → Text → Outcome Bucket
  get_bucket st name = Ops.get_bucket bolt json st.meta name

  unfoldable pub list_buckets : Store bolt.Db → List Bucket
  list_buckets st = Ops.list_buckets bolt json st.meta
