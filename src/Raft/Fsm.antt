-- ===== src/Raft/Fsm.antt =====
-- internal/store/store.go (`RaftOp`, `ApplyOp`), internal/raft/fsm.go and raft.go.
use jario.Base.{ℕ, Bool, Option, none, some, [], ◌++◌, if◌then◌else◌}
use jario.Text.{Text, codes, text_eq}
use jario.Outcome.{Outcome, ok, err, panic, other, message, not_leader, Codec, ◌>>=◌}
use jario.MetaStore.Versions.{ObjectMeta}
use jario.MetaStore.Ops.{MetaStore, put_object, delete_object}

-- `meta` is the JSON text of an object's metadata.
pub record RaftOp : Type 0 where
  pub kind : Text
  pub bucket : Text
  pub key : Text
  pub version_id : Text
  pub meta : Text

abbrev pub put_kind : Text
put_kind = codes "put_object"

abbrev pub delete_kind : Text
delete_kind = codes "delete_object"

abbrev pub delete_version_kind : Text
delete_version_kind = codes "delete_version"

abbrev pub put_op : (bucket key meta : Text) → RaftOp
put_op bucket key meta = record {
  kind = put_kind;
  bucket = bucket;
  key = key;
  version_id = [];
  meta = meta;
}

abbrev pub delete_op : (bucket key : Text) → RaftOp
delete_op bucket key = record {
  kind = delete_kind;
  bucket = bucket;
  key = key;
  version_id = [];
  meta = [];
}

abbrev pub delete_version_op : (bucket key version_id : Text) → RaftOp
delete_version_op bucket key version_id = record {
  kind = delete_version_kind;
  bucket = bucket;
  key = key;
  version_id = version_id;
  meta = [];
}

-- `_, err := …; return err`
abbrev pub forget : {S : Type 0} → Outcome Text × S → Outcome (Unit {0}) × S
forget (r, s) = (r >>= λ _. ok tt, s)

module _ {Db : Type 0} (json : Codec ObjectMeta) where
  -- `now` is the clock of the node that applies the operation.
  unfoldable pub apply_op : MetaStore Db → RaftOp → ℕ → Outcome (Unit {0}) × MetaStore Db
  apply_op m op now =
      if text_eq op.kind put_kind
      then elim (json.unmarshal op.meta) [
        | err e ↦ (err e, m)
        | panic ↦ (panic, m)
        | ok meta ↦ forget (put_object m op.bucket op.key meta)
      ]
      else if text_eq op.kind delete_kind
      then forget (delete_object m op.bucket op.key [] now)
      else if text_eq op.kind delete_version_kind
      then forget (delete_object m op.bucket op.key op.version_id now)
      else (ok tt, m)

  module _ (op_json : Codec RaftOp) where
    -- `(*fsm).Apply`: the error is the response of the log entry.
    unfoldable pub fsm_apply : MetaStore Db → Text → ℕ → Outcome (Unit {0}) × MetaStore Db
    fsm_apply m log_data now = elim (op_json.unmarshal log_data) [
      | err e ↦ (err e, m)
      | panic ↦ (panic, m)
      | ok op ↦ apply_op m op now
    ]

-- What hashicorp/raft answers on this node: `none` is a future with no error, which resolves after
-- the entry has been applied to the state machine of this node.
pub record Raft : Type 0 where
  pub is_leader : Bool
  pub future : Text → Option Text

abbrev pub ignore_response : {S : Type 0} → Outcome (Unit {0}) × S → Outcome (Unit {0}) × S
ignore_response (ok _, s) = (ok tt, s)
ignore_response (err _, s) = (ok tt, s)
ignore_response (panic, s) = (panic, s)

module _ {Db : Type 0} (json : Codec ObjectMeta) (op_json : Codec RaftOp) where
  -- `(*RaftNode).Apply`: the response of the state machine is not read. A panic of the state
  -- machine ends the process.
  unfoldable pub node_apply : Raft → MetaStore Db → RaftOp → ℕ → Outcome (Unit {0}) × MetaStore Db
  node_apply raft m op now = elim (op_json.marshal op) [
    | err e ↦ (err (other (codes "marshal op: " ++ message e)), m)
    | panic ↦ (panic, m)
    | ok log_data ↦ elim (raft.future log_data) [
      | some problem ↦ (err (other (codes "raft apply: " ++ problem)), m)
      | none ↦ ignore_response (fsm_apply json op_json m log_data now)
    ]
  ]

  -- `(*Store).raftApply`
  unfoldable pub raft_apply :
      Option Raft → MetaStore Db → RaftOp → ℕ → Outcome (Unit {0}) × MetaStore Db
  raft_apply none m op now = apply_op json m op now
  raft_apply (some raft) m op now =
      if raft.is_leader then node_apply raft m op now else (err not_leader, m)
