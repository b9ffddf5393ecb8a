-- ===== src/Raft/Effects.antt =====
-- internal/store/store.go: what `ApplyOp` does to a store is decided by the operation alone.
use jario.Base.{ℕ, ◌≡◌, [], arith, if◌then◌else◌}
use jario.Text.{Text, text_eq}
use jario.Outcome.{Outcome, ok, err, panic, Codec}
use jario.MetaStore.Versions.{ObjectMeta}
use jario.MetaStore.Ops.{MetaStore, put_object, delete_object}
use jario.Raft.Fsm.{RaftOp, apply_op, put_kind, delete_kind, delete_version_kind}

pub data Effect : Type 0 where
  nothing : Effect
  puts : ObjectMeta → Effect
  deletes : (version_id : Text) → Effect

abbrev put_effect : Outcome ObjectMeta → Effect
put_effect (ok meta) = puts meta
put_effect (err e) = nothing
put_effect panic = nothing

pub effect : Codec ObjectMeta → RaftOp → Effect
effect json op =
    if text_eq op.kind put_kind
    then put_effect (json.unmarshal op.meta)
    else if text_eq op.kind delete_kind
    then deletes []
    else if text_eq op.kind delete_version_kind
    then deletes op.version_id
    else nothing

abbrev pub run : {Db : Type 0} → MetaStore Db → RaftOp → ℕ → Effect → MetaStore Db
run m op now nothing = m
run m op now (puts meta) = (put_object m op.bucket op.key meta).1
run m op now (deletes vid) = (delete_object m op.bucket op.key vid now).1

pub apply_op-effect :
    {Db : Type 0} (json : Codec ObjectMeta) (m : MetaStore Db) (op : RaftOp) (now : ℕ)
    → (apply_op json m op now).1 ≡ run m op now (effect json op)
unfolding apply_op effect
apply_op-effect json m op now = ground arith
