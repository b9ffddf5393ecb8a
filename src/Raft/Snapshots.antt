-- ===== src/Raft/Snapshots.antt =====
-- internal/raft/fsm.go: the snapshots of the state machine, and what a node does with one when it
-- starts again. `Snapshot` hands out the live store, so a snapshot holds what the store holds when
-- `Persist` runs.
use jario.Base.{ℕ, Bool, true, false, List, [], ◌∷◌}
use jario.Text.{Text}
use jario.Outcome.{Outcome, ok, err, panic, Codec, ◌>>=◌}
use jario.BucketDb.{Bolt, BucketMeta}
use jario.MetaStore.Versions.{ObjectMeta}
use jario.MetaStore.Ops.{MetaStore, Objects}
use jario.MetaStore.Snapshot.{snapshot, restore}
use jario.Raft.Fsm.{RaftOp, fsm_apply}

-- raft.SnapshotSink
pub record Sink : Type 0 where
  pub write : Text → Outcome (Unit {0})
  pub close : Outcome (Unit {0})

-- The result, and whether the sink was cancelled.
unfoldable pub persist :
    {Db : Type 0} → Codec Objects → Sink → MetaStore Db → Outcome (Unit {0}) × Bool
persist json sink m = elim (snapshot json m >>= sink.write) [
  | err e ↦ (err e, true)
  | panic ↦ (panic, false)
  | ok _ ↦ (sink.close, false)
]

module _ (bolt : Bolt) (bucket_json : Codec BucketMeta) (objects_json : Codec Objects) where
  unfoldable pub fsm_restore : MetaStore bolt.Db → Text → Outcome (Unit {0}) × MetaStore bolt.Db
  unfolding restore
  fsm_restore m text = restore bolt bucket_json objects_json m text

-- The log entries that are applied again, each with the clock of the node. A panic ends the process.
unfoldable pub recover :
    {Db : Type 0}
    → Codec ObjectMeta
    → Codec RaftOp
    → List (Text × ℕ)
    → MetaStore Db
    → Outcome (Unit {0}) × MetaStore Db
recover json op_json [] m = (ok tt, m)
recover json op_json ((log_data, now) ∷ log) m =
    let (r, m') = fsm_apply json op_json m log_data now in
    elim r [
      | panic ↦ (panic, m')
      | ok _ ↦ recover json op_json log m'
      | err _ ↦ recover json op_json log m'
    ]
