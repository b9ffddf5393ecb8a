-- ===== src/Raft/Node.antt =====
-- internal/raft/raft.go: the node around hashicorp/raft, whose calls are the record RaftLibrary.
use jario.Base.{ℕ, Bool, true, false, List, [], ◌∷◌, ◌++◌, Option}
use jario.Text.{Text, codes}
use jario.Outcome.{Outcome, ok, err, other, not_leader, wrap, ◌>>=◌, ◌>>◌}
use jario.Raft.Fsm.{Raft}

-- raft.DefaultConfig() with the fields that New sets; times are in milliseconds.
pub record RaftConfig : Type 0 where
  pub local_id : Text
  pub snapshot_interval : ℕ
  pub snapshot_threshold : ℕ
  pub election_timeout : ℕ
  pub heartbeat_timeout : ℕ
  pub leader_lease_timeout : ℕ

pub data RaftState : Type 0 where
  follower candidate leader shutdown : RaftState

-- The error of a future: none, the library's ErrNotLeader, or another.
pub data RaftError : Type 0 where
  no_error raft_not_leader : RaftError
  raft_other : Text → RaftError

pub record RaftLibrary : Type 0 where
  pub new_tcp_transport : (bind : Text) → Outcome Text
  pub new_file_snapshot_store : (dir : Text) (retain : ℕ) → Outcome (Unit {0})
  pub new_bolt_store : (path : Text) → Outcome (Unit {0})
  pub new_raft : RaftConfig → Outcome (Unit {0})
  pub bootstrap_cluster : List (Text × Text) → Outcome (Unit {0})
  pub add_voter : (id addr : Text) → RaftError
  pub state : RaftState
  pub apply : Text → Option Text
  pub shut_down : Outcome (Unit {0})

-- The fields `raft` and `fsm` are the library and the metadata store.
pub record RaftNode : Type 0 where
  pub local_id : Text
  pub addr : Text

module _ (lib : RaftLibrary) where
  -- The address of the node is that of the transport.
  unfoldable pub new_node : (node_id raft_dir bind : Text) → Outcome RaftNode
  new_node node_id raft_dir bind = do
    local_addr ← wrap (codes "raft transport: ") (lib.new_tcp_transport bind)
    wrap (codes "raft snapshots: ") (lib.new_file_snapshot_store raft_dir 3)
    wrap (codes "raft bolt db: ") (lib.new_bolt_store (raft_dir ++ codes "/raft.db"))
    wrap (codes "raft new: ") (
        lib.new_raft (record {
          local_id = node_id;
          snapshot_interval = 120000;
          snapshot_threshold = 8192;
          election_timeout = 300;
          heartbeat_timeout = 200;
          leader_lease_timeout = 150;
        }))
    ok (record { local_id = node_id; addr = local_addr })

  unfoldable pub bootstrap : RaftNode → Outcome (Unit {0})
  bootstrap n = lib.bootstrap_cluster ((n.local_id, n.addr) ∷ [])

  unfoldable pub add_voter : (id addr : Text) → Outcome (Unit {0})
  add_voter id addr = elim (lib.add_voter id addr) [
    | raft_not_leader ↦ err not_leader
    | no_error ↦ ok tt
    | raft_other problem ↦ err (other problem)
  ]

  unfoldable pub is_leader : Bool
  is_leader = elim lib.state [ leader ↦ true | _ ↦ false ]

  unfoldable pub close : Outcome (Unit {0})
  close = lib.shut_down

  -- The node as the storage engine sees it.
  abbrev pub rafter : Raft
  rafter = record { is_leader = is_leader; future = lib.apply }
