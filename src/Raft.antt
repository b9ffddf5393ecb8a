-- ===== src/Raft.antt =====
-- internal/store/store.go, the replicated operation; internal/raft/fsm.go and raft.go, the state
-- machine and the node. hashicorp/raft is a parameter: whether this node leads, and what the future
-- of a submitted log entry returns.
pub mod Fsm
pub mod Node
pub mod Effects
pub mod Snapshots
pub mod Recovery
pub mod Restart
pub mod Restored
pub mod Crash
pub mod Replicas
