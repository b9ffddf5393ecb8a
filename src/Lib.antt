-- ===== src/Lib.antt =====
-- jario: single-binary S3-compatible object storage with embedded Raft consensus.
--
-- The program stores objects in buckets, each key with a list of versions. internal/store/meta.go
-- keeps the versions in memory and the buckets in BoltDB (internal/store/bucketdb.go);
-- internal/store/store.go writes the bodies as files named by their hash and sends changes of the
-- metadata through Raft, whose state machine (internal/raft/fsm.go) calls back into the metadata
-- store. internal/api checks signatures and turns requests into calls of the engine. A model of each
-- part, named as in the source:
--
--   Base       shared names, Boolean tests, lists, predicates on lists.
--   Text       Go strings as lists of bytes, their order, decimal printing of an int64.
--   GoMap      Go maps as association lists; the order of the entries stands for the order in which
--              `range` visits them.
--   Sort       `sort.Slice`, as an insertion sort.
--   Outcome    store.go's errors; a call returns a value, returns an error or panics.
--   Action     methods that change a state and may fail.
--   BucketDb   internal/store/bucketdb.go.
--   MetaStore  internal/store/meta.go: Versions (the version list of a key), Ops (the operations),
--              Listing (the two listings), Snapshot; Spec is the specification that forgets the maps,
--              the arrays and the current index; the other children hold proofs.
--   Raft       internal/store/store.go (RaftOp, ApplyOp, raftApply) and internal/raft/fsm.go: Fsm;
--              internal/raft/raft.go: Node; the snapshots of fsm.go: Snapshots, and Restart with the
--              steps of a node that takes them.
--   Store      internal/store/store.go: State (files, paths), Open, Objects (the operations);
--              internal/store/multipart.go: Multipart/Uploads, Complete and Lists.
--   Api        internal/api: Http (requests, responses, the XML values of xml.go), Errors (xml.go),
--              SigV4 (sigv4.go), Buckets, Objects, Uploads and Route (api.go), Join (join.go).
--   Config     internal/config/config.go, and cmd/server/main.go up to the guard on its flags.
--   Server     cmd/server/main.go behind it: opening and wiring the parts, joining, the reaper.
--   Tests      the theorems at concrete inputs.
--
-- A stateful operation takes the state and returns its result beside the new state. `put_object`
-- of MetaStore/Ops is MetaStore.PutObject, that of Store/Objects is Store.PutObject, and so on. The
-- metadata store is locked during each operation, so operations are atomic and the locks are left
-- out. The pointers into a version slice that GetObjectVersion hands out are modelled where the
-- engine reads one after a removal (`pointee`).
--
-- Numbers: int64 and int values are kept as their 64-bit patterns; a size or a time is a natural
-- number. The fuel of `digits` is the number itself, which bounds the number of its digits. The
-- fuel of the client `follow` is bounded by its theorem, and the fuel of `join_loop`, which main runs
-- without end, by the number of a call that succeeds.
--
-- Parameters: BoltDB (the record Bolt, with its documented behaviour in BoltLaws), hashicorp/raft
-- (the record Raft: whether the node leads, what the future of an entry returns; the record
-- RaftLibrary: what the other calls of the node return), encoding/json at each type (a Codec; that a
-- value is read back is a hypothesis where it is needed), SHA-256 in hex, HMAC, encoding/xml,
-- toml.DecodeFile, http.Post, the files that a start opens (the record Machine), the parsing of URLs,
-- time.Time.Format, the clock, the errors of reading a body and of writing a file with how far the write
-- came (the record Env), and which files cannot be removed (the field `held` of the store).
--
-- Not modelled: the listener, the signals and the shutdown of main, and what the Raft library does to
-- elect a leader and commit an entry. Concurrency between requests is not modelled beyond the
-- atomicity of each metadata operation, the two steps of an upload of a part, and the steps of a
-- snapshot.
pub mod Base
pub mod Text
pub mod GoMap
pub mod Sort
pub mod Outcome
pub mod Action
pub mod BucketDb
pub mod MetaStore
pub mod Raft
pub mod Store
pub mod Api
pub mod Config
pub mod Server
mod Tests
