-- ===== src/Server.antt =====
-- cmd/server/main.go, behind the flags: the parts are opened and wired together, and the node joins.
-- An error ends the process; the text that `log.Fatalf` puts in front of it is left out.
pub mod Wiring
pub mod Joining
use jario.Base.{
  ℕ, suc, zero, ◌+◌, Bool, false, not, ◌&&◌, List, [], ◌∷◌, ◌++◌, Option, none, some, if◌then◌else◌,
}
use jario.Text.{Text, codes, text_eq, text_eq_inst}
use jario.Outcome.{Outcome, ok, err, panic, ◌>>=◌, ◌>>◌}
use jario.GoMap.{GoMap}
use jario.BucketDb.{Bolt, BoltFile}
use jario.MetaStore.Ops.{set_region}
use jario.Raft.Node.{RaftLibrary, RaftNode, new_node, bootstrap, add_voter, rafter}
use jario.Store.State.{Store, set_raft}
use jario.Store.Open.{open_meta_store, new_with_meta}
use jario.Store.Multipart.Lists.{abort_stale_uploads}
use jario.Api.Http.{Platform, JoinPayload}
use jario.Api.Join.{Reply, request_join}
use jario.Api.Route.{Handler, new_handler, set_joiner}
use jario.Config.{Config}

pub record Server (Db : Type 0) : Type 0 where
  pub store : Store Db
  pub node : RaftNode
  pub handler : Handler
  pub listen : Text
  pub tls : Bool
  pub max_age : ℕ

-- What main calls: the file system, BoltDB's file, hashicorp/raft, time.ParseDuration, json.Marshal, and
-- http.Post in the request to join number `k`.
pub record Machine (platform : Platform) : Type 0 where
  pub mkdir : Text → Outcome (Unit {0})
  pub file : BoltFile platform.bolt.Db
  pub files : GoMap Text Text
  pub raft : RaftLibrary
  -- a `time.Duration`, an int64 by its pattern
  pub parse_duration : Text → Outcome ℕ
  pub marshal_join : JoinPayload → Outcome Text
  pub http_post : (k : ℕ) (url body : Text) → Outcome Reply

module _ (platform : Platform) (machine : Machine platform) where
  -- api.RequestJoin(cfg.Join, cfg.NodeID, cfg.RaftAddr), the call number `k` of the loop
  unfoldable pub ask_join : Config → ℕ → Outcome (Unit {0})
  ask_join cfg k =
      request_join machine.marshal_join (machine.http_post k) cfg.join cfg.node_id cfg.raft_addr

  -- for { err := api.RequestJoin(…); if err == nil { break } … }, with fuel, from the call number `k`
  -- on. The number of the call that succeeds; `none` is a node that still asks.
  unfoldable pub join_loop : Config → (fuel k : ℕ) → Option ℕ
  join_loop cfg zero k = none
  join_loop cfg (suc fuel) k = elim (ask_join cfg k) [
    | ok _ ↦ some k
    | err _ ↦ join_loop cfg fuel (k + 1)
    | panic ↦ none
  ]

  -- if cfg.Join != "" { … }
  unfoldable pub join_if : Config → (fuel : ℕ) → Option ℕ
  join_if cfg fuel = if text_eq cfg.join [] then some 0 else join_loop cfg fuel 0

  -- The stores and the node.
  unfoldable pub open_parts : Config → Outcome (Store platform.bolt.Db × RaftNode)
  open_parts cfg = do
    meta ← open_meta_store platform.bolt platform.bucket_json machine.file cfg.data_dir
    st ← new_with_meta machine.mkdir cfg.data_dir (set_region meta cfg.region) machine.files
    node ← new_node machine.raft cfg.node_id (cfg.data_dir ++ codes "/raft") cfg.raft_addr
    ok (set_raft (some (rafter machine.raft)) st, node)

  unfoldable pub bootstrap_if : Bool → RaftNode → Outcome (Unit {0})
  bootstrap_if wanted node = if wanted then bootstrap machine.raft node else ok tt

  -- `none` is a node that still tries to join when the fuel is out. The server listens before the
  -- age of old uploads is read, so the process may end then.
  unfoldable pub start : (fuel : ℕ) → Config → Outcome (Option (Server platform.bolt.Db))
  start fuel cfg = do
    (st, node) ← open_parts cfg
    bootstrap_if cfg.bootstrap node
    elim (join_if cfg fuel) [
      | none ↦ ok none
      | some _ ↦ do
        max_age ← machine.parse_duration cfg.upload_max_age
        ok (
            some (record {
              store = st;
              node = node;
              handler =
                  set_joiner (some (add_voter machine.raft))
                    (new_handler cfg.access_key cfg.secret_key);
              listen = cfg.listen;
              tls = not (text_eq cfg.tls_cert []) && not (text_eq cfg.tls_key []);
              max_age = max_age;
            }))
    ]

-- The reaper, at each tick of its clock.
unfoldable pub reap : {Db : Type 0} → (max_age : ℕ) (ticks : List ℕ) → Store Db → Store Db
reap max_age [] st = st
reap max_age (now ∷ ticks) st = reap max_age ticks (abort_stale_uploads max_age now st).1
