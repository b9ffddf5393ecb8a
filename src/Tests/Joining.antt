-- ===== src/Tests/Joining.antt =====
-- The theorems on starting and joining at concrete inputs.
use jario.Base.{ℕ, ◌≡◌, ◌≢◌, ◌≤◌, ◌<◌, ◌↔◌, refl, true, false, [], some, arith, ltb, if◌then◌else◌}
use jario.Text.{Text, codes, text_eq, text_eq_inst}
use jario.Outcome.{ok, panic}
use jario.GoMap.{GoMap}
use jario.BucketDb.{open_bucket_db}
use jario.MetaStore.Ops.{new_meta_store, set_region}
use jario.Store.State.{new_store, set_raft}
use jario.Tests.Data.{bolt, constant, bucket_meta}
use jario.Raft.Node.{
  RaftLibrary, RaftNode, rafter, leader, no_error, new_node, bootstrap, add_voter,
}
use jario.Api.Http.{Request, Platform, post}
use jario.Api.Join.{request_join}
use jario.Api.Route.{Handler, new_handler, set_joiner}
use jario.Config.{Config, default}
use jario.Store.Open.{open_meta_store, new_with_meta}
use jario.Server.{Server, Machine, ask_join, join_loop, join_if, open_parts, bootstrap_if, start}
use jario.Server.Joining
use jario.Server.Joining.{Wire, Fails, post_to}
use jario.Server.Wiring
use jario.Server.Wiring.{IsWired}
use jario.Tests.Engine.{engine, env}
use jario.Tests.Requests
use jario.Tests.Requests.{request}

abbrev library : RaftLibrary
library = record {
  new_tcp_transport = λ bind. ok bind;
  new_file_snapshot_store = λ dir retain. ok tt;
  new_bolt_store = λ path. ok tt;
  new_raft = λ config. ok tt;
  bootstrap_cluster = λ servers. ok tt;
  add_voter = λ id addr. no_error;
  state = leader;
  apply = λ entry. some entry;
  shut_down = ok tt;
}

abbrev platform : Platform
platform = record Requests.platform {
  decode_join = λ _. ok (record { id = codes "node2"; addr = codes "node2:9090" });
}

abbrev wire : Wire
wire = record { render = λ _. []; status_line = λ _. codes "200 OK" }

abbrev member : Handler
member = set_joiner (some (add_voter library)) (new_handler [] [])

abbrev join_request : (url body : Text) → Request
join_request url body = record (request post body) { path = codes "/internal/join" }

request_join-route_internal_example :
    (request_join
        (λ _. ok [])
        (post_to platform wire join_request member env engine)
        (codes "node1:9000")
        (codes "node2")
        (codes "node2:9090")
      ≡ ok tt)
    ↔ ((codes "node2" ≢ [])
        × (codes "node2:9090" ≢ [])
        × (add_voter library (codes "node2") (codes "node2:9090") ≡ ok tt))
request_join-route_internal_example =
    Joining.request_join-route_internal platform wire join_request member env engine (λ _. ok [])
      (codes "node1:9000") (codes "node2") (codes "node2:9090") [] (add_voter library) refl refl
      refl refl refl refl

-- Two refusals, and then the cluster admits the node.
abbrev machine : Machine platform
machine = record {
  mkdir = λ _. ok tt;
  file = record { open_file = λ _. ok []; create_bucket_if_not_exists = λ db. ok db };
  files = [];
  raft = library;
  parse_duration = λ _. ok 86400;
  marshal_join = λ _. ok [];
  http_post =
      λ k _ _. ok (record { status_code = if ltb k 2 then 503 else 200; status = []; body = [] });
}

abbrev joining : Config
joining = record default { join = codes "node1:9000" }

refused :
    (k : ℕ)
    → (request_join machine.marshal_join
          (machine.http_post k)
          (codes "node1:9000")
          (codes "node1")
          (codes "localhost:9090")
        ≢ panic)
unfolding request_join
refused k h = absurd (ground (arith, h))

admitted :
    (request_join machine.marshal_join
        (machine.http_post 3)
        (codes "node1:9000")
        (codes "node1")
        (codes "localhost:9090")
      ≡ ok tt)
unfolding request_join
admitted = refl

join_loop_lem_example :
    (j : ℕ) × (j ≤ 3)
    × (join_loop platform machine joining 5 0 ≡ some j)
    × (request_join machine.marshal_join
          (machine.http_post j)
          (codes "node1:9000")
          (codes "node1")
          (codes "localhost:9090")
        ≡ ok tt)
    × ((i : ℕ)
        → i < j
        → Fails (
            request_join machine.marshal_join
              (machine.http_post i)
              (codes "node1:9000")
              (codes "node1")
              (codes "localhost:9090")))
join_loop_lem_example =
    Joining.join_loop_lem platform machine joining 3 5 admitted refused (omega arith)

join_loop_test : join_loop platform machine joining 5 0 ≡ some 2
unfolding join_loop ask_join request_join
join_loop_test = refl

abbrev node2 : RaftNode
node2 = record { local_id = codes "node1"; addr = codes "localhost:9090" }

-- The parts of the server that `start` returns on this machine.
abbrev server : Server (GoMap Text Text)
server = record {
  store = set_raft (some (rafter library)) (
      new_store (codes "./data")
        (set_region (new_meta_store bolt (constant bucket_meta) []) (codes "us-east-1")) []);
  node = node2;
  handler =
      set_joiner (some (add_voter library)) (new_handler (codes "minioadmin") (codes "minioadmin"));
  listen = codes ":9000";
  tls = false;
  max_age = 86400;
}

started : start platform machine 5 joining ≡ ok (some server)
unfolding start open_parts open_meta_store open_bucket_db new_with_meta new_node bootstrap_if
    join_if join_loop ask_join request_join text_eq
started = refl

start-IsWired_example :
    IsWired platform machine joining server.store
    × (server.handler.access_key ≡ joining.access_key)
    × (server.handler.secret_key ≡ joining.secret_key)
    × (server.handler.joiner ≡ some (add_voter machine.raft))
    × (joining.bootstrap ≡ true → bootstrap machine.raft server.node ≡ ok tt)
    × (joining.join ≢ []
        → (k : ℕ) × (request_join machine.marshal_join
              (machine.http_post k)
              (codes "node1:9000")
              (codes "node1")
              (codes "localhost:9090")
            ≡ ok tt))
start-IsWired_example = Wiring.start-IsWired platform machine 5 joining server started
