-- ===== src/Server/Joining.antt =====
-- cmd/server/main.go, internal/api/join.go: the loop in which a node asks to be admitted, and its
-- request together with the endpoint that answers it.
use jario.Base.{
  ℕ, suc, zero, ◌+◌, ◌≤◌, ◌<◌, ◌≡◌, refl, ◌≢◌, ◌↔◌, Bool-cases, [], some, arith, false, ◌==◌, ◌||◌,
  if◌then◌else◌, inl, inr,
}
use jario.Text.{Text, codes, text_eq, text_eq_iff, text_eq_inst, has_prefix}
use jario.Text.Laws.{text_eq_refl}
use jario.Outcome.{
  Error, Outcome, ok, err, panic, other, not_leader, bucket_exists, no_bucket, no_key,
  invalid_upload_id, Outcome-cases,
}
use jario.Store.State.{Store, Env}
use jario.Api.Http.{Request, Response, Platform, JoinPayload, Body, post}
use jario.Api.Join.{Joiner, Reply, http_error, joined, route_internal, join_url, request_join}
use jario.Api.Route.{Handler, serve_http}
use jario.Config.{Config}
use jario.Server.{Machine, ask_join, join_loop}

abbrev pub Fails : Outcome (Unit {0}) → Type 0
Fails r = (e : Error) × (r ≡ err e)

module _ (platform : Platform) (machine : Machine platform) (cfg : Config) where
  abbrev attempt : ℕ → Outcome (Unit {0})
  attempt k = ask_join platform machine cfg k

  -- From the call number `k` on: some call at most `n` further on is the first to succeed.
  abbrev Joins : (fuel n k : ℕ) → Type 0
  Joins fuel n k =
      (j : ℕ) × (j ≤ n)
      × (join_loop platform machine cfg fuel k ≡ some (k + j))
      × (attempt (k + j) ≡ ok tt)
      × ((i : ℕ) → i < j → Fails (attempt (k + i)))

  Joins-now : (fuel n k : ℕ) → attempt k ≡ ok tt → Joins (suc fuel) n k
  unfolding join_loop
  Joins-now fuel n k done = (
    0,
    omega arith,
    ground (arith, done),
    ground (arith, done),
    λ i below. absurd (omega (arith, below)),
  )

  Fails-before :
      (k j : ℕ) (e : Error)
      → attempt k ≡ err e
      → ((i : ℕ) → i < j → Fails (attempt (k + 1 + i)))
      → (i : ℕ) → i < suc j
      → Fails (attempt (k + i))
  Fails-before k j e failed before zero below = (e, ground (arith, failed))
  Fails-before k j e failed before (suc i) below =
      let (e', h) = before i (omega (arith, below)) in (e', ground (arith, h))

  Joins-later :
      (fuel n k : ℕ) (e : Error)
      → attempt k ≡ err e
      → Joins fuel n (k + 1)
      → Joins (suc fuel) (suc n) k
  unfolding join_loop
  Joins-later fuel n k e failed (j, within, found, done, before) = (
    suc j,
    omega (arith, within),
    ground (arith, failed, found),
    ground (arith, done),
    Fails-before k j e failed before,
  )

  join_loop-Joins :
      (fuel n k : ℕ)
      → attempt (k + n) ≡ ok tt
      → ((i : ℕ) → attempt (k + i) ≢ panic)
      → n < fuel
      → Joins fuel n k
  join_loop-Joins zero n k h calm enough = absurd (omega (arith, enough))
  join_loop-Joins (suc fuel) zero k h calm enough = Joins-now fuel zero k (ground (arith, h))
  join_loop-Joins (suc fuel) (suc n) k h calm enough = elim (Outcome-cases (attempt k)) [
    | inl (_, done) ↦ Joins-now fuel (suc n) k done
    | inr (inl (e, failed)) ↦ Joins-later fuel n k e failed (
        join_loop-Joins fuel n (k + 1) (ground (arith, h))
          (λ i bad. calm (suc i) (ground (arith, bad))) (omega (arith, enough)))
    | inr (inr bad) ↦ absurd (calm 0 (ground (arith, bad)))
  ]

  -- The loop in which a node asks the address of its configuration to admit it, by its node ID and
  -- its Raft address, ends if some of these requests succeeds: with more fuel than the number of
  -- that request it stops at the first that succeeds, and every one before it failed. No request
  -- panics.
  pub join_loop_lem :
      (n fuel : ℕ)
      → request_join machine.marshal_join (machine.http_post n) cfg.join cfg.node_id cfg.raft_addr
        ≡ ok tt
      → ((i : ℕ)
          → request_join machine.marshal_join
              (machine.http_post i)
              cfg.join
              cfg.node_id
              cfg.raft_addr
            ≢ panic)
      → n < fuel
      → (j : ℕ) × (j ≤ n)
        × (join_loop platform machine cfg fuel 0 ≡ some j)
        × (request_join machine.marshal_join
              (machine.http_post j)
              cfg.join
              cfg.node_id
              cfg.raft_addr
            ≡ ok tt)
        × ((i : ℕ)
            → i < j
            → Fails (
                request_join machine.marshal_join
                  (machine.http_post i)
                  cfg.join
                  cfg.node_id
                  cfg.raft_addr))
  unfolding ask_join
  join_loop_lem n fuel h calm enough =
      let (j, within, found, done, before) =
        join_loop-Joins fuel n 0 (ground (arith, h)) (λ i bad. calm i (ground (arith, bad)))
          enough in
      (
        j,
        within,
        ground (arith, found),
        ground (arith, done),
        λ i below. let (e, failed) = before i below in (e, ground (arith, failed)),
      )

-- The bytes and the status line that net/http makes of a response.
pub record Wire : Type 0 where
  pub render : Body → Text
  pub status_line : ℕ → Text

unfoldable pub delivered : Wire → Outcome Response → Outcome Reply
delivered wire (ok r) = ok (record {
  status_code = r.status;
  status = wire.status_line r.status;
  body = wire.render r.body;
})
delivered wire (err e) = err e
delivered wire panic = err (other (codes "EOF"))

-- An error of AddVoter is never answered with 200.
joined_refuses :
    (e : Error) → (r : Response) × (joined (err e) ≡ ok r) × ((r.status == 200) ≡ false)
unfolding joined
joined_refuses not_leader = (_, refl, refl)
joined_refuses bucket_exists = (_, refl, refl)
joined_refuses no_bucket = (_, refl, refl)
joined_refuses no_key = (_, refl, refl)
joined_refuses invalid_upload_id = (_, refl, refl)
joined_refuses (other problem) = (_, refl, refl)

module _ (platform : Platform) (wire : Wire) (request_of : (url body : Text) → Request)
    (h : Handler) (env : Env) (st : Store platform.bolt.Db) where
  -- http.Post of the joining node, answered by the handler of a member; net/http recovers from a
  -- panic of the handler and closes the connection.
  unfoldable pub post_to : (url body : Text) → Outcome Reply
  unfolding delivered
  post_to url body = delivered wire (serve_http platform h (request_of url body) env st).0

  -- What the endpoint answers to a payload that it can read.
  abbrev answer : Joiner → JoinPayload → Outcome Response
  answer add_voter p =
      if text_eq p.id [] || text_eq p.addr []
      then ok (http_error 400 (codes "id and addr are required"))
      else joined (add_voter p.id p.addr)

  serve_http-join :
      (r : Request) (add_voter : Joiner) (p : JoinPayload)
      → h.joiner ≡ some add_voter
      → platform.decode_join r.body ≡ ok p
      → r.method ≡ post
      → r.path ≡ codes "/internal/join"
      → (serve_http platform h r env st).0 ≡ answer add_voter p
  unfolding serve_http route_internal has_prefix text_eq
  serve_http-join r add_voter p admits back method path = rw (path, method, back, admits) refl

  module _ (marshal : JoinPayload → Outcome Text) where
    request_join-joined :
        (leader text : Text) (p : JoinPayload) (r : Outcome (Unit {0}))
        → marshal p ≡ ok text
        → post_to (join_url leader) text ≡ delivered wire (joined r)
        → (request_join marshal post_to leader p.id p.addr ≡ ok tt) ↔ (r ≡ ok tt)
    unfolding request_join delivered joined
    request_join-joined leader text p (ok _) written sent =
        (λ _. refl, λ _. rw (written, sent) refl)
    request_join-joined leader text p (err e) written sent =
        let (response, answered, status) = joined_refuses e in
        (λ h. absurd (ground (arith, written, sent, answered, status)), λ h. absurd (cc))
    request_join-joined leader text p panic written sent =
        (λ h. absurd (ground (arith, written, sent)), λ h. absurd (cc))

    request_join-delivered :
        (leader text : Text) (add_voter : Joiner) (p : JoinPayload)
        → marshal p ≡ ok text
        → post_to (join_url leader) text ≡ delivered wire (answer add_voter p)
        → (request_join marshal post_to leader p.id p.addr ≡ ok tt)
          ↔ ((p.id ≢ []) × (p.addr ≢ []) × (add_voter p.id p.addr ≡ ok tt))
    unfolding request_join delivered joined
    request_join-delivered leader text add_voter p written sent =
        elim (Bool-cases (text_eq p.id [] || text_eq p.addr [])) [
          | inl empty ↦ (
            λ h. absurd (ground (arith, written, sent, empty)),
            λ (named, placed, _).
                absurd (ground (arith, empty, text_eq_iff p.id [], text_eq_iff p.addr [])),
          )
          | inr full ↦
              let (only, also) =
                request_join-joined leader text p (add_voter p.id p.addr) written
                  (rw full at sent) in
              (
                λ h. (
                  ground (arith, full, text_eq_refl p.id),
                  ground (arith, full, text_eq_refl p.addr),
                  only h,
                ),
                λ (_, _, admitted). also admitted,
              )
        ]

    -- The request by which a node joins, sent to the handler of a member and answered over the
    -- wire, succeeds exactly if the ID and the address of the node are not empty and the member
    -- admits the node as a voter. The handler has a joiner, the payload is read back from JSON,
    -- and the request arrives as a POST of that payload to the path of the endpoint.
    pub request_join-route_internal :
        (leader id addr text : Text) (add_voter : Joiner)
        → h.joiner ≡ some add_voter
        → marshal (record { id = id; addr = addr }) ≡ ok text
        → platform.decode_join text ≡ ok (record { id = id; addr = addr })
        → (request_of (join_url leader) text).method ≡ post
        → (request_of (join_url leader) text).path ≡ codes "/internal/join"
        → (request_of (join_url leader) text).body ≡ text
        → (request_join marshal post_to leader id addr ≡ ok tt)
          ↔ ((id ≢ []) × (addr ≢ []) × (add_voter id addr ≡ ok tt))
    unfolding post_to
    request_join-route_internal leader id addr text add_voter admits written back method path body =
        request_join-delivered leader text add_voter (record { id = id; addr = addr }) written
          (rw
            (serve_http-join (request_of (join_url leader) text) add_voter
              (record { id = id; addr = addr }) admits (rw body back) method path)
            refl)
