-- ===== src/Raft/Replicas.antt =====
-- internal/store/store.go and internal/raft: what replication keeps and what it hides.
use jario.Base.{ℕ, ◌≡◌, refl, ◌∙◌, ◌≢◌, true, false, List, [], ◌∷◌, none, some, arith}
use jario.Text.{Text, text_eq, text_eq_inst}
use jario.Text.Laws.{text_eq_refl}
use jario.Text.Decimal.{format_int}
use jario.Outcome.{Outcome, ok, err, panic, no_bucket, not_leader, Codec, RoundTrips}
use jario.MetaStore.Versions.{ObjectMeta, VersionState, with_version_id}
use jario.MetaStore.Ops.{
  MetaStore, find_key, is_cached, put_object, delete_object, get_object_version, marker,
}
use jario.MetaStore.Lookups.{Opened}
use jario.MetaStore.Invariant.{IsOpen}
use jario.MetaStore.Behaviour.{delete_marker_reads}
use jario.Raft.Effects.{Effect, nothing, puts, deletes, effect, run, apply_op-effect}
use jario.Raft.Fsm.{
  RaftOp, Raft, put_op, delete_op, put_kind, apply_op, fsm_apply, node_apply, raft_apply, forget,
  ignore_response,
}

ignore_response_lem :
    {S : Type 0} (r : Outcome (Unit {0}) × S)
    → r.0 ≢ panic
    → ((ignore_response r).0 ≡ ok tt) × ((ignore_response r).1 ≡ r.1)
ignore_response_lem (ok tt, s) h = (refl, refl)
ignore_response_lem (err e, s) h = (refl, refl)
ignore_response_lem (panic, s) h = absurd (h refl)

module _ {Db : Type 0} (json : Codec ObjectMeta) where
  pub apply_op-put :
      (m : MetaStore Db) (bucket key text : Text) (meta : ObjectMeta) (now : ℕ)
      → json.unmarshal text ≡ ok meta
      → apply_op json m (put_op bucket key text) now ≡ forget (put_object m bucket key meta)
  unfolding apply_op
  apply_op-put m bucket key text meta now h = rw (text_eq_refl put_kind, h)

  pub apply_op-delete :
      (m : MetaStore Db) (bucket key : Text) (now : ℕ)
      → apply_op json m (delete_op bucket key) now ≡ forget (delete_object m bucket key [] now)
  unfolding apply_op text_eq
  apply_op-delete m bucket key now = refl

pub put_object-unknown :
    {Db : Type 0} (m : MetaStore Db) (bucket key : Text) (meta : ObjectMeta)
    → is_cached m bucket ≡ false
    → put_object m bucket key meta ≡ (err no_bucket, m)
unfolding put_object
put_object-unknown m bucket key meta h = rw h

module _ {Db : Type 0} (json : Codec ObjectMeta) (op_json : Codec RaftOp) where
  fsm_apply-eq :
      (m : MetaStore Db) (op : RaftOp) (log_data : Text) (now : ℕ)
      → op_json.unmarshal log_data ≡ ok op
      → fsm_apply json op_json m log_data now ≡ apply_op json m op now
  unfolding fsm_apply
  fsm_apply-eq m op log_data now h = rw (h, fsm_apply)

  pub raft_apply-committed :
      (raft : Raft) (m : MetaStore Db) (op : RaftOp) (log_data : Text) (now : ℕ)
      → raft.is_leader ≡ true
      → op_json.marshal op ≡ ok log_data
      → raft.future log_data ≡ none
      → op_json.unmarshal log_data ≡ ok op
      → raft_apply json op_json (some raft) m op now ≡ ignore_response (apply_op json m op now)
  unfolding raft_apply node_apply
  raft_apply-committed raft m op log_data now leads written committed back =
      ground (arith, leads, written, committed, fsm_apply-eq m op log_data now back)

  -- On a leader whose log entry is committed and read back, an operation that does not panic has
  -- the effect that it has without Raft, and reports success, whether or not it failed.
  pub raft_apply-apply_op :
      (raft : Raft) (m : MetaStore Db) (op : RaftOp) (log_data : Text) (now : ℕ)
      → raft.is_leader ≡ true
      → op_json.marshal op ≡ ok log_data
      → raft.future log_data ≡ none
      → RoundTrips op_json op
      → (apply_op json m op now).0 ≢ panic
      → ((raft_apply json op_json (some raft) m op now).0 ≡ ok tt)
        × ((raft_apply json op_json (some raft) m op now).1
            ≡ (raft_apply json op_json none m op now).1)
  raft_apply-apply_op raft m op log_data now leads written committed trips calm =
      rw
        (raft_apply-committed raft m op log_data now leads written committed
          (trips log_data written))
        (unfold raft_apply in ignore_response_lem (apply_op json m op now) calm)

  -- A node that does not lead refuses every operation and changes nothing.
  pub raft_apply-not_leader :
      (raft : Raft) (m : MetaStore Db) (op : RaftOp) (now : ℕ)
      → raft.is_leader ≡ false
      → raft_apply json op_json (some raft) m op now ≡ (err not_leader, m)
  unfolding raft_apply
  raft_apply-not_leader raft m op now follows = rw follows

  -- A put into a bucket that the node does not know is an error without Raft, and with it, on a
  -- leader whose log entry is committed and read back, a success that stores nothing.
  pub put_unknown_bucket :
      (raft : Raft) (m : MetaStore Db) (bucket key text log_data : Text) (meta : ObjectMeta)
      (now : ℕ)
      → raft.is_leader ≡ true
      → op_json.marshal (put_op bucket key text) ≡ ok log_data
      → raft.future log_data ≡ none
      → RoundTrips op_json (put_op bucket key text)
      → json.unmarshal text ≡ ok meta
      → is_cached m bucket ≡ false
      → (raft_apply json op_json none m (put_op bucket key text) now ≡ (err no_bucket, m))
        × (raft_apply json op_json (some raft) m (put_op bucket key text) now ≡ (ok tt, m))
  put_unknown_bucket raft m bucket key text log_data meta now leads written committed trips read
        unknown =
      let refused : apply_op json m (put_op bucket key text) now ≡ (err no_bucket, m) = rw (
        apply_op-put json m bucket key text meta now read,
        put_object-unknown m bucket key meta unknown,
      ) in
      (
        unfold raft_apply in refused,
        rw (
          raft_apply-committed raft m (put_op bucket key text) log_data now leads written committed
              (trips log_data written),
          refused,
        ),
      )

-- Two nodes know the same buckets and hold the same versions; their databases may differ.
abbrev pub Agree : {Db Db' : Type 0} → MetaStore Db → MetaStore Db' → Type 0
Agree a b = (a.cache ≡ b.cache) × (a.objects ≡ b.objects)

module _ {Db Db' : Type 0} where
  put_object-Agree :
      (a : MetaStore Db) (b : MetaStore Db') (bucket key : Text) (meta : ObjectMeta)
      → Agree a b
      → Agree (put_object a bucket key meta).1 (put_object b bucket key meta).1
  unfolding put_object
  put_object-Agree a b bucket key meta h = ground arith

  delete_object-Agree :
      (a : MetaStore Db) (b : MetaStore Db') (bucket key vid : Text) (now : ℕ)
      → Agree a b
      → Agree (delete_object a bucket key vid now).1 (delete_object b bucket key vid now).1
  unfolding delete_object
  delete_object-Agree a b bucket key vid now h = ground arith

  run-Agree :
      (effect : Effect) (a : MetaStore Db) (b : MetaStore Db') (op : RaftOp) (now : ℕ)
      → Agree a b
      → Agree (run a op now effect) (run b op now effect)
  run-Agree nothing a b op now h = h
  run-Agree (puts meta) a b op now h = put_object-Agree a b op.bucket op.key meta h
  run-Agree (deletes vid) a b op now h = delete_object-Agree a b op.bucket op.key vid now h

  put_object-same :
      (a : MetaStore Db) (b : MetaStore Db') (bucket key : Text) (meta : ObjectMeta)
      → Agree a b
      → (put_object a bucket key meta).0 ≡ (put_object b bucket key meta).0
  unfolding put_object
  put_object-same a b bucket key meta h = ground arith

  delete_object-same :
      (a : MetaStore Db) (b : MetaStore Db') (bucket key vid : Text) (now : ℕ)
      → Agree a b
      → (delete_object a bucket key vid now).0 ≡ (delete_object b bucket key vid now).0
  unfolding delete_object
  delete_object-same a b bucket key vid now h = ground arith

  apply_op-same :
      (json : Codec ObjectMeta) (a : MetaStore Db) (b : MetaStore Db') (op : RaftOp) (now : ℕ)
      → Agree a b
      → (apply_op json a op now).0 ≡ (apply_op json b op now).0
  unfolding apply_op
  apply_op-same json a b op now h =
      let puts : (meta : ObjectMeta)
          → (put_object a op.bucket op.key meta).0 ≡ (put_object b op.bucket op.key meta).0 =
        λ meta. put_object-same a b op.bucket op.key meta h in
      grind (
        arith,
        puts,
        delete_object-same a b op.bucket op.key [] now h,
        delete_object-same a b op.bucket op.key op.version_id now h,
      )

  apply_op-Agree :
      (json : Codec ObjectMeta) (a : MetaStore Db) (b : MetaStore Db') (op : RaftOp) (now : ℕ)
      → Agree a b
      → ((apply_op json a op now).0 ≡ (apply_op json b op now).0)
        × Agree (apply_op json a op now).1 (apply_op json b op now).1
  apply_op-Agree json a b op now h = (
    apply_op-same json a b op now h,
    rw (apply_op-effect json a op now, apply_op-effect json b op now)
        (run-Agree (effect json op) a b op now h),
  )

-- The entries of a log, each with the clock of the node when it applies the entry.
unfoldable pub replay :
    {Db : Type 0} → Codec ObjectMeta → List (RaftOp × ℕ) → MetaStore Db → MetaStore Db
replay json [] m = m
replay json ((op, now) ∷ log) m = replay json log (apply_op json m op now).1

-- What `ApplyOp` returns for each of them.
unfoldable pub responses :
    {Db : Type 0} → Codec ObjectMeta → List (RaftOp × ℕ) → MetaStore Db → List (Outcome (Unit {0}))
responses json [] m = []
responses json ((op, now) ∷ log) m =
    (apply_op json m op now).0 ∷ responses json log (apply_op json m op now).1

-- Two nodes that know the same buckets and hold the same versions, and apply one log by one clock,
-- return the same for each entry, be it a success, an error or a panic, and know the same buckets
-- and hold the same versions afterwards: the replicated operations read no other state of the
-- node, neither its database nor its region.
pub replay-Agree :
    {Db Db' : Type 0} (json : Codec ObjectMeta) (log : List (RaftOp × ℕ)) (a : MetaStore Db)
    (b : MetaStore Db')
    → Agree a b
    → (responses json log a ≡ responses json log b) × Agree (replay json log a) (replay json log b)
unfolding replay responses
replay-Agree json [] a b h = (refl, h)
replay-Agree json ((op, now) ∷ log) a b h =
    let (same, agree) = apply_op-Agree json a b op now h in
    let (rest, after) =
      replay-Agree json log (apply_op json a op now).1 (apply_op json b op now).1 agree in
    (cc (same, rest), after)

find_key-Agree :
    {Db : Type 0} (a b : MetaStore Db) (bucket key : Text)
    → Agree a b
    → find_key b bucket key ≡ find_key a bucket key
unfolding find_key
find_key-Agree a b bucket key h = ground arith

marker_reads :
    {Db : Type 0} (json : Codec ObjectMeta) (m : MetaStore Db) (bucket key : Text)
    (vst : VersionState) (now : ℕ)
    → Opened m bucket
    → find_key m bucket key ≡ some vst
    → IsOpen key vst
    → get_object_version
        (apply_op json m (delete_op bucket key) now).1
        bucket
        key
        (format_int vst.next_id)
      ≡ ok (with_version_id (marker key now) vst.next_id)
marker_reads json m bucket key vst now o h v =
    rw (apply_op-delete json m bucket key now) (delete_marker_reads m bucket key now vst o h v)

-- Two nodes that hold the same versions and apply one DELETE of a key at different times do not
-- read the same delete marker afterwards. The bucket is open, the versions of the key are
-- numbered, and an ID is left.
pub delete_marker_diverges :
    {Db : Type 0} (json : Codec ObjectMeta) (a b : MetaStore Db) (bucket key : Text)
    (vst : VersionState) (now_a now_b : ℕ)
    → Agree a b
    → Opened a bucket
    → find_key a bucket key ≡ some vst
    → IsOpen key vst
    → now_a ≢ now_b
    → get_object_version
        (apply_op json a (delete_op bucket key) now_a).1
        bucket
        key
        (format_int vst.next_id)
      ≢ get_object_version
          (apply_op json b (delete_op bucket key) now_b).1
          bucket
          key
          (format_int vst.next_id)
delete_marker_diverges json a b bucket key vst now_a now_b agree o h v ne same =
    let o' : Opened b bucket = (rw (← agree.0) (o.0), o.1, rw (← agree.1) (o.2)) in
    let h' : find_key b bucket key ≡ some vst = find_key-Agree a b bucket key agree ∙ h in
    let reads = marker_reads json a bucket key vst now_a o h v in
    let reads' = marker_reads json b bucket key vst now_b o' h' v in ne (cc (reads, reads', same))
