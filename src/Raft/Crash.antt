-- ===== src/Raft/Crash.antt =====
-- internal/raft/fsm.go and internal/store/meta.go: a restart without a snapshot.
use jario.Base.{
  ℕ, ◌≡◌, refl, ◌≢◌, Bool, true, false, List, [], ◌∷◌, arith, if◌then◌else◌, Bool-cases, inl, inr,
}
use jario.Text.{Text, text_eq, text_eq_inst}
use jario.Outcome.{Outcome, ok, err, panic, no_bucket, no_key, Codec, Outcome-cases}
use jario.GoMap.{lookup}
use jario.BucketDb.{Bolt, BucketMeta}
use jario.BucketDb
use jario.MetaStore.Versions.{ObjectMeta}
use jario.MetaStore.Ops.{MetaStore, new_meta_store, load_cache, delete_object}
use jario.MetaStore.Reopen.{has_name, flag-cache_from, put_object-new_meta_store}
use jario.Raft.Fsm.{RaftOp, apply_op, fsm_apply, put_kind}
use jario.Raft.Snapshots.{recover}

module _ (bolt : Bolt) (bucket_json : Codec BucketMeta) (json : Codec ObjectMeta)
    (op_json : Codec RaftOp) (db : bolt.Db) where
  abbrev opened : MetaStore bolt.Db
  opened = new_meta_store bolt bucket_json db

  -- The database lists the bucket.
  abbrev is_listed : Text → Bool
  is_listed b = has_name b (BucketDb.list bolt bucket_json db).0

  -- The entry is a put, with readable metadata, into a bucket that the database lists.
  abbrev readable : Outcome ObjectMeta → Bool
  readable (ok meta) = true
  readable _ = false

  abbrev pub puts_listed : Outcome RaftOp → Bool
  puts_listed (ok op) =
      if text_eq op.kind put_kind
      then if readable (json.unmarshal op.meta) then is_listed op.bucket else false
      else false
  puts_listed _ = false

  abbrev pub any_put : List (Text × ℕ) → Bool
  any_put [] = false
  any_put ((log_data, now) ∷ log) =
      if puts_listed (op_json.unmarshal log_data) then true else any_put log

  delete_object-opened :
      (b k vid : Text) (now : ℕ)
      → delete_object opened b k vid now
        ≡ ((if is_listed b then err no_key else err no_bucket), opened)
  unfolding delete_object new_meta_store load_cache lookup
  delete_object-opened b k vid now =
      ground (arith, flag-cache_from b [] (BucketDb.list bolt bucket_json db).0)

  -- encoding/json returns errors; it does not panic.
  module _ (calm : (s : Text) → json.unmarshal s ≢ panic)
      (op_calm : (s : Text) → op_json.unmarshal s ≢ panic) where
    apply_op-opened :
        (op : RaftOp) (now : ℕ)
        → ((apply_op json opened op now).1 ≡ opened)
          × (puts_listed (ok op) ≡ true → (apply_op json opened op now).0 ≡ panic)
          × (puts_listed (ok op) ≡ false → (apply_op json opened op now).0 ≢ panic)
    unfolding apply_op
    apply_op-opened op now = elim (Outcome-cases (json.unmarshal op.meta)) [
      | inl (meta, read) ↦
          let put = (put_object-new_meta_store bolt bucket_json db op.bucket op.key meta).1 in
          (
            ground (arith, put, plain, versioned),
            ground (arith, put, plain, versioned),
            ground (arith, put, plain, versioned),
          )
      | inr (inl (e, bad)) ↦ (
        ground (arith, plain, versioned),
        ground (arith, plain, versioned),
        ground (arith, plain, versioned),
      )
      | inr (inr bad) ↦ absurd (calm op.meta bad)
    ]
      where
        plain :
            delete_object opened op.bucket op.key [] now
            ≡ ((if is_listed op.bucket then err no_key else err no_bucket), opened)
        plain = delete_object-opened op.bucket op.key [] now

        versioned :
            delete_object opened op.bucket op.key op.version_id now
            ≡ ((if is_listed op.bucket then err no_key else err no_bucket), opened)
        versioned = delete_object-opened op.bucket op.key op.version_id now

    fsm_apply-opened :
        (log_data : Text) (now : ℕ)
        → ((fsm_apply json op_json opened log_data now).1 ≡ opened)
          × (puts_listed (op_json.unmarshal log_data) ≡ true
              → (fsm_apply json op_json opened log_data now).0 ≡ panic)
          × (puts_listed (op_json.unmarshal log_data) ≡ false
              → (fsm_apply json op_json opened log_data now).0 ≢ panic)
    unfolding fsm_apply
    fsm_apply-opened log_data now = elim (Outcome-cases (op_json.unmarshal log_data)) [
      | inl (op, read) ↦ rw (read, fsm_apply) (apply_op-opened op now)
      | inr (inl (e, bad)) ↦ rw (bad, fsm_apply) (refl, λ h. absurd (cc), λ h k. cc)
      | inr (inr bad) ↦ absurd (op_calm log_data bad)
    ]

    -- A node that restarts without a snapshot panics, while it applies its log again, exactly if
    -- the log has a put with readable metadata into a bucket that its database lists; the store
    -- stays as it was opened in any case. encoding/json does not panic.
    pub recover-new_meta_store :
        (log : List (Text × ℕ))
        → recover json op_json log opened ≡ ((if any_put log then panic else ok tt), opened)
    unfolding recover
    recover-new_meta_store [] = refl
    recover-new_meta_store ((log_data, now) ∷ log) =
        let (same, crash, calm) = fsm_apply-opened log_data now in
        elim (Bool-cases (puts_listed (op_json.unmarshal log_data))) [
          | inl put ↦ ground (arith, same, crash put, put)
          | inr other ↦ ground (arith, same, calm other, other, recover-new_meta_store log)
        ]
