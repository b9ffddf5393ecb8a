-- ===== src/Raft/Recovery.antt =====
-- internal/raft/fsm.go: a node that restores a snapshot and applies the rest of its log.
use jario.Base.{ℕ, ◌≡◌, refl, ◌∙◌, List, [], ◌∷◌, some, arith, inl, inr, Bool-cases, Option-cases}
use jario.Text.{Text, text_eq, text_eq_inst}
use jario.Outcome.{Codec}
use jario.GoMap.{
  GoMap, lookup, insert, delete, IsMap, insert-IsMap, delete-IsMap, insert-Every, lookup-Every,
}
use jario.MetaStore.Versions.{ObjectMeta, VersionEntry, VersionState, remove_version}
use jario.MetaStore.Ops.{MetaStore, is_cached, keep_versions, put_object, delete_object}
use jario.MetaStore.Snapshot.{AreMaps}
use jario.Raft.Fsm.{RaftOp, apply_op}
use jario.Raft.Effects.{Effect, nothing, puts, deletes, effect, run, apply_op-effect}
use jario.Raft.Replicas.{replay}

-- The maps of a node keep one entry a key.
module _ {Db : Type 0} (m : MetaStore Db) (maps : AreMaps m.objects) where
  set_key-AreMaps :
      (b k : Text) (objs : GoMap Text VersionState) (vs : VersionState)
      → lookup b m.objects ≡ some objs
      → AreMaps (insert b (insert k vs objs) m.objects)
  set_key-AreMaps b k objs vs found =
      let keys = lookup-Every (λ _ o. IsMap o) b m.objects objs found maps.1 in
      (
        insert-IsMap b (insert k vs objs) m.objects maps.0,
        insert-Every (λ _ o. IsMap o) b (insert k vs objs) m.objects (insert-IsMap k vs objs keys)
            maps.1,
      )

  keep_versions-AreMaps :
      (b k : Text) (objs : GoMap Text VersionState) (vst : VersionState) (rest : List VersionEntry)
      → lookup b m.objects ≡ some objs
      → AreMaps (keep_versions m b k objs vst rest).objects
  keep_versions-AreMaps b k objs vst [] found =
      let keys = lookup-Every (λ _ o. IsMap o) b m.objects objs found maps.1 in
      (
        insert-IsMap b (delete k objs) m.objects maps.0,
        insert-Every (λ _ o. IsMap o) b (delete k objs) m.objects (delete-IsMap k objs keys) maps.1,
      )
  keep_versions-AreMaps b k objs vst (e ∷ es) found = set_key-AreMaps b k objs _ found

  put_object-AreMaps : (b k : Text) (meta : ObjectMeta) → AreMaps (put_object m b k meta).1.objects
  unfolding put_object
  put_object-AreMaps b k meta = elim (Bool-cases (is_cached m b)) [
    | inr unknown ↦ rw unknown maps
    | inl cached ↦ elim (Option-cases (lookup b m.objects)) [
      | inl missing ↦ rw (cached, missing, put_object) maps
      | inr (objs, found) ↦ rw (cached, found, put_object) (set_key-AreMaps b k objs _ found)
    ]
  ]

  delete_object-AreMaps :
      (b k vid : Text) (now : ℕ) → AreMaps (delete_object m b k vid now).1.objects
  unfolding delete_object
  delete_object-AreMaps b k vid now = elim (Bool-cases (is_cached m b)) [
    | inr unknown ↦ rw unknown maps
    | inl cached ↦ elim (Option-cases (lookup b m.objects)) [
      | inl missing ↦ rw (cached, missing, delete_object) maps
      | inr (objs, found) ↦ elim (Option-cases (lookup k objs)) [
        | inl no_key ↦ rw (cached, found, no_key, delete_object) maps
        | inr (vst, there) ↦ elim (Bool-cases (text_eq vid [])) [
          | inl plain ↦
              rw (cached, found, there, plain, delete_object) (set_key-AreMaps b k objs _ found)
          | inr versioned ↦ elim (Option-cases (remove_version vid vst.versions)) [
            | inl missing ↦ rw (cached, found, there, versioned, missing, delete_object) maps
            | inr (rest, removed) ↦
                rw (cached, found, there, versioned, removed, delete_object)
                  (keep_versions-AreMaps b k objs vst rest found)
          ]
        ]
      ]
    ]
  ]

  run-AreMaps : (effect : Effect) (op : RaftOp) (now : ℕ) → AreMaps (run m op now effect).objects
  run-AreMaps nothing op now = maps
  run-AreMaps (puts meta) op now = put_object-AreMaps op.bucket op.key meta
  run-AreMaps (deletes vid) op now = delete_object-AreMaps op.bucket op.key vid now

  pub apply_op-AreMaps :
      (json : Codec ObjectMeta) (op : RaftOp) (now : ℕ) → AreMaps (apply_op json m op now).1.objects
  apply_op-AreMaps json op now =
      rw (apply_op-effect json m op now) (run-AreMaps (effect json op) op now)

-- No log entry changes which buckets a node knows.
module _ {Db : Type 0} where
  run-knows :
      (effect : Effect) (m : MetaStore Db) (op : RaftOp) (now : ℕ) (name : Text)
      → is_cached (run m op now effect) name ≡ is_cached m name
  unfolding put_object delete_object
  run-knows nothing m op now name = refl
  run-knows (puts meta) m op now name = ground arith
  run-knows (deletes vid) m op now name = ground arith

  pub apply_op-knows :
      (json : Codec ObjectMeta) (m : MetaStore Db) (op : RaftOp) (now : ℕ) (name : Text)
      → is_cached (apply_op json m op now).1 name ≡ is_cached m name
  apply_op-knows json m op now name =
      rw (apply_op-effect json m op now) (run-knows (effect json op) m op now name)

  pub replay-knows :
      (json : Codec ObjectMeta) (log : List (RaftOp × ℕ)) (m : MetaStore Db) (name : Text)
      → is_cached (replay json log m) name ≡ is_cached m name
  unfolding replay
  replay-knows json [] m name = refl
  replay-knows json ((op, now) ∷ log) m name =
      replay-knows json log (apply_op json m op now).1 name ∙ apply_op-knows json m op now name

-- Two nodes know the same buckets, in whatever order, and hold the same versions.
pub record Alike {Db Db' : Type 0} (a : MetaStore Db) (b : MetaStore Db') : Type 0 where
  pub knows : (name : Text) → is_cached a name ≡ is_cached b name
  pub holds : a.objects ≡ b.objects

module _ {Db Db' : Type 0} where
  run-Alike :
      (effect : Effect) (a : MetaStore Db) (b : MetaStore Db') (op : RaftOp) (now : ℕ)
      → Alike a b
      → Alike (run a op now effect) (run b op now effect)
  unfolding put_object delete_object
  run-Alike nothing a b op now h = h
  run-Alike (puts meta) a b op now h = record {
    knows = λ name. ground (arith, h.knows op.bucket, h.knows name, h.holds);
    holds = ground (arith, h.knows op.bucket, h.holds);
  }
  run-Alike (deletes vid) a b op now h = record {
    knows = λ name. ground (arith, h.knows op.bucket, h.knows name, h.holds);
    holds = ground (arith, h.knows op.bucket, h.holds);
  }

  pub apply_op-Alike :
      (json : Codec ObjectMeta) (a : MetaStore Db) (b : MetaStore Db') (op : RaftOp) (now : ℕ)
      → Alike a b
      → Alike (apply_op json a op now).1 (apply_op json b op now).1
  apply_op-Alike json a b op now h =
      rw (apply_op-effect json a op now, apply_op-effect json b op now)
        (run-Alike (effect json op) a b op now h)

  pub replay-Alike :
      (json : Codec ObjectMeta) (log : List (RaftOp × ℕ)) (a : MetaStore Db) (b : MetaStore Db')
      → Alike a b
      → Alike (replay json log a) (replay json log b)
  unfolding replay
  replay-Alike json [] a b h = h
  replay-Alike json ((op, now) ∷ log) a b h =
      replay-Alike json log (apply_op json a op now).1 (apply_op json b op now).1
        (apply_op-Alike json a b op now h)
