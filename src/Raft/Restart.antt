-- ===== src/Raft/Restart.antt =====
-- internal/raft/fsm.go: snapshots taken while entries are applied, and a restart.
use jario.Base.{
  ℕ, ◌≡◌, ◌≤◌, refl, sym, ap, ◌∙◌, List, [], ◌∷◌, ◌++◌, Option, none, some, arith, drop, length,
  length-append, zero, suc,
}
use jario.Text.{Text, text_eq_inst}
use jario.Outcome.{Codec}
use jario.MetaStore.Versions.{ObjectMeta}
use jario.MetaStore.Ops.{MetaStore, Objects, is_cached}
use jario.MetaStore.Snapshot.{AreMaps}
use jario.Raft.Fsm.{RaftOp, apply_op}
use jario.Raft.Replicas.{replay}
use jario.Raft.Recovery.{apply_op-Alike, apply_op-AreMaps, apply_op-knows, replay-knows}

-- A node, the entries that it has applied since its first snapshot, the index of a snapshot that it
-- has taken and not yet written, and the last one that it has written.
pub record Replica (Db : Type 0) : Type 0 where
  pub live : MetaStore Db
  pub log : List (RaftOp × ℕ)
  pub taken : Option ℕ
  pub index : ℕ
  pub saved : Objects

abbrev pub started : {Db : Type 0} → MetaStore Db → Replica Db
started m = record { live = m; log = []; taken = none; index = 0; saved = m.objects }

abbrev pub after_apply : {Db : Type 0} → Codec ObjectMeta → Replica Db → RaftOp → ℕ → Replica Db
after_apply json r op now = record r {
  live = (apply_op json r.live op now).1;
  log = r.log ++ (op, now) ∷ [];
}

-- `Persist` writes the live store, whatever has happened since `Snapshot`.
abbrev pub after_persist : {Db : Type 0} → Replica Db → ℕ → Replica Db
after_persist r i = record r { taken = none; index = i; saved = r.live.objects }

-- The steps of a node that applies no entry between `Snapshot` and `Persist`.
pub data Step {Db : Type 0} (json : Codec ObjectMeta) (r : Replica Db) : Replica Db → Type 0 where
  applies : (op : RaftOp) (now : ℕ) → r.taken ≡ none → Step json r (after_apply json r op now)
  snapshots : Step json r (record r { taken = some (length r.log) })
  persists : (i : ℕ) → r.taken ≡ some i → Step json r (after_persist r i)

pub data Reach {Db : Type 0} (json : Codec ObjectMeta) (m : MetaStore Db)
    : Replica Db → Type 0 where
  here : Reach json m (started m)
  next : {r s : Replica Db} → Reach json m r → Step json r s → Reach json m s

-- The written snapshot and the entries behind it give the live store.
pub record IsFaithful {Db : Type 0} (json : Codec ObjectMeta) (m : MetaStore Db) (r : Replica Db)
    : Type 0 where
  pub same_buckets : (name : Text) → is_cached r.live name ≡ is_cached m name
  pub current : (i : ℕ) → r.taken ≡ some i → i ≡ length r.log
  pub within : r.index ≤ length r.log
  pub rebuilt :
      (replay json (drop r.index r.log) (record m { objects = r.saved })).objects ≡ r.live.objects
  pub saved-AreMaps : AreMaps r.saved
  pub live-AreMaps : AreMaps r.live.objects

drop_all {ℓ} : {A : Type ℓ} (xs : List A) → drop (length xs) xs ≡ []
drop_all [] = refl
drop_all (x ∷ xs) = drop_all xs

drop-snoc {ℓ} :
    {A : Type ℓ} (n : ℕ) (xs : List A) (x : A)
    → n ≤ length xs
    → drop n (xs ++ x ∷ []) ≡ drop n xs ++ x ∷ []
drop-snoc zero xs x h = refl
drop-snoc (suc n) [] x h = absurd (omega arith)
drop-snoc (suc n) (y ∷ xs) x h = drop-snoc n xs x (omega arith)

module _ {Db : Type 0} (json : Codec ObjectMeta) where
  replay-snoc :
      (log : List (RaftOp × ℕ)) (op : RaftOp) (now : ℕ) (m : MetaStore Db)
      → replay json (log ++ (op, now) ∷ []) m ≡ (apply_op json (replay json log m) op now).1
  unfolding replay
  replay-snoc [] op now m = refl
  replay-snoc ((o, n) ∷ log) op now m = replay-snoc log op now (apply_op json m o n).1

  apply-IsFaithful :
      (m : MetaStore Db) (r : Replica Db) (op : RaftOp) (now : ℕ)
      → r.taken ≡ none
      → IsFaithful json m r
      → IsFaithful json m (after_apply json r op now)
  apply-IsFaithful m r op now idle f = record {
    same_buckets = λ name. apply_op-knows json r.live op now name ∙ f.same_buckets name;
    current = λ i taken. absurd (cc);
    within = omega (arith, length-append r.log ((op, now) ∷ []), f.within);
    rebuilt =
        ap (λ log. (replay json log base).objects) (drop-snoc r.index r.log (op, now) f.within)
        ∙ (ap (λ (s : MetaStore Db). s.objects) (replay-snoc (drop r.index r.log) op now base)
            ∙ (apply_op-Alike json (replay json (drop r.index r.log) base) r.live op now (record {
              knows = λ name.
                  replay-knows json (drop r.index r.log) base name ∙ sym (f.same_buckets name);
              holds = f.rebuilt;
            })).holds);
    saved-AreMaps = f.saved-AreMaps;
    live-AreMaps = apply_op-AreMaps r.live f.live-AreMaps json op now;
  }
    where
      base : MetaStore Db
      base = record m { objects = r.saved }

  persist-IsFaithful :
      (m : MetaStore Db) (r : Replica Db) (i : ℕ)
      → r.taken ≡ some i
      → IsFaithful json m r
      → IsFaithful json m (after_persist r i)
  unfolding replay
  persist-IsFaithful m r i taken f = record {
    same_buckets = f.same_buckets;
    current = λ j h. absurd (cc);
    within = omega (arith, f.current i taken);
    rebuilt = rw (f.current i taken, drop_all r.log) refl;
    saved-AreMaps = f.live-AreMaps;
    live-AreMaps = f.live-AreMaps;
  }

  pub Reach-IsFaithful :
      {m : MetaStore Db} {r : Replica Db} → AreMaps m.objects → Reach json m r → IsFaithful json m r
  unfolding replay
  Reach-IsFaithful {m} maps here = record {
    same_buckets = λ name. refl;
    current = λ i h. absurd (cc);
    within = omega arith;
    rebuilt = refl;
    saved-AreMaps = maps;
    live-AreMaps = maps;
  }
  Reach-IsFaithful maps (next {r} reached (applies op now idle)) =
      apply-IsFaithful _ r op now idle (Reach-IsFaithful maps reached)
  Reach-IsFaithful maps (next {r} reached snapshots) =
      let f = Reach-IsFaithful maps reached in
      record {
        same_buckets = f.same_buckets;
        current = λ i h. ground (arith, h);
        within = f.within;
        rebuilt = f.rebuilt;
        saved-AreMaps = f.saved-AreMaps;
        live-AreMaps = f.live-AreMaps;
      }
  Reach-IsFaithful maps (next {r} reached (persists i taken)) =
      persist-IsFaithful _ r i taken (Reach-IsFaithful maps reached)
