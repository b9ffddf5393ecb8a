-- ===== src/Tests/Replication.antt =====
-- The theorems on the Raft layer and the bucket database at concrete inputs.
use jario.Base.{ℕ, ◌≡◌, refl, ◌≢◌, true, false, [], ◌∷◌, none, some, arith}
use jario.Text.{Text, text_eq, text_eq_inst}
use jario.Text.Decimal.{format_int}
use jario.Outcome.{ok, err, panic, bucket_exists}
use jario.GoMap.{GoMap, lookup, insert, lookup-insert, lookup-delete}
use jario.BucketDb
use jario.BucketDb.{Bolt, BoltLaws}
use jario.BucketDb.Laws
use jario.MetaStore.Ops.{MetaStore, put_object, get_object_version, is_cached}
use jario.Raft.Fsm.{Raft, put_op, delete_op, apply_op, raft_apply}
use jario.Raft.Replicas
use jario.Raft.Replicas.{Agree, replay, responses}
use jario.Tests.Data.{bolt, constant, bucket_meta, photos, cat, upload, two, filled}
use jario.Tests.Metadata.{filled-Opened, filled-find_key, two-IsOpen}

abbrev leader : Raft
leader = record { is_leader = true; future = λ _. none }

abbrev follower : Raft
follower = record { is_leader = false; future = λ _. none }

-- A node that has the same data and another region.
abbrev other_node : MetaStore (GoMap Text Text)
other_node = record filled { region = cat }

calm : (apply_op (constant upload) filled (put_op photos cat []) 9).0 ≢ panic
unfolding apply_op put_object lookup text_eq
calm = cc

raft_apply-apply_op_example :
    ((raft_apply
        (constant upload)
        (constant (put_op photos cat []))
        (some leader)
        filled
        (put_op photos cat [])
        9).0
      ≡ ok tt)
    × ((raft_apply
          (constant upload)
          (constant (put_op photos cat []))
          (some leader)
          filled
          (put_op photos cat [])
          9).1
        ≡ (raft_apply
            (constant upload)
            (constant (put_op photos cat []))
            none
            filled
            (put_op photos cat [])
            9).1)
raft_apply-apply_op_example =
    Replicas.raft_apply-apply_op (constant upload) (constant (put_op photos cat [])) leader filled
      (put_op photos cat []) [] 9 refl refl refl (λ s _. refl) calm

unknown : is_cached filled cat ≡ false
unfolding lookup text_eq
unknown = refl

replay-Agree_example :
    (responses (constant upload) ((put_op photos cat [], 1) ∷ (delete_op photos cat, 2) ∷ []) filled
      ≡ responses
          (constant upload)
          ((put_op photos cat [], 1) ∷ (delete_op photos cat, 2) ∷ [])
          other_node)
    × Agree
        (replay
          (constant upload)
          ((put_op photos cat [], 1) ∷ (delete_op photos cat, 2) ∷ [])
          filled)
        (replay
          (constant upload)
          ((put_op photos cat [], 1) ∷ (delete_op photos cat, 2) ∷ [])
          other_node)
replay-Agree_example =
    Replicas.replay-Agree (constant upload)
      ((put_op photos cat [], 1) ∷ (delete_op photos cat, 2) ∷ []) filled other_node (refl, refl)

delete_marker_diverges_example :
    get_object_version
      (apply_op (constant upload) filled (delete_op photos cat) 1).1
      photos
      cat
      (format_int 3)
    ≢ get_object_version
        (apply_op (constant upload) other_node (delete_op photos cat) 2).1
        photos
        cat
        (format_int 3)
delete_marker_diverges_example =
    Replicas.delete_marker_diverges (constant upload) filled other_node photos cat two 1 2
      (refl, refl) filled-Opened filled-find_key two-IsOpen (omega arith)

-- The association list meets what is asked of BoltDB, on the databases that these calls make.
abbrev empty_db : GoMap Text Text
empty_db = []

ok-injective : {a b : GoMap Text Text} → ok a ≡ ok b → a ≡ b
ok-injective e = cc

bolt-laws : BoltLaws bolt
bolt-laws = record {
  get-put = λ db db' k v e j. rw (← ok-injective e) (lookup-insert k j v db);
  get-delete = λ db db' k e j. rw (← ok-injective e) (lookup-delete k j db);
}

abbrev photos_db : GoMap Text Text
photos_db = (photos, []) ∷ []

get-create_example :
    (BucketDb.get bolt (constant bucket_meta) photos_db photos
      ≡ ok (record { name = photos; created_at = 5 }))
    × ((region' : Text) (later : ℕ)
        → BucketDb.create bolt (constant bucket_meta) photos_db photos region' later
          ≡ err bucket_exists)
    × ((other : Text)
        → photos ≢ other
        → BucketDb.get bolt (constant bucket_meta) photos_db other
          ≡ BucketDb.get bolt (constant bucket_meta) empty_db other)
unfolding BucketDb.create lookup insert
get-create_example =
    Laws.get-create bolt bolt-laws (constant bucket_meta) empty_db photos_db photos [] 5
      (λ s _. refl) refl
