-- ===== src/Tests/Engine.antt =====
-- The theorems on the storage engine at concrete inputs.
use jario.Base.{not, ◌&&◌, ◌≡◌, refl, false, [], ◌∷◌, none, some, arith, replicate, if◌then◌else◌}
use jario.Text.{Text, codes, text_eq, text_eq_inst}
use jario.Text.Decimal.{format_int, format_int-ne-nil}
use jario.Outcome.{ok, err, panic, not_leader}
use jario.GoMap.{GoMap, lookup}
use jario.MetaStore.Versions.{find_from}
use jario.MetaStore.Ops
use jario.Raft.Fsm.{Raft, delete_version_op}
use jario.Store.State.{Store, Env, new_store, set_raft}
use jario.Store.Objects.{get_object, delete_object}
use jario.Store.Blobs.{path_of}
use jario.Store.Deletes
use jario.Tests.Data.{constant, photos, cat, upload, first, second, two, filled, sha_a, sha_b}
use jario.Tests.Metadata.{filled-Opened, filled-find_key, two-IsOpen}

abbrev pub engine : Store (GoMap Text Text)
engine =
    new_store (codes "data") filled (
      (path_of (codes "data") sha_a, codes "one")
      ∷ (path_of (codes "data") sha_b, codes "two")
      ∷ [])

abbrev pub env : Env
env = record {
  now = 9;
  read_error = none;
  mkdir_error = none;
  write_error = none;
  written = none;
  random = [];
}

abbrev pub hash : Text → Text
hash _ = replicate 64 b'c'

found_first : find_from 0 (format_int 1) two.versions ≡ some (0, first.meta)
unfolding find_from text_eq format_int
found_first = refl

delete_object-removes_next_blob_example :
    ((delete_object
        (constant upload)
        (constant (delete_version_op photos cat (format_int 1)))
        photos
        cat
        (format_int 1)
        env
        engine).0
      ≡ ok [])
    × ((path : Text)
        → lookup path
            (delete_object
              (constant upload)
              (constant (delete_version_op photos cat (format_int 1)))
              photos
              cat
              (format_int 1)
              env
              engine).1.files
          ≡ (if text_eq (path_of (codes "data") sha_b) path && not false
              then none
              else lookup path engine.files))
delete_object-removes_next_blob_example =
    Deletes.delete_object-removes_next_blob (constant upload)
      (constant (delete_version_op photos cat (format_int 1))) engine photos cat (format_int 1) env
      two 0 first.meta second filled-Opened filled-find_key refl (format_int-ne-nil 1) found_first
      refl refl (omega arith)

abbrev pub follower : Raft
follower = record { is_leader = false; future = λ _. none }

abbrev pub replica : Store (GoMap Text Text)
replica = set_raft (some follower) engine

delete_object-ignores_raft_example :
    (delete_object
        (constant upload)
        (constant (delete_version_op photos cat (format_int 1)))
        photos
        cat
        []
        env
        replica
      ≡ (ok (format_int 3), record replica { meta = (Ops.delete_object filled photos cat [] 9).1 }))
    × (delete_object
          (constant upload)
          (constant (delete_version_op photos cat (format_int 1)))
          photos
          cat
          (format_int 1)
          env
          replica
        ≡ (err not_leader, replica))
delete_object-ignores_raft_example =
    Deletes.delete_object-ignores_raft (constant upload)
      (constant (delete_version_op photos cat (format_int 1))) replica photos cat (format_int 1) env
      two follower 0 first.meta filled-Opened filled-find_key refl refl (format_int-ne-nil 1)
      found_first

get_object-marker_panics_example :
    get_object
      (delete_object
        (constant upload)
        (constant (delete_version_op photos cat []))
        photos
        cat
        []
        env
        engine).1
      photos
      cat
      (format_int 3)
    ≡ panic
get_object-marker_panics_example =
    Deletes.get_object-marker_panics (constant upload) (constant (delete_version_op photos cat []))
      engine photos cat env two filled-Opened filled-find_key two-IsOpen
