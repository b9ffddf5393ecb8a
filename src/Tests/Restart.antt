-- ===== src/Tests/Restart.antt =====
-- The theorems on restarts at concrete inputs.
use jario.Base.{◌≡◌, refl, [], ◌∷◌, some}
use jario.Text.{Text, text_eq, text_eq_inst}
use jario.Outcome.{panic}
use jario.GoMap.{GoMap, lookup, insert}
use jario.BucketDb.{list, list_from}
use jario.MetaStore.Versions.{push_version}
use jario.MetaStore.Ops.{is_cached, find_key, new_meta_store, load_cache, cache_from}
use jario.MetaStore.Lookups.{versions_at}
use jario.MetaStore.Snapshot.{AreMaps, snapshot}
use jario.Raft.Fsm.{RaftOp, put_op, apply_op}
use jario.Raft.Restart.{Replica, started, after_apply, after_persist}
use jario.Raft.Restored
use jario.Raft.Restored.{restored}
use jario.Raft.Crash
use jario.Raft.Crash.{any_put}
use jario.Raft.Snapshots.{recover}
use jario.Tests.Data.{bolt, constant, bucket_meta, photos, cat, upload, filled}
use jario.Tests.Metadata.{filled-Opened}

abbrev photos_db : GoMap Text Text
photos_db = (photos, []) ∷ []

abbrev a_put : RaftOp
a_put = put_op photos cat []

-- One entry, a snapshot, and one more entry.
abbrev at_snapshot : Replica (GoMap Text Text)
at_snapshot = after_apply (constant upload) (started filled) a_put 1

abbrev written : Replica (GoMap Text Text)
written = after_persist (record at_snapshot { taken = some 1 }) 1

abbrev last : Replica (GoMap Text Text)
last = after_apply (constant upload) written a_put 2

filled-AreMaps : AreMaps filled.objects
unfolding lookup
filled-AreMaps = ((refl, tt), ((refl, tt), tt))

same_buckets :
    (name : Text)
    → is_cached (new_meta_store bolt (constant bucket_meta) photos_db) name ≡ is_cached filled name
unfolding new_meta_store load_cache cache_from list list_from insert lookup
same_buckets name = refl

persist_late_example :
    (find_key (apply_op (constant upload) filled a_put 1).1 photos cat
      ≡ some (push_version (versions_at filled photos cat) upload))
    × (find_key
          (apply_op
            (constant upload)
            (restored bolt (constant bucket_meta) (constant at_snapshot.live.objects) photos_db [])
            a_put
            2).1
          photos
          cat
        ≡ some (push_version (push_version (versions_at filled photos cat) upload) upload))
unfolding snapshot
persist_late_example =
    Restored.persist_late bolt (constant bucket_meta) (constant at_snapshot.live.objects)
      (constant upload) filled photos_db photos cat [] [] upload 1 2 filled-Opened refl
      filled-AreMaps same_buckets refl (λ s _. refl)

recover-new_meta_store_example :
    recover
      (constant upload)
      (constant a_put)
      (([], 1) ∷ [])
      (new_meta_store bolt (constant bucket_meta) photos_db)
    ≡ (panic, new_meta_store bolt (constant bucket_meta) photos_db)
unfolding list list_from text_eq
recover-new_meta_store_example =
    Crash.recover-new_meta_store bolt (constant bucket_meta) (constant upload) (constant a_put)
      photos_db (λ s h. absurd (cc)) (λ s h. absurd (cc)) (([], 1) ∷ [])
