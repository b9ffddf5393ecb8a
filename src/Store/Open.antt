-- ===== src/Store/Open.antt =====
-- internal/store/store.go and meta.go: opening the stores of a data directory. `mkdir` is
-- os.MkdirAll, and `files` is what is on the disk.
use jario.Base.{◌++◌}
use jario.Text.{Text, codes, text_eq_inst}
use jario.Outcome.{Outcome, ok, Codec, ◌>>=◌, ◌>>◌, wrap}
use jario.GoMap.{GoMap}
use jario.BucketDb.{Bolt, BoltFile, BucketMeta, open_bucket_db}
use jario.MetaStore.Ops.{MetaStore, new_meta_store}
use jario.Store.State.{Store, new_store}

unfoldable pub new_with_meta :
    {Db : Type 0} (mkdir : Text → Outcome (Unit {0})) (data_dir : Text) (meta : MetaStore Db)
    (files : GoMap Text Text)
    → Outcome (Store Db)
new_with_meta mkdir data_dir meta files = do
  wrap (codes "mkdir blobs: ") (mkdir (data_dir ++ codes "/blobs"))
  ok (new_store data_dir meta files)

module _ (bolt : Bolt) (bucket_json : Codec BucketMeta) (file : BoltFile bolt.Db) where
  -- NewMetaStore
  unfoldable pub open_meta_store : (data_dir : Text) → Outcome (MetaStore bolt.Db)
  open_meta_store data_dir = do
    db ← open_bucket_db file data_dir
    ok (new_meta_store bolt bucket_json db)

  -- New
  unfoldable pub new :
      (mkdir : Text → Outcome (Unit {0})) (data_dir : Text) (files : GoMap Text Text)
      → Outcome (Store bolt.Db)
  unfolding open_meta_store
  new mkdir data_dir files = do
    wrap (codes "mkdir blobs: ") (mkdir (data_dir ++ codes "/blobs"))
    meta ← open_meta_store data_dir
    ok (new_store data_dir meta files)
