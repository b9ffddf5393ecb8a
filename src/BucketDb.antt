-- ===== src/BucketDb.antt =====
-- internal/store/bucketdb.go: the bucket records in BoltDB. BoltDB is a parameter: the state of
-- the bucket "buckets" of the database file, with the calls that the code makes on it.
pub mod Laws
use jario.Base.{ℕ, ◌≡◌, List, [], ◌∷◌, ◌++◌, Option, none, some, if◌then◌else◌}
use jario.Text.{Text, codes, text_eq, text_eq_inst}
use jario.Outcome.{Outcome, ok, err, panic, bucket_exists, no_bucket, ◌>>=◌, Codec, wrap}
use jario.GoMap.{lookup, IsMap}

-- Times are nanoseconds since the zero time.
pub record Bucket : Type 0 where
  pub name : Text
  pub created_at : ℕ

pub record BucketMeta : Type 0 where
  pub name : Text
  pub region : Text
  pub created_at : ℕ

-- The calls on go.etcd.io/bbolt. A failed update is rolled back.
pub record Bolt : Type 1 where
  pub Db : Type 0
  pub get : Db → Text → Option Text
  pub put : Db → Text → Text → Outcome Db
  pub delete : Db → Text → Outcome Db
  pub for_each : Db → List (Text × Text)

-- bolt.Open, and the update that makes the bucket "buckets" of the file.
pub record BoltFile (Db : Type 0) : Type 0 where
  pub open_file : (path : Text) → Outcome Db
  pub create_bucket_if_not_exists : Db → Outcome Db

unfoldable pub open_bucket_db : {Db : Type 0} → BoltFile Db → (data_dir : Text) → Outcome Db
open_bucket_db file data_dir = do
  db ← wrap (codes "open bucket db: ") (file.open_file (data_dir ++ codes "/buckets.db"))
  wrap (codes "init bucket db: ") (file.create_bucket_if_not_exists db)

-- What the documentation of bbolt says of these calls.
pub record BoltLaws (bolt : Bolt) : Type 0 where
  pub get-put :
      (db db' : bolt.Db) (k v : Text)
      → bolt.put db k v ≡ ok db'
      → (j : Text) → bolt.get db' j ≡ (if text_eq k j then some v else bolt.get db j)
  pub get-delete :
      (db db' : bolt.Db) (k : Text)
      → bolt.delete db k ≡ ok db'
      → (j : Text) → bolt.get db' j ≡ (if text_eq k j then none else bolt.get db j)

module _ (bolt : Bolt) (json : Codec BucketMeta) where
  unfoldable pub create : bolt.Db → (name region : Text) (now : ℕ) → Outcome bolt.Db
  create db name region now = elim (bolt.get db name) [
    | some _ ↦ err bucket_exists
    | none ↦ do
      encoded ← json.marshal (record { name = name; region = region; created_at = now })
      bolt.put db name encoded
  ]

  unfoldable pub delete : bolt.Db → Text → Outcome bolt.Db
  delete db name = elim (bolt.get db name) [ none ↦ err no_bucket | some _ ↦ bolt.delete db name ]

  abbrev pub to_bucket : BucketMeta → Bucket
  to_bucket meta = record { name = meta.name; created_at = meta.created_at }

  unfoldable pub get : bolt.Db → Text → Outcome Bucket
  get db name = elim (bolt.get db name) [
    | none ↦ err no_bucket
    | some encoded ↦ do meta ← json.unmarshal encoded; ok (to_bucket meta)
  ]

  -- The loop of `ForEach`: the buckets read so far are returned beside an error.
  unfoldable pub list_from : List (Text × Text) → List Bucket × Outcome (Unit {0})
  list_from [] = ([], ok tt)
  list_from ((k, v) ∷ rest) =
      let (later, result) = list_from rest in
      elim (json.unmarshal v) [
        | ok meta ↦ (to_bucket meta ∷ later, result)
        | err e ↦ ([], err e)
        | panic ↦ ([], panic)
      ]

  unfoldable pub list : bolt.Db → List Bucket × Outcome (Unit {0})
  unfolding list_from
  list db = list_from (bolt.for_each db)
