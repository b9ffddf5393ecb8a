-- ===== src/BucketDb/Laws.antt =====
-- internal/store/bucketdb.go: creating, reading and deleting a bucket record.
use jario.Base.{ℕ, ◌≡◌, ◌≢◌, arith, Option-cases, inl, inr}
use jario.Text.{Text, text_eq_iff}
use jario.Text.Laws.{text_eq_refl}
use jario.Outcome.{ok, err, bucket_exists, no_bucket, Codec, RoundTrips, Outcome-cases}
use jario.BucketDb
use jario.BucketDb.{Bucket, BucketMeta, Bolt, BoltLaws, create, get, to_bucket}

module _ (bolt : Bolt) (laws : BoltLaws bolt) (json : Codec BucketMeta) where
  open bolt use {Db}

  created :
      (db db' : Db) (name region : Text) (now : ℕ)
      → create bolt json db name region now ≡ ok db'
      → (encoded : Text) × (json.marshal (record { name = name; region = region; created_at = now })
          ≡ ok encoded)
        × (bolt.put db name encoded ≡ ok db')
  unfolding create
  created db db' name region now h = elim (Option-cases (bolt.get db name)) [
    | inr (old, there) ↦ absurd (ground arith)
    | inl absent ↦
        elim (Outcome-cases
          (json.marshal (record { name = name; region = region; created_at = now }))) [
            | inl (encoded, written) ↦ (encoded, written, ground arith)
            | inr (inl (e, failed)) ↦ absurd (ground arith)
            | inr (inr failed) ↦ absurd (ground arith)
          ]
  ]

  -- After a bucket is created it is read back with its name and time, a second creation is
  -- refused, and every other bucket reads as before. The database keeps the laws of BoltDB, and
  -- the record is read back from JSON.
  pub get-create :
      (db db' : Db) (name region : Text) (now : ℕ)
      → RoundTrips json (record { name = name; region = region; created_at = now })
      → create bolt json db name region now ≡ ok db'
      → (get bolt json db' name ≡ ok (record { name = name; created_at = now }))
        × ((region' : Text) (later : ℕ)
            → create bolt json db' name region' later ≡ err bucket_exists)
        × ((other : Text) → name ≢ other → get bolt json db' other ≡ get bolt json db other)
  unfolding get create
  get-create db db' name region now trips h =
      let (encoded, written, put) = created db db' name region now h in
      let read = laws.get-put db db' name encoded put in
      (
        ground (arith, read name, text_eq_refl name, trips encoded written),
        λ region' later. ground (arith, read name, text_eq_refl name),
        λ other ne. ground (arith, read other, text_eq_iff name other),
      )

  -- After a bucket is deleted it is not found, a second deletion is refused, and every other
  -- bucket reads as before. The database keeps the laws of BoltDB.
  pub get-delete :
      (db db' : Db) (name : Text)
      → BucketDb.delete bolt json db name ≡ ok db'
      → (get bolt json db' name ≡ err no_bucket)
        × (BucketDb.delete bolt json db' name ≡ err no_bucket)
        × ((other : Text) → name ≢ other → get bolt json db' other ≡ get bolt json db other)
  unfolding get BucketDb.delete
  get-delete db db' name h = elim (Option-cases (bolt.get db name)) [
    | inl absent ↦ absurd (ground arith)
    | inr (old, there) ↦
        let read = laws.get-delete db db' name (ground arith) in
        (
          ground (arith, read name, text_eq_refl name),
          ground (arith, read name, text_eq_refl name),
          λ other ne. ground (arith, read other, text_eq_iff name other),
        )
  ]
