-- ===== src/Store/Multipart/Lists.antt =====
-- internal/store/multipart.go: the listings and the reaper of old uploads.
use jario.Base.{
  ℕ, ◌-◌, ◌^◌, leb, ◌+◌, Bool, List, [], ◌∷◌, none, some, length, ltb, if◌then◌else◌, nat_eq,
}
use jario.Text.{Text, text_eq, text_eq_inst}
use jario.Outcome.{Outcome, ok, err, panic, invalid_upload_id, Codec}
use jario.GoMap.{GoMap, lookup}
use jario.Sort.{sort}
use jario.BucketDb.{Bolt, BucketMeta}
use jario.Store.State.{Store, Part, Upload}
use jario.Store.Objects.{get_bucket}
use jario.Store.Multipart.Uploads.{validate_upload, cleanup_upload}

pub record MultipartUpload : Type 0 where
  pub upload_id : Text
  pub bucket : Text
  pub key : Text
  pub initiated : ℕ
  pub upload_id64 : Text

abbrev pub less_part : Part → Part → Bool
less_part a b = ltb a.part_number b.part_number

-- for _, p := range u.parts
abbrev pub values : GoMap ℕ Part → List Part
values [] = []
values ((n, p) ∷ parts) = p ∷ values parts

-- `initiated.Before(now.Add(-maxAge))`. The age is a `time.Duration`, an int64 by its pattern; a negative
-- one lies ahead of the clock, and the least int64 is its own negation. The terms of the difference
-- stand on the sides where they are added.
abbrev pub is_stale : ℕ → ℕ → Upload → Bool
is_stale max_age now u =
    if leb max_age (2 ^ 63)
    then ltb (u.initiated + max_age) now
    else ltb u.initiated (now + (2 ^ 64 - max_age))

unfoldable pub stale_ids : ℕ → ℕ → GoMap Text Upload → List Text
stale_ids max_age now [] = []
stale_ids max_age now ((id, u) ∷ uploads) =
    let rest = stale_ids max_age now uploads in if is_stale max_age now u then id ∷ rest else rest

abbrev pub less_initiated : MultipartUpload → MultipartUpload → Bool
less_initiated a b = ltb a.initiated b.initiated

-- for _, u := range s.multipart.uploads { if u.bucket == bucket { … } }
unfoldable pub uploads_of : Text → GoMap Text Upload → List MultipartUpload
uploads_of bucket [] = []
uploads_of bucket ((id, u) ∷ uploads) =
    let rest = uploads_of bucket uploads in
    if text_eq u.bucket bucket
    then record {
      upload_id = u.id;
      bucket = u.bucket;
      key = u.key;
      initiated = u.initiated;
      upload_id64 = [];
    }
      ∷ rest
    else rest

module _ {Db : Type 0} where
  unfoldable pub list_parts : Store Db → (bucket key upload_id : Text) → Outcome (List Part)
  list_parts st bucket key upload_id = elim (validate_upload st bucket key upload_id) [
    | err e ↦ err e
    | panic ↦ panic
    | ok _ ↦ elim (lookup upload_id st.uploads) [
      | none ↦ err invalid_upload_id
      | some u ↦ ok (sort less_part (values u.parts))
    ]
  ]

  unfoldable pub cleanup_all : List Text → Store Db → Store Db
  cleanup_all [] st = st
  cleanup_all (id ∷ ids) st = cleanup_all ids (cleanup_upload id st)

  unfoldable pub abort_stale_uploads : ℕ → ℕ → Store Db → ℕ × Store Db
  abort_stale_uploads max_age now st =
      let stale = stale_ids max_age now st.uploads in (length stale, cleanup_all stale st)

module _ (bolt : Bolt) (bucket_json : Codec BucketMeta) where
  unfoldable pub list_multipart_uploads : Store bolt.Db → Text → Outcome (List MultipartUpload)
  list_multipart_uploads st bucket = elim (get_bucket bolt bucket_json st bucket) [
    | err e ↦ err e
    | panic ↦ panic
    | ok _ ↦ ok (sort less_initiated (uploads_of bucket st.uploads))
  ]
