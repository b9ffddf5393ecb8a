-- ===== src/Store/Multipart/Uploads.antt =====
-- internal/store/multipart.go: starting and aborting uploads, and their parts. `hash` is the hex
-- text of SHA-256.
use jario.Base.{
  ℕ, ◌+◌, ◌-◌, ◌*◌, ◌%◌, ◌^◌, Bool, not, ◌||◌, [], ◌++◌, none, some, length, filter, if◌then◌else◌,
  nat_eq,
}
use jario.Text.{Text, codes, text_eq, has_prefix, text_eq_inst}
use jario.Text.Decimal.{format_int}
use jario.Outcome.{Outcome, ok, err, panic, invalid_upload_id, Codec, wrap}
use jario.Action.{Action, pure, lift, gets, ◌>>=◌, ◌>>◌}
use jario.GoMap.{GoMap, lookup, insert, delete}
use jario.BucketDb.{Bolt, BucketMeta}
use jario.Store.State.{Store, Env, Part, fails, read_all, write_file}
use jario.Store.Objects.{get_bucket}

-- `time.Now().UnixNano()`, an int64 by its pattern: from the year 1 to 1970 there are 62135596800 s.
unfoldable pub unix_nano : ℕ → ℕ
unix_nano now = (now + (2 ^ 64 - (62135596800 * 10 ^ 9) % 2 ^ 64)) % 2 ^ 64

unfoldable pub multipart_dir : Text → Text → Text
multipart_dir data_dir upload_id = data_dir ++ (codes "/multipart/" ++ upload_id)

unfoldable pub part_path : Text → Text → ℕ → Text
part_path data_dir upload_id part_number =
    multipart_dir data_dir upload_id ++ (codes "/part" ++ format_int part_number)

-- The files that `os.RemoveAll` of a directory leaves: also those that cannot be removed, as the error
-- is ignored.
unfoldable pub remove_all : (held : Text → Bool) (dir : Text) → GoMap Text Text → GoMap Text Text
remove_all held dir files = filter (λ f. not (has_prefix f.0 (dir ++ codes "/")) || held f.0) files

module _ {Db : Type 0} where
  unfoldable pub validate_upload : Store Db → (bucket key upload_id : Text) → Outcome (Unit {0})
  validate_upload st bucket key upload_id = elim (lookup upload_id st.uploads) [
    | none ↦ err invalid_upload_id
    | some u ↦
        if not (text_eq u.bucket bucket) || not (text_eq u.key key)
        then err invalid_upload_id
        else ok tt
  ]

  -- The directory is removed first, then the upload.
  unfoldable pub cleanup_upload : Text → Store Db → Store Db
  cleanup_upload upload_id st = record st {
    files = remove_all st.held (multipart_dir st.data_dir upload_id) st.files;
    uploads = delete upload_id st.uploads;
  }

  -- The part of `UploadPart` under the lock: the upload may be gone by then.
  unfoldable pub register_part : Text → Part → Action (Store Db) (Unit {0})
  register_part upload_id part st = elim (lookup upload_id st.uploads) [
    | none ↦ (panic, st)
    | some u ↦ (
      ok tt,
      record st {
        uploads =
            insert upload_id (record u { parts = insert part.part_number part u.parts }) st.uploads;
      },
    )
  ]

  -- The part of `UploadPart` before it: check the upload and write the file.
  unfoldable pub write_part :
      (hash : Text → Text) (bucket key upload_id : Text) (part_number : ℕ) (body : Text) (env : Env)
      → Action (Store Db) Part
  write_part hash bucket key upload_id part_number body env = do
    gets (λ st. st) >>= λ st. lift (validate_upload st bucket key upload_id)
    content ← lift (wrap (codes "read part: ") (read_all body env))
    let etag = hash content
    lift (wrap (codes "mkdir parts: ") (fails env.mkdir_error))
    (λ st.
        let (r, st') = write_file (part_path st.data_dir upload_id part_number) content env st in
        (wrap (codes "write part: ") r, st'))
    pure (record {
      part_number = part_number;
      size = length content;
      etag = etag;
      sha256 = etag;
      created_at = env.now;
    })

  unfoldable pub upload_part :
      (hash : Text → Text) (bucket key upload_id : Text) (part_number : ℕ) (body : Text) (env : Env)
      → Action (Store Db) Text
  upload_part hash bucket key upload_id part_number body env = do
    part ← write_part hash bucket key upload_id part_number body env
    register_part upload_id part
    pure part.etag

  unfoldable pub abort_multipart_upload :
      (bucket key upload_id : Text) → Action (Store Db) (Unit {0})
  abort_multipart_upload bucket key upload_id st = elim (validate_upload st bucket key upload_id) [
    | ok _ ↦ (ok tt, cleanup_upload upload_id st)
    | err e ↦ (err e, st)
    | panic ↦ (panic, st)
  ]

module _ (bolt : Bolt) (bucket_json : Codec BucketMeta) where
  unfoldable pub new_multipart_upload :
      (bucket key : Text) (env : Env) → Action (Store bolt.Db) Text
  new_multipart_upload bucket key env st = elim (get_bucket bolt bucket_json st bucket) [
    | err e ↦ (err e, st)
    | panic ↦ (panic, st)
    | ok _ ↦
        let id = format_int (unix_nano env.now) ++ (codes "-" ++ env.random) in
        (
          ok id,
          record st {
            uploads =
                insert id
                  (record { id = id; bucket = bucket; key = key; initiated = env.now; parts = [] })
                  st.uploads;
          },
        )
  ]
