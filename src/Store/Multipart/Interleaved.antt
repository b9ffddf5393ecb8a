-- ===== src/Store/Multipart/Interleaved.antt =====
-- internal/store/multipart.go: two uploads of one part at the same time. `UploadPart` writes the file
-- without the lock, and takes it only to register the part.
use jario.Base.{ℕ, ◌%◌, ◌^◌, ◌≡◌, [], ◌∷◌, none, some, arith, length, nat_eq}
use jario.Text.{Text, text_eq_iff, text_eq_inst}
use jario.Outcome.{ok}
use jario.GoMap.{lookup, insert, lookup-insert_self}
use jario.Store.State.{Store, Env, Upload}
use jario.Store.Blobs.{content_of}
use jario.Store.Multipart.Uploads.{
  part_path, validate_upload, write_part, register_part, upload_part,
}
use jario.Store.Multipart.Complete.{CompletedPart, trim_quotes, check_parts, read_parts}
use jario.Store.Multipart.Steps.{part_of, with_part, upload_part_lem}

module _ {Db : Type 0} (hash : Text → Text) (b k id : Text) (n : ℕ) where
  abbrev with_file : Store Db → Text → Store Db
  with_file st body = record st {
    files = insert (part_path st.data_dir id n) (content_of body) st.files;
  }

  write_part-eq :
      (body : Text) (env : Env) (st : Store Db)
      → validate_upload st b k id ≡ ok tt
      → env.read_error ≡ none
      → env.mkdir_error ≡ none
      → env.write_error ≡ none
      → write_part hash b k id n body env st ≡ (ok (part_of hash n body env), with_file st body)
  unfolding write_part
  write_part-eq body env st valid read made wrote = ground (arith, valid, read, made, wrote)

  validate_upload-with_file :
      (body : Text) (st : Store Db)
      → validate_upload st b k id ≡ ok tt
      → validate_upload (with_file st body) b k id ≡ ok tt
  unfolding validate_upload
  validate_upload-with_file body st valid = valid

  -- The first upload writes its file, the second one runs as a whole, and the first is registered.
  abbrev pub interleaved : (first second : Text) (env env' : Env) → Store Db → Store Db
  interleaved first second env env' st =
      let st1 = (write_part hash b k id n first env st).1 in
      let st2 = (upload_part hash b k id n second env' st1).1 in
      (register_part id (part_of hash n first env) st2).1

  interleaved-eq :
      (first second : Text) (env env' : Env) (st : Store Db) (u : Upload)
      → validate_upload st b k id ≡ ok tt
      → lookup id st.uploads ≡ some u
      → env.read_error ≡ none
      → env.mkdir_error ≡ none
      → env.write_error ≡ none
      → env'.read_error ≡ none
      → env'.mkdir_error ≡ none
      → env'.write_error ≡ none
      → interleaved first second env env' st ≡ record (with_file (with_file st first) second) {
        uploads =
            insert id
              (with_part (with_part u (part_of hash n second env')) (part_of hash n first env))
              (insert id (with_part u (part_of hash n second env')) st.uploads);
      }
  unfolding register_part
  interleaved-eq first second env env' st u valid found read made wrote read' made' wrote' =
      let one = write_part-eq first env st valid read made wrote in
      let two =
        upload_part_lem (with_file st first) hash b k id n second env' u
          (validate_upload-with_file first st valid) found read' made' wrote' in
      let again = lookup-insert_self id (with_part u (part_of hash n second env')) st.uploads in
      ground (arith, one, two, again)

  -- If an upload of a part runs as a whole after another upload of that part has written its file
  -- and before that one is registered, the upload has the ETag of the first content and the file
  -- of the second: a completion that names the first ETag passes the check and reads the second
  -- content. The upload is there, and no call to the disk fails.
  pub interleaved_lem :
      (first second : Text) (env env' : Env) (st : Store Db) (u : Upload) (cp : CompletedPart)
      → validate_upload st b k id ≡ ok tt
      → lookup id st.uploads ≡ some u
      → env.read_error ≡ none
      → env.mkdir_error ≡ none
      → env.write_error ≡ none
      → env'.read_error ≡ none
      → env'.mkdir_error ≡ none
      → env'.write_error ≡ none
      → cp.part_number ≡ n
      → trim_quotes cp.etag ≡ hash (content_of first)
      → (u' : Upload) × (lookup id (interleaved first second env env' st).uploads ≡ some u')
        × (check_parts u'.parts (cp ∷ []) 0 ≡ ok (length (content_of first) % 2 ^ 64))
        × (read_parts st.data_dir id (interleaved first second env env' st).files (cp ∷ []) []
            ≡ ok (content_of second))
  unfolding check_parts read_parts
  interleaved_lem first second env env' st u cp valid found read made wrote read' made' wrote'
        number tag =
      let last = part_of hash n first env in
      let u' = with_part (with_part u (part_of hash n second env')) last in
      let path = part_path st.data_dir id n in
      rw (interleaved-eq first second env env' st u valid found read made wrote read' made' wrote')
        (
          u',
          lookup-insert_self id u'
              (insert id (with_part u (part_of hash n second env')) st.uploads),
          ground (
            arith,
            number,
            tag,
            lookup-insert_self n last (with_part u (part_of hash n second env')).parts,
            text_eq_iff (trim_quotes cp.etag) (hash (content_of first)),
          ),
          ground (
            arith,
            number,
            lookup-insert_self path (content_of second) (insert path (content_of first) st.files),
          ),
        )
