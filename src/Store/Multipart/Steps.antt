-- ===== src/Store/Multipart/Steps.antt =====
-- internal/store/multipart.go: uploading a part, aborting, and a part that comes too late.
use jario.Base.{
  Bool, not, ◌&&◌, Bool-cases, ap, inl, inr, ℕ, ◌≡◌, refl, ◌≢◌, [], ◌∷◌, ◌++◌, none, some, arith,
  length, Option-cases, inl, inr, if◌then◌else◌, nat_eq,
}
use jario.Text.{text_eq, Text, codes, text_eq_iff, has_prefix, text_eq_inst}
use jario.Outcome.{ok, err, panic, invalid_upload_id}
use jario.GoMap.{GoMap, lookup, insert, lookup-delete, lookup-delete_self}
use jario.Store.State.{Store, Env, Part, Upload}
use jario.Store.Blobs.{content_of}
use jario.Store.Multipart.Uploads.{
  multipart_dir, part_path, remove_all, validate_upload, cleanup_upload, register_part, write_part,
  upload_part, abort_multipart_upload,
}

abbrev pub part_of : (Text → Text) → ℕ → Text → Env → Part
part_of hash n body env = record {
  part_number = n;
  size = length (content_of body);
  etag = hash (content_of body);
  sha256 = hash (content_of body);
  created_at = env.now;
}

abbrev pub with_part : Upload → Part → Upload
with_part u p = record u { parts = insert p.part_number p u.parts }

pub lookup-remove_all :
    (held : Text → Bool) (dir path : Text) (files : GoMap Text Text)
    → lookup path (remove_all held dir files)
      ≡ (if has_prefix path (dir ++ codes "/") && not (held path) then none else lookup path files)
unfolding lookup remove_all
lookup-remove_all held dir path [] = ground arith
lookup-remove_all held dir path ((p, c) ∷ files) = elim (Bool-cases (text_eq p path)) [
  | inl same ↦
      let eq = (text_eq_iff p path).0 same in
      ground (
        arith,
        lookup-remove_all held dir path files,
        ap held eq,
        ap (λ x. has_prefix x (dir ++ codes "/")) eq,
        same,
      )
  | inr apart ↦ ground (arith, lookup-remove_all held dir path files, apart)
]

module _ {Db : Type 0} (st : Store Db) where
  -- What `validate_upload` has checked when it passes.
  pub validate_upload-ok :
      (b k id : Text)
      → validate_upload st b k id ≡ ok tt
      → (u : Upload) × (lookup id st.uploads ≡ some u) × (u.bucket ≡ b) × (u.key ≡ k)
  unfolding validate_upload
  validate_upload-ok b k id h = elim (Option-cases (lookup id st.uploads)) [
    | inl missing ↦ absurd (ground arith)
    | inr (u, found) ↦ (
      u,
      found,
      ground (arith, text_eq_iff u.bucket b, text_eq_iff u.key k),
      ground (arith, text_eq_iff u.bucket b, text_eq_iff u.key k),
    )
  ]

  -- An upload of a part to an upload that is there, when no call to the disk fails, returns the
  -- hash of the content, cut at the size limit, writes it to the file of the part, registers the
  -- part in place of an earlier one of its number, and changes nothing else.
  pub upload_part_lem :
      (hash : Text → Text) (b k id : Text) (n : ℕ) (body : Text) (env : Env) (u : Upload)
      → validate_upload st b k id ≡ ok tt
      → lookup id st.uploads ≡ some u
      → env.read_error ≡ none
      → env.mkdir_error ≡ none
      → env.write_error ≡ none
      → upload_part hash b k id n body env st ≡ (
        ok (hash (content_of body)),
        record st {
          files = insert (part_path st.data_dir id n) (content_of body) st.files;
          uploads = insert id (with_part u (part_of hash n body env)) st.uploads;
        },
      )
  unfolding upload_part write_part register_part
  upload_part_lem hash b k id n body env u valid found read dir write =
      ground (arith, valid, found, read, dir, write)

  aborted :
      (b k id : Text)
      → validate_upload st b k id ≡ ok tt
      → abort_multipart_upload b k id st ≡ (ok tt, cleanup_upload id st)
  unfolding abort_multipart_upload
  aborted b k id valid = ground arith

  -- An abort of an upload that is there succeeds; no request on the upload passes afterwards,
  -- every other upload is as before, and exactly the files under the directory of the upload that
  -- the file system lets be removed are gone.
  pub abort_multipart_upload_lem :
      (b k id : Text)
      → validate_upload st b k id ≡ ok tt
      → ((abort_multipart_upload b k id st).0 ≡ ok tt)
        × ((b' k' : Text)
            → validate_upload (abort_multipart_upload b k id st).1 b' k' id ≡ err invalid_upload_id)
        × ((other : Text)
            → id ≢ other
            → lookup other (abort_multipart_upload b k id st).1.uploads ≡ lookup other st.uploads)
        × ((path : Text)
            → lookup path (abort_multipart_upload b k id st).1.files ≡ (
                if has_prefix path (multipart_dir st.data_dir id ++ codes "/") && not (st.held path)
                then none
                else lookup path st.files))
  unfolding cleanup_upload validate_upload
  abort_multipart_upload_lem b k id valid = rw (aborted b k id valid) (
    refl,
    λ b' k'. ground (arith, lookup-delete_self id st.uploads),
    λ other ne. ground (arith, lookup-delete id other st.uploads, text_eq_iff id other),
    λ path. lookup-remove_all st.held (multipart_dir st.data_dir id) path st.files,
  )

  -- A part whose content was written before an abort of its upload, and which is registered after
  -- it, panics and leaves the store as the abort left it.
  pub register_part-aborted :
      (b k id : Text) (part : Part)
      → validate_upload st b k id ≡ ok tt
      → register_part id part (abort_multipart_upload b k id st).1
        ≡ (panic, (abort_multipart_upload b k id st).1)
  unfolding register_part cleanup_upload
  register_part-aborted b k id part valid =
      rw (aborted b k id valid) (ground (arith, lookup-delete_self id st.uploads))
