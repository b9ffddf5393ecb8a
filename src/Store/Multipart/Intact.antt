-- ===== src/Store/Multipart/Intact.antt =====
-- internal/store/multipart.go: uploads in parts touch no blob but the one that they write.
use jario.Base.{
  ℕ, ◌≡◌, refl, sym, subst, ◌⊎◌, inl, inr, true, false, List, [], ◌∷◌, ◌++◌, arith, take, Bool,
  Option-cases, nat_eq,
}
use jario.Text.{Text, codes, text_eq, text_eq_iff, has_prefix, text_eq_inst}
use jario.Text.Laws.{has_prefix-++}
use jario.Outcome.{Outcome-cases}
use jario.GoMap.{GoMap, lookup, insert, lookup-insert}
use jario.MetaStore.Versions.{ObjectMeta}
use jario.MetaStore.Contents.{AllMetas-imp}
use jario.Store.State.{Store, Env, Part, partly_written}
use jario.Store.Blobs.{path_of, content_of}
use jario.Store.VersionBlobs.{HasBlob}
use jario.Store.Intact.{IsIntact}
use jario.Store.Multipart.Uploads.{
  multipart_dir, part_path, remove_all, validate_upload, cleanup_upload, write_part, register_part,
  abort_multipart_upload,
}
use jario.Store.Multipart.Lists.{stale_ids, cleanup_all, abort_stale_uploads}
use jario.Store.Multipart.Steps.{lookup-remove_all}
use jario.Store.Multipart.Completion.{has_prefix-path_of}

has_prefix-part_path :
    (data_dir id : Text) (n : ℕ)
    → has_prefix (part_path data_dir id n) (multipart_dir data_dir id ++ codes "/") ≡ true
unfolding part_path has_prefix
has_prefix-part_path data_dir id n = rw (has_prefix-++ (multipart_dir data_dir id)) refl

-- The file of a part is no blob.
pub part_path-path_of :
    (data_dir id sha : Text) (n : ℕ)
    → text_eq (part_path data_dir id n) (path_of data_dir sha) ≡ false
part_path-path_of data_dir id sha n = ground (
  arith,
  has_prefix-part_path data_dir id n,
  has_prefix-path_of data_dir id sha,
  text_eq_iff (part_path data_dir id n) (path_of data_dir sha),
)

module _ (hash : Text → Text) where
  part-HasBlob :
      (data_dir id content : Text) (n : ℕ) (files : GoMap Text Text) (meta : ObjectMeta)
      → HasBlob hash data_dir files meta
      → HasBlob hash data_dir (insert (part_path data_dir id n) content files) meta
  part-HasBlob data_dir id content n files meta (inl marker) = inl marker
  part-HasBlob data_dir id content n files meta (inr (long, old, there, same)) = inr (
    long,
    old,
    ground (
      arith,
      there,
      lookup-insert (part_path data_dir id n) (path_of data_dir meta.sha256) content files,
      part_path-path_of data_dir id meta.sha256 n,
    ),
    same,
  )

  cleanup-HasBlob :
      (held : Text → Bool) (data_dir id : Text) (files : GoMap Text Text) (meta : ObjectMeta)
      → HasBlob hash data_dir files meta
      → HasBlob hash data_dir (remove_all held (multipart_dir data_dir id) files) meta
  cleanup-HasBlob held data_dir id files meta (inl marker) = inl marker
  cleanup-HasBlob held data_dir id files meta (inr (long, old, there, same)) = inr (
    long,
    old,
    ground (
      arith,
      there,
      lookup-remove_all held (multipart_dir data_dir id) (path_of data_dir meta.sha256) files,
      has_prefix-path_of data_dir id meta.sha256,
    ),
    same,
  )

  module _ {Db : Type 0} where
    pub cleanup_upload-IsIntact :
        (id : Text) (st : Store Db) → IsIntact hash st → IsIntact hash (cleanup_upload id st)
    unfolding cleanup_upload
    cleanup_upload-IsIntact id st (alone, all) =
        (alone, AllMetas-imp (cleanup-HasBlob st.held st.data_dir id st.files) st.meta.objects all)

    cleanup_all-IsIntact :
        (ids : List Text) (st : Store Db) → IsIntact hash st → IsIntact hash (cleanup_all ids st)
    unfolding cleanup_all
    cleanup_all-IsIntact [] st h = h
    cleanup_all-IsIntact (id ∷ ids) st h =
        cleanup_all-IsIntact ids (cleanup_upload id st) (cleanup_upload-IsIntact id st h)

    pub abort_stale_uploads-IsIntact :
        (max_age now : ℕ) (st : Store Db)
        → IsIntact hash st
        → IsIntact hash (abort_stale_uploads max_age now st).1
    unfolding abort_stale_uploads
    abort_stale_uploads-IsIntact max_age now st h =
        cleanup_all-IsIntact (stale_ids max_age now st.uploads) st h

    module _ (st : Store Db) (intact : IsIntact hash st) where
      pub abort_multipart_upload-IsIntact :
          (b k id : Text) → IsIntact hash (abort_multipart_upload b k id st).1
      unfolding abort_multipart_upload
      abort_multipart_upload-IsIntact b k id = elim (Outcome-cases (validate_upload st b k id)) [
        | inl (_, valid) ↦ rw (valid, abort_multipart_upload) (cleanup_upload-IsIntact id st intact)
        | inr (inl (e, refused)) ↦ rw (refused, abort_multipart_upload) intact
        | inr (inr refused) ↦ rw (refused, abort_multipart_upload) intact
      ]

      -- The two steps of `UploadPart`; other requests may run between them.
      write_part-changes :
          (b k id : Text) (n : ℕ) (body : Text) (env : Env)
          → ((write_part hash b k id n body env st).1 ≡ st)
            ⊎ ((left : Text) × ((write_part hash b k id n body env st).1
                  ≡ record st { files = insert (part_path st.data_dir id n) left st.files }))
      unfolding write_part partly_written
      write_part-changes b k id n body env = elim (Outcome-cases (validate_upload st b k id)) [
        | inr (inl (e, refused)) ↦ inl (ground (arith, refused))
        | inr (inr refused) ↦ inl (ground (arith, refused))
        | inl (_, valid) ↦ elim (Option-cases env.read_error) [
          | inr (problem, unread) ↦ inl (ground (arith, valid, unread))
          | inl read ↦ elim (Option-cases env.mkdir_error) [
            | inr (problem, failed) ↦ inl (ground (arith, valid, read, failed))
            | inl made ↦ elim (Option-cases env.write_error) [
              | inl wrote ↦ inr (content_of body, ground (arith, valid, read, made, wrote))
              | inr (problem, failed) ↦ elim (Option-cases env.written) [
                | inl unopened ↦ inl (ground (arith, valid, read, made, failed, unopened))
                | inr (m, cut) ↦
                    inr (take m (content_of body), ground (arith, valid, read, made, failed, cut))
              ]
            ]
          ]
        ]
      ]

      pub write_part-IsIntact :
          (b k id : Text) (n : ℕ) (body : Text) (env : Env)
          → IsIntact hash (write_part hash b k id n body env st).1
      write_part-IsIntact b k id n body env = elim (write_part-changes b k id n body env) [
        | inl same ↦ subst (IsIntact hash) (sym same) intact
        | inr (left, wrote) ↦ subst (IsIntact hash) (sym wrote) (
          intact.0,
          AllMetas-imp (part-HasBlob st.data_dir id left n st.files) st.meta.objects intact.1,
        )
      ]

      pub register_part-IsIntact :
          (id : Text) (part : Part) → IsIntact hash (register_part id part st).1
      unfolding register_part
      register_part-IsIntact id part = elim (Option-cases (lookup id st.uploads)) [
        | inl gone ↦ rw (gone, register_part) intact
        | inr (u, there) ↦ rw (there, register_part) intact
      ]
