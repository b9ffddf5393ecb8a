-- ===== src/Store/Multipart/Kept.antt =====
-- internal/store/store.go and multipart.go: the calls on objects touch no part.
use jario.Base.{
  ℕ, ◌≡◌, refl, ◌∙◌, ◌⊎◌, inl, inr, [], arith, length, ltb, take, Bool-cases, Option-cases, List,
  nat_eq,
}
use jario.Text.{Text, text_eq, text_eq_iff, text_eq_inst}
use jario.Outcome.{ok, panic, Codec, Outcome-cases}
use jario.GoMap.{lookup, insert, lookup-insert, lookup-delete}
use jario.MetaStore.Versions.{ObjectMeta}
use jario.Raft.Fsm.{RaftOp, put_op, delete_version_op, raft_apply}
use jario.Store.State.{Store, Env, blob_path, write_blob, remove_blob, remove_file, partly_written}
use jario.Store.Objects.{object_meta, put_object, delete_object, version_pointer, pointee}
use jario.Store.Blobs.{path_of, content_of}
use jario.Store.Multipart.Uploads.{part_path, cleanup_upload}
use jario.Store.Multipart.Complete.{CompletedPart, complete_multipart_upload}
use jario.Store.Multipart.Cases.{finish, complete_multipart_upload-cases}
use jario.Store.Multipart.Intact.{part_path-path_of}

module _ {Db : Type 0} (st : Store Db) where
  -- The uploads are the same, and the files of the parts.
  abbrev pub KeepsParts : Store Db → Type 0
  KeepsParts st' =
      (st'.data_dir ≡ st.data_dir)
      × (st'.uploads ≡ st.uploads)
      × ((id : Text) (n : ℕ)
          → lookup (part_path st.data_dir id n) st'.files
            ≡ lookup (part_path st.data_dir id n) st.files)

  blob_path-cases :
      (sha : Text)
      → (blob_path st.data_dir sha ≡ ok (path_of st.data_dir sha))
        ⊎ (blob_path st.data_dir sha ≡ panic)
  unfolding blob_path
  blob_path-cases sha = elim (Bool-cases (ltb (length sha) 2)) [
    | inl short ↦ inr (ground (arith, short))
    | inr long ↦ inl (ground (arith, long))
  ]

  -- A file that is written beside the parts.
  insert-KeepsParts :
      (sha content : Text)
      → KeepsParts (record st { files = insert (path_of st.data_dir sha) content st.files })
  insert-KeepsParts sha content = (
    refl,
    refl,
    λ id n. ground (
      arith,
      lookup-insert (path_of st.data_dir sha) (part_path st.data_dir id n) content st.files,
      part_path-path_of st.data_dir id sha n,
      text_eq_iff (path_of st.data_dir sha) (part_path st.data_dir id n),
      text_eq_iff (part_path st.data_dir id n) (path_of st.data_dir sha),
    ),
  )

  KeepsParts-self : KeepsParts st
  KeepsParts-self = (refl, refl, λ id n. refl)

  pub write_blob-KeepsParts :
      (sha content : Text) (env : Env) → KeepsParts (write_blob sha content env st).1
  unfolding write_blob partly_written
  write_blob-KeepsParts sha content env = elim (blob_path-cases sha) [
    | inr short ↦ rw (short, write_blob) KeepsParts-self
    | inl path ↦ elim (Option-cases env.write_error) [
      | inl wrote ↦ rw (path, wrote, write_blob) (insert-KeepsParts sha content)
      | inr (problem, failed) ↦ elim (Option-cases env.written) [
        | inl unopened ↦ rw (path, failed, unopened, write_blob) KeepsParts-self
        | inr (n, cut) ↦ rw (path, failed, cut, write_blob) (insert-KeepsParts sha (take n content))
      ]
    ]
  ]

  remove_blob-KeepsParts : (sha : Text) → KeepsParts (remove_blob sha st).1
  unfolding remove_blob remove_file
  remove_blob-KeepsParts sha = elim (blob_path-cases sha) [
    | inr short ↦ (ground (arith, short), ground (arith, short), λ id n. ground (arith, short))
    | inl path ↦ (
      ground (arith, path),
      ground (arith, path),
      λ id n. ground (
        arith,
        path,
        lookup-delete (path_of st.data_dir sha) (part_path st.data_dir id n) st.files,
        part_path-path_of st.data_dir id sha n,
        text_eq_iff (path_of st.data_dir sha) (part_path st.data_dir id n),
        text_eq_iff (part_path st.data_dir id n) (path_of st.data_dir sha),
      ),
    )
  ]

  module _ (json : Codec ObjectMeta) (op_json : Codec RaftOp) where
    pub put_object-KeepsParts :
        (hash : Text → Text) (b k body : Text) (env : Env)
        → KeepsParts (put_object json op_json hash b k body env st).1
    unfolding put_object
    put_object-KeepsParts hash b k body env =
        let (dir, uploads, files) =
          write_blob-KeepsParts (hash (content_of body)) (content_of body) env in
        (grind (arith, dir), grind (arith, uploads), λ id n. grind (arith, files id n))

module _ {Db : Type 0} (json : Codec ObjectMeta) (op_json : Codec RaftOp) where
  pub delete_object-KeepsParts :
      (b k vid : Text) (env : Env) (st : Store Db)
      → KeepsParts st (delete_object json op_json b k vid env st).1
  unfolding delete_object
  delete_object-KeepsParts b k vid env st = elim (Bool-cases (text_eq vid [])) [
    | inl plain ↦ (ground (arith, plain), ground (arith, plain), λ id n. ground (arith, plain))
    | inr named ↦ elim (Outcome-cases (version_pointer st.meta b k vid)) [
      | inr (inl (e, gone)) ↦ (
        ground (arith, named, gone),
        ground (arith, named, gone),
        λ id n. ground (arith, named, gone),
      )
      | inr (inr gone) ↦ (
        ground (arith, named, gone),
        ground (arith, named, gone),
        λ id n. ground (arith, named, gone),
      )
      | inl ((i, meta), found) ↦
          let removed =
            raft_apply json op_json st.raft st.meta (delete_version_op b k vid) env.now in
          let (dir, uploads, files) =
            remove_blob-KeepsParts (record st { meta = removed.1 })
              (pointee removed.1 b k i meta).sha256 in
          (
            ground (arith, named, found, dir),
            ground (arith, named, found, uploads),
            λ id n. ground (arith, named, found, files id n),
          )
    ]
  ]

  -- The end of a completion keeps the parts, or removes those of its upload after that.
  finish-cases :
      (hash : Text → Text) (b k id : Text) (env : Env) (total : ℕ) (combined : Text) (st : Store Db)
      → (st' : Store Db) × KeepsParts st st'
        × (((finish json op_json hash b k id env total combined st).1 ≡ st')
            ⊎ ((finish json op_json hash b k id env total combined st).1 ≡ cleanup_upload id st'))
  finish-cases hash b k id env total combined st =
      let kept = write_blob-KeepsParts st (hash combined) combined env in
      let w = write_blob (hash combined) combined env st in
      elim (Outcome-cases w.0) [
        | inr (inl (e, failed)) ↦ (w.1, kept, inl (ground (arith, failed)))
        | inr (inr failed) ↦ (w.1, kept, inl (ground (arith, failed)))
        | inl (_, wrote) ↦
            elim (Outcome-cases (json.marshal (object_meta k total (hash combined) env.now))) [
              | inr (inl (e, failed)) ↦ (w.1, kept, inl (ground (arith, wrote, failed)))
              | inr (inr failed) ↦ (w.1, kept, inl (ground (arith, wrote, failed)))
              | inl (text, marshalled) ↦
                  let applied =
                    raft_apply json op_json w.1.raft w.1.meta (put_op b k text) env.now in
                  let left : Store Db = record w.1 { meta = applied.1 } in
                  elim (Outcome-cases applied.0) [
                    | inr (inl (e, failed)) ↦
                        (left, kept, inl (ground (arith, wrote, marshalled, failed)))
                    | inr (inr failed) ↦
                        (left, kept, inl (ground (arith, wrote, marshalled, failed)))
                    | inl (_, done) ↦ (left, kept, inr (ground (arith, wrote, marshalled, done)))
                  ]
            ]
      ]

  pub complete_multipart_upload-KeepsParts :
      (hash : Text → Text) (b k id : Text) (parts : List CompletedPart) (env : Env) (st : Store Db)
      → (st' : Store Db) × KeepsParts st st'
        × (((complete_multipart_upload json op_json hash b k id parts env st).1 ≡ st')
            ⊎ ((complete_multipart_upload json op_json hash b k id parts env st).1
                ≡ cleanup_upload id st'))
  complete_multipart_upload-KeepsParts hash b k id parts env st =
      elim (complete_multipart_upload-cases json op_json hash b k id env parts st) [
        | inl same ↦ (st, (refl, refl, λ i n. refl), inl same)
        | inr (total, combined, ends) ↦
            let (st', kept, cases) = finish-cases hash b k id env total combined st in
            (
              st',
              kept,
              elim cases [ inl kept' ↦ inl (ends ∙ kept') | inr cleaned ↦ inr (ends ∙ cleaned) ],
            )
      ]
