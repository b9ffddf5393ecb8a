-- ===== src/Store/Multipart/Registered.antt =====
-- internal/store/multipart.go: the registered parts and their files under whole calls. The two steps of `UploadPart` are not interleaved with other calls here.
use jario.Base.{
  ℕ, ◌^◌, ◌<◌, ◌≡◌, refl, sym, ap, subst, ◌⊎◌, inl, inr, true, false, List, [], ◌∷◌, ◌++◌, none,
  some, arith, take, All, Bool-cases, Option-cases, if◌then◌else◌, nat_eq,
}
use jario.Text.{Text, codes, text_eq, text_eq_iff, no_slash, text_eq_inst}
use jario.Text.Decimal.{format_int, format_int-no_slash}
use jario.Text.Split.{all-++}
use jario.Outcome.{Codec, Outcome-cases}
use jario.GoMap.{GoMap, lookup, insert}
use jario.BucketDb.{Bolt, BucketMeta}
use jario.MetaStore.Versions.{ObjectMeta}
use jario.Raft.Fsm.{RaftOp}
use jario.Store.State.{Store, Env, Upload, partly_written}
use jario.Store.Objects.{get_bucket}
use jario.Store.Blobs.{content_of}
use jario.Store.Multipart.Uploads.{
  part_path, validate_upload, cleanup_upload, write_part, upload_part, abort_multipart_upload,
  new_multipart_upload, unix_nano,
}
use jario.Store.Multipart.Complete.{CompletedPart, complete_multipart_upload}
use jario.Store.Multipart.Lists.{is_stale, stale_ids, cleanup_all, abort_stale_uploads}
use jario.Store.Multipart.Steps.{part_of, with_part, upload_part_lem, validate_upload-ok}
use jario.Store.Multipart.Paths.{IsName}
use jario.Store.Multipart.Parts.{
  AreUploaded, AreUploaded-same, remove_all-AreUploaded, insert-AreUploaded, with_part-AreUploaded,
  unregistered-AreUploaded,
}
use jario.Store.Multipart.Kept.{KeepsParts, complete_multipart_upload-KeepsParts}

-- Every ID that the map has is a name.
abbrev AreNames : GoMap Text Upload → Type 0
AreNames m = (id : Text) (u : Upload) → lookup id m ≡ some u → IsName id

stale_ids-AreNames :
    (max_age now : ℕ) (m : GoMap Text Upload) → AreNames m → All IsName (stale_ids max_age now m)
unfolding stale_ids lookup
stale_ids-AreNames max_age now [] h = tt
stale_ids-AreNames max_age now ((i, u) ∷ m) h =
    let head : IsName i = h i u (ground (arith, text_eq_iff i i)) in
    let tail : AreNames m = λ id v found. elim (Bool-cases (text_eq i id)) [
      | inl same ↦ h id u (ground (arith, same))
      | inr other ↦ h id v (ground (arith, other, found))
    ] in
    let rest = stale_ids-AreNames max_age now m tail in
    elim (is_stale max_age now u)
      as (λ b. All IsName (if b then i ∷ stale_ids max_age now m else stale_ids max_age now m)) [
        | true ↦ (head, rest)
        | false ↦ rest
      ]

module _ {Db : Type 0} (hash : Text → Text) (st : Store Db) where
  -- `UploadPart` fails before it has opened the file, or when it has, or registers the part.
  pub upload_part-cases :
      (b k id : Text) (n : ℕ) (body : Text) (env : Env)
      → ((upload_part hash b k id n body env st).1 ≡ st)
        ⊎ ((u : Upload) × (lookup id st.uploads ≡ some u)
            × (((m : ℕ) × (env.written ≡ some m)
                  × ((upload_part hash b k id n body env st).1 ≡ record st {
                    files = insert (part_path st.data_dir id n) (take m (content_of body)) st.files;
                  }))
                ⊎ ((upload_part hash b k id n body env st).1 ≡ record st {
                  files = insert (part_path st.data_dir id n) (content_of body) st.files;
                  uploads = insert id (with_part u (part_of hash n body env)) st.uploads;
                })))
  unfolding upload_part write_part partly_written
  upload_part-cases b k id n body env = elim (Outcome-cases (validate_upload st b k id)) [
    | inr (inl (e, refused)) ↦ inl (ground (arith, refused))
    | inr (inr refused) ↦ inl (ground (arith, refused))
    | inl (_, valid) ↦ elim (Option-cases env.read_error) [
      | inr (problem, unread) ↦ inl (ground (arith, valid, unread))
      | inl read ↦ elim (Option-cases env.mkdir_error) [
        | inr (problem, failed) ↦ inl (ground (arith, valid, read, failed))
        | inl made ↦
            let (u, found, _, _) = validate_upload-ok st b k id valid in
            elim (Option-cases env.write_error) [
              | inr (problem, failed) ↦ elim (Option-cases env.written) [
                | inl unopened ↦ inl (ground (arith, valid, read, made, failed, unopened))
                | inr (m, cut) ↦
                    inr (u, found, inl (m, cut, ground (arith, valid, read, made, failed, cut)))
              ]
              | inl wrote ↦ inr (
                u,
                found,
                inr (
                    ap (λ r. r.1)
                      (upload_part_lem st hash b k id n body env u valid found read made wrote)),
              )
            ]
      ]
    ]
  ]

module _ (hash : Text → Text) where
  abbrev pub IsComplete : {Db : Type 0} → Store Db → Type 0
  IsComplete st = AreUploaded hash st.data_dir st.files st.uploads

  module _ {Db : Type 0} where
    pub KeepsParts-IsComplete :
        (st st' : Store Db) → KeepsParts st st' → IsComplete st → IsComplete st'
    KeepsParts-IsComplete st st' (dir, uploads, files) h =
        rw (dir, uploads) (AreUploaded-same hash st.data_dir st.files st'.files st.uploads files h)

    cleanup_upload-IsComplete :
        (id : Text) (st : Store Db) → IsName id → IsComplete st → IsComplete (cleanup_upload id st)
    unfolding cleanup_upload
    cleanup_upload-IsComplete id st name h =
        remove_all-AreUploaded hash st.data_dir st.held id st.files st.uploads name h

    cleanup_all-IsComplete :
        (ids : List Text) (st : Store Db)
        → All IsName ids
        → IsComplete st
        → IsComplete (cleanup_all ids st)
    unfolding cleanup_all
    cleanup_all-IsComplete [] st names h = h
    cleanup_all-IsComplete (id ∷ ids) st (name, names) h =
        cleanup_all-IsComplete ids (cleanup_upload id st) names
          (cleanup_upload-IsComplete id st name h)

    module _ (st : Store Db) (h : IsComplete st) where
      pub abort_stale_uploads-IsComplete :
          (max_age now : ℕ) → IsComplete (abort_stale_uploads max_age now st).1
      unfolding abort_stale_uploads
      abort_stale_uploads-IsComplete max_age now =
          cleanup_all-IsComplete (stale_ids max_age now st.uploads) st
            (stale_ids-AreNames max_age now st.uploads (λ id u found. (h id u found).0)) h

      pub abort_multipart_upload-IsComplete :
          (b k id : Text) → IsComplete (abort_multipart_upload b k id st).1
      unfolding abort_multipart_upload
      abort_multipart_upload-IsComplete b k id = elim (Outcome-cases (validate_upload st b k id)) [
        | inr (inl (e, refused)) ↦ rw (refused, abort_multipart_upload) h
        | inr (inr refused) ↦ rw (refused, abort_multipart_upload) h
        | inl (_, valid) ↦
            let (u, found, _, _) = validate_upload-ok st b k id valid in
            rw (valid, abort_multipart_upload) (cleanup_upload-IsComplete id st (h id u found).0 h)
      ]

      pub complete_multipart_upload-IsComplete :
          (json : Codec ObjectMeta) (op_json : Codec RaftOp) (b k id : Text)
          (parts : List CompletedPart) (env : Env)
          → IsComplete (complete_multipart_upload json op_json hash b k id parts env st).1
      unfolding complete_multipart_upload validate_upload
      complete_multipart_upload-IsComplete json op_json b k id parts env =
          elim (Option-cases (lookup id st.uploads)) [
            | inl gone ↦
                let same : (complete_multipart_upload json op_json hash b k id parts env st).1
                    ≡ st =
                  ground (arith, gone) in
                subst IsComplete (sym same) h
            | inr (u, found) ↦
                let (st', kept, ends) =
                  complete_multipart_upload-KeepsParts json op_json hash b k id parts env st in
                let h' = KeepsParts-IsComplete st st' kept h in
                elim ends [
                  | inl same ↦ subst IsComplete (sym same) h'
                  | inr cleaned ↦
                      subst IsComplete (sym cleaned)
                        (cleanup_upload-IsComplete id st' (h id u found).0 h')
                ]
          ]

      -- If the write fails, it does so before it has opened the file, or no such part is registered.
      abbrev pub SparesPart : Env → Text → ℕ → Type 0
      SparesPart env id n =
          (env.written ≡ none)
          ⊎ ((u : Upload) → lookup id st.uploads ≡ some u → lookup n u.parts ≡ none)

      pub upload_part-IsComplete :
          (b k id : Text) (n : ℕ) (body : Text) (env : Env)
          → n < 2 ^ 63
          → SparesPart env id n
          → IsComplete (upload_part hash b k id n body env st).1
      upload_part-IsComplete b k id n body env small spares =
          elim (upload_part-cases hash st b k id n body env) [
            | inl same ↦ subst IsComplete (sym same) h
            | inr (u, found, inl (m, cut, ends)) ↦ elim spares [
              | inl unopened ↦ absurd (ground (arith, cut, unopened))
              | inr new ↦ subst IsComplete (sym ends) (
                  unregistered-AreUploaded hash st.data_dir id n (take m (content_of body)) st.files
                    u st.uploads found (new u found) small h)
            ]
            | inr (u, found, inr ends) ↦ subst IsComplete (sym ends) (
                with_part-AreUploaded hash st.data_dir id n (content_of body) st.files
                  (part_of hash n body env) u st.uploads found refl small refl refl h)
          ]

module _ (hash : Text → Text) (bolt : Bolt) (bucket_json : Codec BucketMeta) where
  pub new_multipart_upload-IsComplete :
      (b k : Text) (env : Env) (st : Store bolt.Db)
      → IsName env.random
      → IsComplete hash st
      → IsComplete hash (new_multipart_upload bolt bucket_json b k env st).1
  unfolding new_multipart_upload
  new_multipart_upload-IsComplete b k env st random h =
      elim (Outcome-cases (get_bucket bolt bucket_json st b)) [
        | inr (inl (e, missing)) ↦ rw (missing, new_multipart_upload) h
        | inr (inr missing) ↦ rw (missing, new_multipart_upload) h
        | inl (bucket, there) ↦
            rw (there, new_multipart_upload)
              (insert-AreUploaded hash st.data_dir
                (format_int (unix_nano env.now) ++ (codes "-" ++ env.random)) _ st.files st.uploads
                (ground (
                  arith,
                  all-++ no_slash (format_int (unix_nano env.now)) (codes "-" ++ env.random),
                  format_int-no_slash (unix_nano env.now),
                  random,
                ))
                refl h)
      ]
