-- ===== src/Store/Multipart/Cases.antt =====
-- internal/store/multipart.go: a completion changes nothing, or comes to where it writes the blob.
use jario.Base.{ℕ, ◌≡◌, ◌⊎◌, List, [], arith, inl, inr, Option-cases, nat_eq}
use jario.Text.{Text, codes, text_eq_inst}
use jario.Outcome.{Codec, wrap, Outcome-cases}
use jario.Action.{Action, lift, modify, ◌>>=◌, ◌>>◌}
use jario.GoMap.{lookup}
use jario.Sort.{sort}
use jario.MetaStore.Versions.{ObjectMeta}
use jario.Raft.Fsm.{RaftOp, put_op}
use jario.Store.State.{Store, Env, write_blob}
use jario.Store.Objects.{object_meta, apply}
use jario.Store.Multipart.Uploads.{validate_upload, cleanup_upload}
use jario.Store.Multipart.Complete.{
  CompletedPart, less_completed, check_parts, read_parts, complete_multipart_upload,
}

module _ {Db : Type 0} (json : Codec ObjectMeta) (op_json : Codec RaftOp) (hash : Text → Text)
    (b k id : Text) (env : Env) where
  -- The end of `CompleteMultipartUpload`, from the blob on.
  abbrev pub finish : ℕ → Text → Action (Store Db) (Unit {0})
  finish total combined = do
    (λ st.
        let (r, st') = write_blob (hash combined) combined env st in
        (wrap (codes "write blob: ") r, st'))
    text ← lift (json.marshal (object_meta k total (hash combined) env.now))
    apply json op_json (put_op b k text) env.now
    modify (cleanup_upload id)

  pub complete_multipart_upload-cases :
      (parts : List CompletedPart) (st : Store Db)
      → ((complete_multipart_upload json op_json hash b k id parts env st).1 ≡ st)
        ⊎ ((total : ℕ) × (combined : Text) × ((complete_multipart_upload json op_json hash b k id
                parts env st).1
              ≡ (finish total combined st).1))
  unfolding complete_multipart_upload
  complete_multipart_upload-cases parts st =
      let sorted = sort less_completed parts in
      elim (Outcome-cases (validate_upload st b k id)) [
        | inr (inl (e, refused)) ↦ inl (ground (arith, refused))
        | inr (inr refused) ↦ inl (ground (arith, refused))
        | inl (_, valid) ↦ elim (Option-cases (lookup id st.uploads)) [
          | inl gone ↦ inl (ground (arith, valid, gone))
          | inr (u, there) ↦ elim (Outcome-cases (check_parts u.parts sorted 0)) [
            | inr (inl (e, refused)) ↦ inl (ground (arith, valid, there, refused))
            | inr (inr refused) ↦ inl (ground (arith, valid, there, refused))
            | inl (total, checked) ↦
                elim (Outcome-cases (read_parts st.data_dir id st.files sorted [])) [
                  | inr (inl (e, unread)) ↦ inl (ground (arith, valid, there, checked, unread))
                  | inr (inr unread) ↦ inl (ground (arith, valid, there, checked, unread))
                  | inl (combined, read) ↦
                      inr (total, combined, ground (arith, valid, there, checked, read))
                ]
          ]
        ]
      ]
