-- ===== src/Store/Multipart/Stored.antt =====
-- internal/store/multipart.go: a completion, wherever it stops, leaves no version without its
-- blob, unless its write fails and has cut a file short.
use jario.Base.{
  ℕ, ◌≡◌, refl, ◌∙◌, sym, subst, ◌⊎◌, inl, inr, List, [], none, arith, length, Option-cases, nat_eq,
}
use jario.Text.{Text, text_eq_inst}
use jario.Outcome.{Codec, RoundTrips, Outcome-cases}
use jario.MetaStore.Versions.{ObjectMeta}
use jario.MetaStore.Ops
use jario.Raft.Fsm.{RaftOp}
use jario.Store.State.{Store, Env}
use jario.Store.Objects.{object_meta}
use jario.Store.Blobs.{write_blob-eq, raft_apply-put}
use jario.Store.Intact.{IsIntact, Leaves, Leaves-IsIntact, write_blob-fails}
use jario.Store.Multipart.Uploads.{cleanup_upload}
use jario.Store.Multipart.Complete.{CompletedPart, complete_multipart_upload}
use jario.Store.Multipart.Cases.{finish, complete_multipart_upload-cases}
use jario.Store.Multipart.Intact.{cleanup_upload-IsIntact}

module _ (hash : Text → Text) (digits : (content : Text) → length (hash content) ≡ 64) {Db : Type 0}
    (st : Store Db) (intact : IsIntact hash st) (json : Codec ObjectMeta) (op_json : Codec RaftOp)
    (b k id : Text) (parts : List CompletedPart) (env : Env)
    (trips : (size : ℕ) (content : Text)
      → RoundTrips json (object_meta k size (hash content) env.now))
    (unopened : env.written ≡ none) where
  abbrev completed : Store Db
  completed = (complete_multipart_upload json op_json hash b k id parts env st).1

  -- A completion leaves what a put may leave, with the upload or without it.
  abbrev Changes : Type 0
  Changes =
      (content : Text) × (size : ℕ) × (st' : Store Db) × Leaves hash digits st intact b k content
        size env.now st'
      × ((completed ≡ st') ⊎ (completed ≡ cleanup_upload id st'))

  unchanged : completed ≡ st → Changes
  unchanged same = ([], 0, st, inl refl, inl same)

  stored-Changes :
      (total : ℕ) (combined : Text)
      → completed ≡ (finish json op_json hash b k id env total combined st).1
      → Changes
  stored-Changes total combined ends =
      let meta = object_meta k total (hash combined) env.now in
      elim (Option-cases env.write_error) [
        | inr (problem, failed) ↦ unchanged (
            ends
            ∙ ground (
              arith,
              write_blob-fails hash digits st intact combined problem env failed unopened,
            ))
        | inl wrote ↦
            let blob =
              write_blob-eq st (hash combined) combined env (omega (arith, digits combined))
                wrote in
            elim (Outcome-cases (json.marshal meta)) [
              | inr (inl (e, failed)) ↦
                  (combined, total, _, inr (inl refl), inl (ends ∙ ground (arith, blob, failed)))
              | inr (inr failed) ↦
                  (combined, total, _, inr (inl refl), inl (ends ∙ ground (arith, blob, failed)))
              | inl (text, marshalled) ↦
                  let applied =
                    raft_apply-put json op_json hash st.meta b k text meta env.now
                      (trips total combined text marshalled) in
                  elim (Outcome-cases (Ops.put_object st.meta b k meta).0) [
                    | inl (vid, done) ↦ (
                      combined,
                      total,
                      _,
                      inr (inr refl),
                      inr (ends ∙ ground (arith, blob, marshalled, intact.0, applied, done)),
                    )
                    | inr (inl (e, failed)) ↦ (
                      combined,
                      total,
                      _,
                      inr (inr refl),
                      inl (ends ∙ ground (arith, blob, marshalled, intact.0, applied, failed)),
                    )
                    | inr (inr failed) ↦ (
                      combined,
                      total,
                      _,
                      inr (inr refl),
                      inl (ends ∙ ground (arith, blob, marshalled, intact.0, applied, failed)),
                    )
                  ]
            ]
      ]

  complete_multipart_upload-Changes : Changes
  complete_multipart_upload-Changes =
      elim (complete_multipart_upload-cases json op_json hash b k id env parts st) [
        | inl same ↦ unchanged same
        | inr (total, combined, ends) ↦ stored-Changes total combined ends
      ]

  pub complete_multipart_upload-IsIntact : IsIntact hash completed
  complete_multipart_upload-IsIntact =
      let (content, size, st', left, ends) = complete_multipart_upload-Changes in
      let kept = Leaves-IsIntact hash digits st intact b k content size env.now st' left in
      elim ends [
        | inl same ↦ subst (IsIntact hash) (sym same) kept
        | inr cleaned ↦
            subst (IsIntact hash) (sym cleaned) (cleanup_upload-IsIntact hash id st' kept)
      ]
