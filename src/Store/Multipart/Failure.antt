-- ===== src/Store/Multipart/Failure.antt =====
-- internal/store/multipart.go: a completion that fails.
use jario.Base.{◌≡◌, ◌≢◌, List, arith}
use jario.Text.{Text}
use jario.Outcome.{ok, Codec}
use jario.MetaStore.Versions.{ObjectMeta}
use jario.Raft.Fsm.{RaftOp}
use jario.Store.State.{Store, Env, write_blob}
use jario.Store.Multipart.Complete.{CompletedPart, complete_multipart_upload}

module _ {Db : Type 0} where
  write_blob-uploads :
      (sha content : Text) (env : Env) (st : Store Db)
      → (write_blob sha content env st).1.uploads ≡ st.uploads
  unfolding write_blob
  write_blob-uploads sha content env st = ground arith

  -- A completion that does not succeed removes no upload and no part from the list of uploads, so
  -- that the client can try again.
  pub complete_multipart_upload-fails :
      (json : Codec ObjectMeta) (op_json : Codec RaftOp) (hash : Text → Text) (b k id : Text)
      (parts : List CompletedPart) (env : Env) (st : Store Db)
      → (complete_multipart_upload json op_json hash b k id parts env st).0 ≢ ok tt
      → (complete_multipart_upload json op_json hash b k id parts env st).1.uploads ≡ st.uploads
  unfolding complete_multipart_upload
  complete_multipart_upload-fails json op_json hash b k id parts env st h =
      grind (arith, write_blob-uploads)
