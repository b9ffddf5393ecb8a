-- ===== src/Store/Reach.antt =====
-- internal/store/store.go and multipart.go: the stores that requests can reach without Raft, when no
-- version is deleted by its ID.
use jario.Base.{ℕ, Bool, none, ◌≡◌, refl, [], List, length, inl, inr, ◌⊎◌}
use jario.Text.{Text, text_eq_inst}
use jario.Outcome.{ok, Codec, RoundTrips, Outcome-cases}
use jario.GoMap.{GoMap, lookup}
use jario.BucketDb.{Bolt, BucketMeta}
use jario.MetaStore.Versions.{ObjectMeta}
use jario.MetaStore.Ops
use jario.MetaStore.Ops.{new_meta_store}
use jario.MetaStore.Contents.{create_bucket-AllMetas, delete_bucket-AllMetas}
use jario.Raft.Fsm.{RaftOp}
use jario.Store.State.{Store, Env, Part, new_store}
use jario.Store.Objects.{
  object_meta, put_object, get_object, delete_object, create_bucket, delete_bucket, get_bucket,
}
use jario.Store.Blobs.{meta_of, path_of, content_of}
use jario.Store.Intact.{IsIntact, put_object-IsIntact, delete_marker-IsIntact, get_object-IsIntact}
use jario.Store.Multipart.Uploads.{
  write_part, register_part, abort_multipart_upload, new_multipart_upload,
}
use jario.Store.Multipart.Complete.{CompletedPart, complete_multipart_upload}
use jario.Store.Multipart.Lists.{abort_stale_uploads}
use jario.Store.Multipart.Stored.{complete_multipart_upload-IsIntact}
use jario.Store.Multipart.Intact.{
  write_part-IsIntact, register_part-IsIntact, abort_multipart_upload-IsIntact,
  abort_stale_uploads-IsIntact,
}

module _ (bolt : Bolt) (bucket_json : Codec BucketMeta) (json : Codec ObjectMeta)
    (op_json : Codec RaftOp) (hash : Text → Text) where
  -- One call, which may succeed or fail. The two steps of `UploadPart` are apart, so that other
  -- calls may run between them. The metadata that is written to JSON is read back. A write of a blob
  -- that fails does so before the file is opened, or in a put that file was not there; a failed write
  -- of a part may have cut its file short. Between the calls it may change which files cannot be removed.
  pub data Step (st : Store bolt.Db) : Store bolt.Db → Type 0 where
    puts :
        (b k body : Text) (env : Env)
        → RoundTrips json (meta_of hash k body env)
        → (env.written ≡ none)
          ⊎ (lookup (path_of st.data_dir (hash (content_of body))) st.files ≡ none)
        → Step st (put_object json op_json hash b k body env st).1
    hides : (b k : Text) (env : Env) → Step st (delete_object json op_json b k [] env st).1
    creates : (name : Text) (env : Env) → Step st (create_bucket bolt bucket_json name env st).1
    drops : (name : Text) → Step st (delete_bucket bolt bucket_json name st).1
    begins : (b k : Text) (env : Env) → Step st (new_multipart_upload bolt bucket_json b k env st).1
    writes :
        (b k id : Text) (n : ℕ) (body : Text) (env : Env)
        → Step st (write_part hash b k id n body env st).1
    registers : (id : Text) (part : Part) → Step st (register_part id part st).1
    completes :
        (b k id : Text) (parts : List CompletedPart) (env : Env)
        → ((size : ℕ) (content : Text)
            → RoundTrips json (object_meta k size (hash content) env.now))
        → env.written ≡ none
        → Step st (complete_multipart_upload json op_json hash b k id parts env st).1
    aborts : (b k id : Text) → Step st (abort_multipart_upload b k id st).1
    reaps : (max_age now : ℕ) → Step st (abort_stale_uploads max_age now st).1
    holds : (held : Text → Bool) → Step st (record st { held = held })

  pub data Reach : Store bolt.Db → Type 0 where
    start :
        (data_dir : Text) (db : bolt.Db) (files : GoMap Text Text)
        → Reach (new_store data_dir (new_meta_store bolt bucket_json db) files)
    next : {st st' : Store bolt.Db} → Reach st → Step st st' → Reach st'

  new_multipart_upload-IsIntact :
      (b k : Text) (env : Env) (st : Store bolt.Db)
      → IsIntact hash st
      → IsIntact hash (new_multipart_upload bolt bucket_json b k env st).1
  unfolding new_multipart_upload
  new_multipart_upload-IsIntact b k env st h =
      elim (Outcome-cases (get_bucket bolt bucket_json st b)) [
        | inl (bucket, there) ↦ rw (there, new_multipart_upload) h
        | inr (inl (e, missing)) ↦ rw (missing, new_multipart_upload) h
        | inr (inr missing) ↦ rw (missing, new_multipart_upload) h
      ]

  module _ (digits : (content : Text) → length (hash content) ≡ 64) where
    Step-IsIntact : {st st' : Store bolt.Db} → Step st st' → IsIntact hash st → IsIntact hash st'
    unfolding create_bucket delete_bucket
    Step-IsIntact {st} (puts b k body env trips unopened) h =
        put_object-IsIntact hash digits st h json op_json b k body env trips unopened
    Step-IsIntact {st} (hides b k env) h =
        delete_marker-IsIntact hash digits st h json op_json b k env
    Step-IsIntact {st} (creates name env) h =
        (h.0, create_bucket-AllMetas _ bolt bucket_json st.meta name env.now h.1)
    Step-IsIntact {st} (drops name) h =
        (h.0, delete_bucket-AllMetas _ bolt bucket_json st.meta name h.1)
    Step-IsIntact {st} (begins b k env) h = new_multipart_upload-IsIntact b k env st h
    Step-IsIntact {st} (writes b k id n body env) h =
        write_part-IsIntact hash st h b k id n body env
    Step-IsIntact {st} (registers id part) h = register_part-IsIntact hash st h id part
    Step-IsIntact {st} (completes b k id parts env trips unopened) h =
        complete_multipart_upload-IsIntact hash digits st h json op_json b k id parts env trips
          unopened
    Step-IsIntact {st} (aborts b k id) h = abort_multipart_upload-IsIntact hash st h b k id
    Step-IsIntact {st} (reaps max_age now) h = abort_stale_uploads-IsIntact hash max_age now st h
    Step-IsIntact (holds held) h = h

    Reach-IsIntact : {st : Store bolt.Db} → Reach st → IsIntact hash st
    unfolding new_meta_store
    Reach-IsIntact (start data_dir db files) = (refl, tt)
    Reach-IsIntact (next r s) = Step-IsIntact s (Reach-IsIntact r)

    -- Whatever calls have run without Raft since the store was opened, also ones that failed on
    -- the way, a key that a plain read of the metadata finds has its content on the disk: a get
    -- returns it, and its hash is the one in the metadata. The calls are puts, deletes without a
    -- version ID, bucket creations and deletions, and the steps of uploads in parts; no version is
    -- deleted by its ID, hashes have 64 digits, and metadata is read back from JSON. A write of a
    -- blob that fails does so before it has opened the file, or, in a put, no such file was there;
    -- a failed write of a part may have cut its file short, and removals may fail.
    pub Reach-get_object :
        {st : Store bolt.Db} (b k : Text) (meta : ObjectMeta)
        → Reach st
        → Ops.get_object st.meta b k [] ≡ ok meta
        → (content : Text) × (get_object st b k [] ≡ ok (content, meta))
          × (hash content ≡ meta.sha256)
    Reach-get_object {st} b k meta r read =
        get_object-IsIntact hash digits st (Reach-IsIntact r) b k meta read
