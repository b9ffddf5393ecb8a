-- ===== src/Store/Multipart/Sequence.antt =====
-- internal/store/multipart.go: what a completion finds, whatever whole calls have run before it.
use jario.Base.{
  ℕ, Bool, ◌+◌, ◌%◌, ◌^◌, ◌<◌, ◌≡◌, List, [], ◌∷◌, Option, none, some, arith, length, All, All-imp,
  Option-cases, Bool-cases, inl, inr, ◌⊎◌, nat_eq,
}
use jario.Text.{Text, text_eq, text_eq_iff, text_eq_inst}
use jario.Outcome.{ok, Codec}
use jario.GoMap.{GoMap, lookup}
use jario.BucketDb.{Bolt, BucketMeta}
use jario.MetaStore.Versions.{ObjectMeta}
use jario.MetaStore.Ops.{new_meta_store}
use jario.Raft.Fsm.{RaftOp, Raft}
use jario.Store.State.{Store, Env, Part, Upload, new_store, set_raft}
use jario.Store.Objects.{put_object, delete_object, create_bucket, delete_bucket}
use jario.Store.Multipart.Uploads.{
  part_path, upload_part, abort_multipart_upload, new_multipart_upload,
}
use jario.Store.Multipart.Complete.{
  CompletedPart, trim_quotes, check_parts, read_parts, complete_multipart_upload,
}
use jario.Store.Multipart.Lists.{abort_stale_uploads}
use jario.Store.Multipart.Paths.{IsName}
use jario.Store.Multipart.Kept.{put_object-KeepsParts, delete_object-KeepsParts}
use jario.Store.Multipart.Completion.{IsUploaded, joined, check_parts_lem, read_parts_lem}
use jario.Store.Multipart.Registered.{
  IsComplete, KeepsParts-IsComplete, abort_stale_uploads-IsComplete,
  abort_multipart_upload-IsComplete, complete_multipart_upload-IsComplete, upload_part-IsComplete,
  new_multipart_upload-IsComplete,
}

-- The client names this part by its ETag.
abbrev IsListed : GoMap ℕ Part → CompletedPart → Type 0
IsListed parts cp =
    (p : Part) × (lookup cp.part_number parts ≡ some p) × (trim_quotes cp.etag ≡ p.etag)

check_parts-IsListed :
    (parts : GoMap ℕ Part) (cps : List CompletedPart) (t total : ℕ)
    → check_parts parts cps t ≡ ok total
    → All (IsListed parts) cps
unfolding check_parts
check_parts-IsListed parts [] t total h = tt
check_parts-IsListed parts (cp ∷ cps) t total h =
    elim (Option-cases (lookup cp.part_number parts)) [
      | inl missing ↦ absurd (ground (arith, missing))
      | inr (p, there) ↦ elim (Bool-cases (text_eq (trim_quotes cp.etag) p.etag)) [
        | inr other ↦ absurd (ground (arith, there, other))
        | inl same ↦ (
          (p, there, (text_eq_iff (trim_quotes cp.etag) p.etag).0 same),
          check_parts-IsListed parts cps ((t + p.size) % 2 ^ 64) total
              (ground (arith, there, same)),
        )
      ]
    ]

abbrev or_empty : Option Text → Text
or_empty none = []
or_empty (some s) = s

module _ (bolt : Bolt) (bucket_json : Codec BucketMeta) (json : Codec ObjectMeta)
    (op_json : Codec RaftOp) (hash : Text → Text) where
  -- One whole call, which may succeed or fail, on a node with or without Raft. A write of a part
  -- that fails does so before the file is opened, or the part is not registered yet; a failed write of
  -- a blob may have cut its file short. Between the calls it may change which files cannot be removed.
  pub data Call (st : Store bolt.Db) : Store bolt.Db → Type 0 where
    puts : (b k body : Text) (env : Env) → Call st (put_object json op_json hash b k body env st).1
    deletes : (b k vid : Text) (env : Env) → Call st (delete_object json op_json b k vid env st).1
    creates : (name : Text) (env : Env) → Call st (create_bucket bolt bucket_json name env st).1
    drops : (name : Text) → Call st (delete_bucket bolt bucket_json name st).1
    begins :
        (b k : Text) (env : Env)
        → IsName env.random
        → Call st (new_multipart_upload bolt bucket_json b k env st).1
    uploads :
        (b k id : Text) (n : ℕ) (body : Text) (env : Env)
        → n < 2 ^ 63
        → (env.written ≡ none)
          ⊎ ((u : Upload) → lookup id st.uploads ≡ some u → lookup n u.parts ≡ none)
        → Call st (upload_part hash b k id n body env st).1
    completes :
        (b k id : Text) (parts : List CompletedPart) (env : Env)
        → Call st (complete_multipart_upload json op_json hash b k id parts env st).1
    aborts : (b k id : Text) → Call st (abort_multipart_upload b k id st).1
    reaps : (max_age now : ℕ) → Call st (abort_stale_uploads max_age now st).1
    holds : (held : Text → Bool) → Call st (record st { held = held })

  pub data Calls : Store bolt.Db → Type 0 where
    opened :
        (raft : Option Raft) (data_dir : Text) (db : bolt.Db) (files : GoMap Text Text)
        → Calls (set_raft raft (new_store data_dir (new_meta_store bolt bucket_json db) files))
    more : {st st' : Store bolt.Db} → Calls st → Call st st' → Calls st'

  Call-IsComplete :
      {st st' : Store bolt.Db} → Call st st' → IsComplete hash st → IsComplete hash st'
  unfolding create_bucket delete_bucket
  Call-IsComplete {st} (puts b k body env) h =
      KeepsParts-IsComplete hash st (put_object json op_json hash b k body env st).1
        (put_object-KeepsParts st json op_json hash b k body env) h
  Call-IsComplete {st} (deletes b k vid env) h =
      KeepsParts-IsComplete hash st (delete_object json op_json b k vid env st).1
        (delete_object-KeepsParts json op_json b k vid env st) h
  Call-IsComplete {st} (creates name env) h = h
  Call-IsComplete {st} (drops name) h = h
  Call-IsComplete {st} (begins b k env random) h =
      new_multipart_upload-IsComplete hash bolt bucket_json b k env st random h
  Call-IsComplete {st} (uploads b k id n body env small unopened) h =
      upload_part-IsComplete hash st h b k id n body env small unopened
  Call-IsComplete {st} (completes b k id parts env) h =
      complete_multipart_upload-IsComplete hash st h json op_json b k id parts env
  Call-IsComplete {st} (aborts b k id) h = abort_multipart_upload-IsComplete hash st h b k id
  Call-IsComplete {st} (reaps max_age now) h = abort_stale_uploads-IsComplete hash st h max_age now
  Call-IsComplete (holds held) h = h

  Calls-IsComplete : {st : Store bolt.Db} → Calls st → IsComplete hash st
  unfolding lookup
  Calls-IsComplete (opened raft data_dir db files) = λ id u found. absurd (cc)
  Calls-IsComplete (more calls call) = Call-IsComplete call (Calls-IsComplete calls)

  module _ {st : Store bolt.Db} (calls : Calls st) (id : Text) (u : Upload)
      (there : lookup id st.uploads ≡ some u) where
    abbrev pub contents : ℕ → Text
    contents n = or_empty (lookup (part_path st.data_dir id n) st.files)

    IsListed-IsUploaded :
        (cp : CompletedPart)
        → IsListed u.parts cp
        → IsUploaded st id u contents cp × (hash (contents cp.part_number) ≡ trim_quotes cp.etag)
    IsListed-IsUploaded cp (p, registered, named) =
        let (small, content, file, tag, size) =
          (Calls-IsComplete calls id u there).1 cp.part_number p registered in
        (
          (p, registered, named, ground (arith, file, size), ground (arith, file)),
          ground (arith, file, tag, named),
        )

    -- Whatever whole calls have run since the store was opened, with or without Raft, also ones
    -- that failed on the way: if the parts that a client names pass the check of a completion,
    -- their files are all there and are read, the hash of each content is the ETag that the client
    -- named, and the total size that the check has found is that of the contents, if it fits in an
    -- int64. The random digits of an upload ID have no slash, and part numbers are below 2^63. A
    -- write of a part that fails does so before it has opened the file, or no part of that number
    -- is registered; a failed write of a blob may have cut its file short, and removals may fail.
    pub Calls-read_parts :
        (parts : List CompletedPart) (total : ℕ)
        → check_parts u.parts parts 0 ≡ ok total
        → (contents : ℕ → Text) × All
            (λ cp. hash (contents cp.part_number) ≡ trim_quotes cp.etag)
            parts
          × (read_parts st.data_dir id st.files parts [] ≡ ok (joined contents parts))
          × (length (joined contents parts) < 2 ^ 64 → total ≡ length (joined contents parts))
    Calls-read_parts parts total checked =
        let listed = check_parts-IsListed u.parts parts 0 total checked in
        let uploaded = All-imp (λ cp l. (IsListed-IsUploaded cp l).0) parts listed in
        (
          contents,
          All-imp (λ cp l. (IsListed-IsUploaded cp l).1) parts listed,
          read_parts_lem st id u contents parts [] uploaded,
          λ bound. ground (
            arith,
            checked,
            check_parts_lem st id u contents parts 0 uploaded (ground (arith, bound)),
          ),
        )
