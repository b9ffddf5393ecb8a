-- ===== src/Store/Intact.antt =====
-- internal/store/store.go: every version that is no delete marker has its blob, and the writes keep
-- it so, unless they fail and cut a blob short that was there.
use jario.Base.{
  ℕ, ◌≡◌, refl, sym, subst, ◌⊎◌, inl, inr, [], none, some, arith, take, length, Option-cases,
}
use jario.Text.{Text, text_eq, text_eq_inst}
use jario.Outcome.{ok, err, other, Codec, RoundTrips, Outcome-cases}
use jario.GoMap.{lookup, insert}
use jario.MetaStore.Versions.{ObjectMeta}
use jario.MetaStore.Ops
use jario.MetaStore.Contents.{
  AllMetas, AllMetas-imp, put_object-AllMetas, delete_marker-AllMetas, get_object-holds,
}
use jario.Raft.Fsm.{RaftOp}
use jario.Store.State.{Store, Env, write_blob, partly_written}
use jario.Store.Objects.{object_meta, put_object, get_object, delete_object}
use jario.Store.Blobs.{path_of, blob_path-eq, write_blob-eq, content_of, meta_of, raft_apply-put}
use jario.Store.VersionBlobs.{HasBlob, write-HasBlob, written-HasBlob, fresh-HasBlob}

abbrev pub IsIntact : (hash : Text → Text) → {Db : Type 0} → Store Db → Type 0
IsIntact hash st = (st.raft ≡ none) × AllMetas (HasBlob hash st.data_dir st.files) st.meta.objects

module _ (hash : Text → Text) (digits : (content : Text) → length (hash content) ≡ 64) where
  module _ {Db : Type 0} (st : Store Db) (intact : IsIntact hash st) where
    -- The blob alone is written.
    abbrev pub with_blob : Text → Store Db
    with_blob content = record st {
      files = insert (path_of st.data_dir (hash content)) content st.files;
    }

    pub with_blob-IsIntact : (content : Text) → IsIntact hash (with_blob content)
    with_blob-IsIntact content = (
      intact.0,
      AllMetas-imp (write-HasBlob hash digits st.data_dir content st.files) st.meta.objects
          intact.1,
    )

    -- The blob is written, and then its metadata.
    abbrev pub with_object : (b k content : Text) (size now : ℕ) → Store Db
    with_object b k content size now = record (with_blob content) {
      meta = (Ops.put_object st.meta b k (object_meta k size (hash content) now)).1;
    }

    pub with_object-IsIntact :
        (b k content : Text) (size now : ℕ) → IsIntact hash (with_object b k content size now)
    with_object-IsIntact b k content size now = (
      intact.0,
      put_object-AllMetas _ st.meta b k (object_meta k size (hash content) now)
          (written-HasBlob hash digits st.data_dir k content st.files size now)
          (with_blob-IsIntact content).1,
    )

    -- What a call may leave: the store as it was, with a blob more, or with an object more.
    abbrev pub Leaves : (b k content : Text) (size now : ℕ) → Store Db → Type 0
    Leaves b k content size now st' =
        (st' ≡ st) ⊎ ((st' ≡ with_blob content) ⊎ (st' ≡ with_object b k content size now))

    pub Leaves-IsIntact :
        (b k content : Text) (size now : ℕ) (st' : Store Db)
        → Leaves b k content size now st'
        → IsIntact hash st'
    Leaves-IsIntact b k content size now st' (inl same) = subst (IsIntact hash) (sym same) intact
    Leaves-IsIntact b k content size now st' (inr (inl blob)) =
        subst (IsIntact hash) (sym blob) (with_blob-IsIntact content)
    Leaves-IsIntact b k content size now st' (inr (inr object)) =
        subst (IsIntact hash) (sym object) (with_object-IsIntact b k content size now)

    pub write_blob-fails :
        (content problem : Text) (env : Env)
        → env.write_error ≡ some problem
        → env.written ≡ none
        → write_blob (hash content) content env st ≡ (err (other problem), st)
    unfolding write_blob partly_written
    write_blob-fails content problem env failed unopened = ground (
      arith,
      blob_path-eq st.data_dir (hash content) (omega (arith, digits content)),
      failed,
      unopened,
    )

    put_object-Leaves :
        (json : Codec ObjectMeta) (op_json : Codec RaftOp) (b k body : Text) (env : Env)
        → RoundTrips json (meta_of hash k body env)
        → (env.written ≡ none) ⊎ (env.write_error ≡ none)
        → Leaves b k
            (content_of body)
            (length (content_of body))
            env.now
            (put_object json op_json hash b k body env st).1
    unfolding put_object
    put_object-Leaves json op_json b k body env trips whole =
        let content = content_of body in
        elim (Option-cases env.read_error) [
          | inr (problem, unread) ↦ inl (ground (arith, unread))
          | inl read ↦ elim (Option-cases env.write_error) [
            | inr (problem, unwritten) ↦
                let unopened : env.written ≡ none = ground (arith, whole, unwritten) in
                inl (ground (arith, read, write_blob-fails content problem env unwritten unopened))
            | inl wrote ↦
                let blob =
                  write_blob-eq st (hash content) content env (omega (arith, digits content))
                    wrote in
                elim (Outcome-cases (json.marshal (meta_of hash k body env))) [
                  | inr (inl (e, failed)) ↦ inr (inl (ground (arith, read, blob, failed)))
                  | inr (inr failed) ↦ inr (inl (ground (arith, read, blob, failed)))
                  | inl (text, marshalled) ↦
                      let applied =
                        raft_apply-put json op_json hash st.meta b k text (meta_of hash k body env)
                          env.now (trips text marshalled) in
                      inr (inr (ground (arith, read, blob, marshalled, intact.0, applied)))
                ]
          ]
        ]

    -- The write of the blob fails after it has emptied the file.
    abbrev cut_blob : Text → ℕ → Store Db
    cut_blob content n = record st {
      files = insert (path_of st.data_dir (hash content)) (take n content) st.files;
    }

    put_object-cut :
        (json : Codec ObjectMeta) (op_json : Codec RaftOp) (b k body : Text) (env : Env)
        (problem : Text) (n : ℕ)
        → env.write_error ≡ some problem
        → env.written ≡ some n
        → ((put_object json op_json hash b k body env st).1 ≡ st)
          ⊎ ((put_object json op_json hash b k body env st).1 ≡ cut_blob (content_of body) n)
    unfolding put_object write_blob partly_written
    put_object-cut json op_json b k body env problem n failed cut =
        let path =
          blob_path-eq st.data_dir (hash (content_of body))
            (omega (arith, digits (content_of body))) in
        elim (Option-cases env.read_error) [
          | inr (e, unread) ↦ inl (ground (arith, unread))
          | inl read ↦ inr (ground (arith, read, path, failed, cut))
        ]

    cut_blob-IsIntact :
        (content : Text) (n : ℕ)
        → lookup (path_of st.data_dir (hash content)) st.files ≡ none
        → IsIntact hash (cut_blob content n)
    cut_blob-IsIntact content n absent = (
      intact.0,
      AllMetas-imp
          (fresh-HasBlob hash digits st.data_dir (hash content) (take n content) st.files absent)
          st.meta.objects intact.1,
    )

    -- If the write fails, it does so before it has opened the file, or there was no such file.
    abbrev pub Spares : Env → Text → Type 0
    Spares env content =
        (env.written ≡ none) ⊎ (lookup (path_of st.data_dir (hash content)) st.files ≡ none)

    pub put_object-IsIntact :
        (json : Codec ObjectMeta) (op_json : Codec RaftOp) (b k body : Text) (env : Env)
        → RoundTrips json (meta_of hash k body env)
        → Spares env (content_of body)
        → IsIntact hash (put_object json op_json hash b k body env st).1
    put_object-IsIntact json op_json b k body env trips spares =
        let left : (env.written ≡ none) ⊎ (env.write_error ≡ none)
            → IsIntact hash (put_object json op_json hash b k body env st).1 =
          λ whole.
            Leaves-IsIntact b k (content_of body) (length (content_of body)) env.now _
              (put_object-Leaves json op_json b k body env trips whole) in
        elim spares [
          | inl unopened ↦ left (inl unopened)
          | inr absent ↦ elim (Option-cases env.write_error) [
            | inl wrote ↦ left (inr wrote)
            | inr (problem, failed) ↦ elim (Option-cases env.written) [
              | inl unopened ↦ left (inl unopened)
              | inr (n, cut) ↦
                  elim (put_object-cut json op_json b k body env problem n failed cut) [
                    | inl same ↦ subst (IsIntact hash) (sym same) intact
                    | inr ends ↦
                        subst (IsIntact hash) (sym ends)
                          (cut_blob-IsIntact (content_of body) n absent)
                  ]
            ]
          ]
        ]

    -- A delete without a version ID.
    pub delete_marker-IsIntact :
        (json : Codec ObjectMeta) (op_json : Codec RaftOp) (b k : Text) (env : Env)
        → IsIntact hash (delete_object json op_json b k [] env st).1
    unfolding delete_object text_eq
    delete_marker-IsIntact json op_json b k env =
        (intact.0, delete_marker-AllMetas _ st.meta b k env.now (λ n. inl refl) intact.1)

    -- In a store where every version has its blob, a key that a plain read of the metadata finds
    -- has a content that a get returns, and the hash of that content is the one in the metadata.
    pub get_object-IsIntact :
        (b k : Text) (meta : ObjectMeta)
        → Ops.get_object st.meta b k [] ≡ ok meta
        → (content : Text) × (get_object st b k [] ≡ ok (content, meta))
          × (hash content ≡ meta.sha256)
    unfolding get_object
    get_object-IsIntact b k meta read =
        let (blob, live) = get_object-holds _ st.meta b k meta read intact.1 in
        elim blob [
          | inl marker ↦ absurd (ground (arith, marker, live))
          | inr (long, content, there, same) ↦ (
            content,
            ground (arith, read, blob_path-eq st.data_dir meta.sha256 long, there),
            same,
          )
        ]
