-- ===== src/Store/VersionBlobs.antt =====
-- internal/store/store.go: a version and its blob, when files are written.
use jario.Base.{
  ℕ, ◌≤◌, ◌≡◌, refl, ◌⊎◌, inl, inr, true, [], ◌∷◌, none, some, arith, length, Bool-cases,
}
use jario.Text.{Text, codes, text_eq, text_eq_iff, text_eq_inst}
use jario.Text.Laws.{cons-injective, ++_cancel}
use jario.GoMap.{GoMap, lookup, insert, lookup-insert}
use jario.MetaStore.Versions.{ObjectMeta, with_version_id}
use jario.Store.Objects.{object_meta}
use jario.Store.Blobs.{path_of}

-- Two hashes with one path are one hash.
path_of-injective :
    (data_dir a b : Text)
    → 2 ≤ length a
    → 2 ≤ length b
    → path_of data_dir a ≡ path_of data_dir b
    → a ≡ b
path_of-injective data_dir [] b h k same = absurd (omega (arith, h))
path_of-injective data_dir (x ∷ []) b h k same = absurd (omega (arith, h))
path_of-injective data_dir (x ∷ y ∷ a) [] h k same = absurd (omega (arith, k))
path_of-injective data_dir (x ∷ y ∷ a) (z ∷ []) h k same = absurd (omega (arith, k))
path_of-injective data_dir (x ∷ y ∷ a) (z ∷ w ∷ b) h k same =
    let rest = ++_cancel (codes "/blobs/") (++_cancel data_dir same) in
    (cons-injective (cons-injective (cons-injective rest).1).1).1

-- The blob of a version is there, and is what the hash is of.
abbrev pub HasBlob : (hash : Text → Text) → Text → GoMap Text Text → ObjectMeta → Type 0
HasBlob hash data_dir files meta =
    (meta.is_delete_marker ≡ true)
    ⊎ ((2 ≤ length meta.sha256)
        × (content : Text) × (lookup (path_of data_dir meta.sha256) files ≡ some content)
        × (hash content ≡ meta.sha256))

module _ (hash : Text → Text) (digits : (content : Text) → length (hash content) ≡ 64) where
  pub write-HasBlob :
      (data_dir content : Text) (files : GoMap Text Text) (meta : ObjectMeta)
      → HasBlob hash data_dir files meta
      → HasBlob hash data_dir (insert (path_of data_dir (hash content)) content files) meta
  write-HasBlob data_dir content files meta (inl marker) = inl marker
  write-HasBlob data_dir content files meta (inr (long, old, there, same)) =
      let p = path_of data_dir (hash content) in
      let q = path_of data_dir meta.sha256 in
      elim (Bool-cases (text_eq p q)) [
        | inl hit ↦ inr (
          long,
          content,
          ground (arith, lookup-insert p q content files, hit),
          path_of-injective data_dir (hash content) meta.sha256 (omega (arith, digits content)) long
              ((text_eq_iff p q).0 hit),
        )
        | inr miss ↦ inr (long, old, ground (arith, lookup-insert p q content files, miss), same)
      ]

  pub written-HasBlob :
      (data_dir key content : Text) (files : GoMap Text Text) (size now n : ℕ)
      → HasBlob hash data_dir
          (insert (path_of data_dir (hash content)) content files)
          (with_version_id (object_meta key size (hash content) now) n)
  written-HasBlob data_dir key content files size now n = inr (
    omega (arith, digits content),
    content,
    ground (
      arith,
      lookup-insert (path_of data_dir (hash content)) (path_of data_dir (hash content)) content
          files,
      text_eq_iff (path_of data_dir (hash content)) (path_of data_dir (hash content)),
    ),
    refl,
  )

  -- A file that was not there is no version's blob.
  pub fresh-HasBlob :
      (data_dir sha left : Text) (files : GoMap Text Text)
      → lookup (path_of data_dir sha) files ≡ none
      → (meta : ObjectMeta) → HasBlob hash data_dir files meta
      → HasBlob hash data_dir (insert (path_of data_dir sha) left files) meta
  fresh-HasBlob data_dir sha left files absent meta (inl marker) = inl marker
  fresh-HasBlob data_dir sha left files absent meta (inr (long, old, there, same)) =
      let p = path_of data_dir sha in
      let q = path_of data_dir meta.sha256 in
      inr (
        long,
        old,
        ground (arith, lookup-insert p q left files, text_eq_iff p q, absent, there),
        same,
      )
