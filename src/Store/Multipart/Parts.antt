-- ===== src/Store/Multipart/Parts.antt =====
-- internal/store/multipart.go: the files of the registered parts, when no other request runs between
-- the two steps of an upload of a part.
use mathlib.Core.Path.{subst₂}
use jario.Base.{
  Bool, ◌==◌, ℕ, ◌^◌, ◌<◌, ◌≡◌, sym, ◌≢◌, [], none, some, arith, length, Bool-cases, inl, inr,
  nat_eq,
}
use jario.Text.{Text, text_eq, text_eq_iff, text_eq_inst}
use jario.GoMap.{GoMap, lookup, insert, delete, lookup-insert, lookup-delete, lookup-insert_self}
use jario.Store.State.{Part, Upload}
use jario.Store.Multipart.Uploads.{multipart_dir, part_path, remove_all}
use jario.Store.Multipart.Steps.{lookup-remove_all, with_part}
use jario.Store.Multipart.Paths.{IsName, part_path-injective, part_path-other_dir}

module _ (hash : Text → Text) (data_dir : Text) where
  -- The file of the part is there, with the size and the hash that are registered.
  abbrev pub HasFile : GoMap Text Text → Text → ℕ → Part → Type 0
  HasFile files id n p =
      (n < 2 ^ 63)
      × (content : Text) × (lookup (part_path data_dir id n) files ≡ some content)
      × (hash content ≡ p.etag)
      × (length content ≡ p.size)

  -- So it is for every part of every upload, and the IDs of the uploads have no slash.
  abbrev pub AreUploaded : GoMap Text Text → GoMap Text Upload → Type 0
  AreUploaded files uploads =
      (id : Text) (u : Upload)
      → lookup id uploads ≡ some u
      → IsName id × ((n : ℕ) (p : Part) → lookup n u.parts ≡ some p → HasFile files id n p)

  HasFile-same :
      (files files' : GoMap Text Text) (id : Text) (n : ℕ) (p : Part)
      → lookup (part_path data_dir id n) files' ≡ lookup (part_path data_dir id n) files
      → HasFile files id n p
      → HasFile files' id n p
  HasFile-same files files' id n p same (small, content, there, tag, size) =
      (small, content, ground (arith, there, same), tag, size)

  -- A write or a removal that touches the file of no part.
  pub AreUploaded-same :
      (files files' : GoMap Text Text) (uploads : GoMap Text Upload)
      → ((id : Text) (n : ℕ)
          → lookup (part_path data_dir id n) files' ≡ lookup (part_path data_dir id n) files)
      → AreUploaded files uploads
      → AreUploaded files' uploads
  AreUploaded-same files files' uploads same h id u found =
      let (name, parts) = h id u found in
      (name, λ n p registered. HasFile-same files files' id n p (same id n) (parts n p registered))

  pub remove_all-AreUploaded :
      (held : Text → Bool) (i : Text) (files : GoMap Text Text) (uploads : GoMap Text Upload)
      → IsName i
      → AreUploaded files uploads
      → AreUploaded (remove_all held (multipart_dir data_dir i) files) (delete i uploads)
  remove_all-AreUploaded held i files uploads own h id u found =
      let ne : id ≢ i =
        λ same. absurd (ground (arith, lookup-delete i id uploads, text_eq_iff i id, same)) in
      let (name, parts) = h id u (ground (arith, lookup-delete i id uploads, text_eq_iff i id)) in
      (
        name,
        λ n p registered.
            HasFile-same files (remove_all held (multipart_dir data_dir i) files) id n p
              (ground (
                arith,
                lookup-remove_all held (multipart_dir data_dir i) (part_path data_dir id n) files,
                part_path-other_dir data_dir i id n own name ne,
              ))
              (parts n p registered),
      )

  pub insert-AreUploaded :
      (i : Text) (fresh : Upload) (files : GoMap Text Text) (uploads : GoMap Text Upload)
      → IsName i
      → fresh.parts ≡ []
      → AreUploaded files uploads
      → AreUploaded files (insert i fresh uploads)
  unfolding lookup
  insert-AreUploaded i fresh files uploads own empty h id u found =
      elim (Bool-cases (text_eq i id)) [
        | inl same ↦ (
          ground (arith, own, text_eq_iff i id),
          λ n p registered. absurd (ground (arith, lookup-insert i id fresh uploads, same, empty)),
        )
        | inr other ↦ h id u (ground (arith, lookup-insert i id fresh uploads, other))
      ]

  module _ (i : Text) (number : ℕ) (content : Text) (files : GoMap Text Text) where
    abbrev written : GoMap Text Text
    written = insert (part_path data_dir i number) content files

    written-other :
        (id : Text) (n : ℕ) (p : Part)
        → IsName i
        → IsName id
        → number < 2 ^ 63
        → ((i ≡ id) × (number ≡ n) → ⊥)
        → HasFile files id n p
        → HasFile written id n p
    written-other id n p own name bound apart (small, old, there, tag, size) =
        let mine = part_path data_dir i number in
        let theirs = part_path data_dir id n in
        elim (Bool-cases (text_eq mine theirs)) [
          | inl hit ↦ absurd (
              apart (
                part_path-injective data_dir i id number n own name bound small
                  ((text_eq_iff mine theirs).0 hit)))
          | inr miss ↦ (
            small,
            old,
            ground (arith, lookup-insert mine theirs content files, miss, there),
            tag,
            size,
          )
        ]

    written-HasFile :
        (p : Part)
        → number < 2 ^ 63
        → p.etag ≡ hash content
        → p.size ≡ length content
        → HasFile written i number p
    written-HasFile p bound tag size = (
      bound,
      content,
      lookup-insert_self (part_path data_dir i number) content files,
      sym tag,
      sym size,
    )

    with_part-HasFile :
        (part : Part) (u : Upload)
        → IsName i
        → part.part_number ≡ number
        → number < 2 ^ 63
        → part.etag ≡ hash content
        → part.size ≡ length content
        → ((n : ℕ) (p : Part) → lookup n u.parts ≡ some p → HasFile files i n p)
        → (n : ℕ) (p : Part) → lookup n (with_part u part).parts ≡ some p
        → HasFile written i n p
    with_part-HasFile part u own numbered bound tag size parts n p there =
        elim (Bool-cases (number == n)) [
          | inr other ↦
              written-other i n p own own bound (λ same. absurd (ground (arith, same, other)))
                (parts n p
                  (ground (arith, lookup-insert part.part_number n part u.parts, numbered, other)))
          | inl same ↦
              let this : p ≡ part =
                ground (arith, lookup-insert part.part_number n part u.parts, numbered, same) in
              let here : number ≡ n = ground (arith, same) in
              subst₂ (HasFile written i) here (sym this) (written-HasFile part bound tag size)
        ]

    -- The file of a part that is not registered may hold anything.
    pub unregistered-AreUploaded :
        (u : Upload) (uploads : GoMap Text Upload)
        → lookup i uploads ≡ some u
        → lookup number u.parts ≡ none
        → number < 2 ^ 63
        → AreUploaded files uploads
        → AreUploaded written uploads
    unregistered-AreUploaded u uploads found new bound h id v there =
        let (own, mine) = h i u found in
        let (name, parts) = h id v there in
        (
          name,
          λ n p registered.
              written-other id n p own name bound (λ same. clash (same.0) (same.1) registered)
                (parts n p registered),
        )
      where
        clash : {n : ℕ} {p : Part} → i ≡ id → number ≡ n → lookup n v.parts ≡ some p → ⊥
        clash here slot registered =
            absurd (ground (arith, found, there, new, registered, here, slot))

    pub with_part-AreUploaded :
        (part : Part) (u : Upload) (uploads : GoMap Text Upload)
        → lookup i uploads ≡ some u
        → part.part_number ≡ number
        → number < 2 ^ 63
        → part.etag ≡ hash content
        → part.size ≡ length content
        → AreUploaded files uploads
        → AreUploaded written (insert i (with_part u part) uploads)
    with_part-AreUploaded part u uploads found numbered bound tag size h id v there =
        let (own, mine) = h i u found in
        elim (Bool-cases (text_eq i id)) [
          | inr other ↦
              let (name, parts) =
                h id v (ground (arith, lookup-insert i id (with_part u part) uploads, other)) in
              (
                name,
                λ n p registered.
                    written-other id n p own name bound
                      (λ same. absurd (ground (arith, same, text_eq_iff i id)))
                      (parts n p registered),
              )
          | inl same ↦
              let here : i ≡ id = (text_eq_iff i id).0 same in
              let this : v ≡ with_part u part =
                ground (arith, lookup-insert i id (with_part u part) uploads, same) in
              subst₂
                (λ x (w : Upload).
                  IsName x
                  × ((n : ℕ) (p : Part) → lookup n w.parts ≡ some p → HasFile written x n p))
                here (sym this) (own, with_part-HasFile part u own numbered bound tag size mine)
        ]
