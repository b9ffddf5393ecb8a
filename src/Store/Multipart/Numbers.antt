-- ===== src/Store/Multipart/Numbers.antt =====
-- internal/store/multipart.go: the numbers that parts are registered under.
use jario.Base.{ℕ, ◌≤◌, ◌≡◌, subst, inl, inr, [], some, arith, Bool-cases, nat_eq, ◌==◌}
use jario.Text.{Text, text_eq, text_eq_inst}
use jario.GoMap.{GoMap, lookup, insert, delete, lookup-insert, lookup-delete}
use jario.Store.State.{Store, Upload, Part}
use jario.Store.Multipart.Steps.{with_part}

-- Every part of every upload stands under its own number, which is from 1 to 10000.
abbrev pub Numbered : GoMap Text Upload → Type 0
Numbered uploads =
    (id : Text) (u : Upload)
    → lookup id uploads ≡ some u
    → (n : ℕ) (p : Part) → lookup n u.parts ≡ some p
    → (1 ≤ n) × (n ≤ 10000) × (p.part_number ≡ n)

abbrev pub AreNumbered : {Db : Type 0} → Store Db → Type 0
AreNumbered st = Numbered st.uploads

pub delete-Numbered :
    (i : Text) (uploads : GoMap Text Upload) → Numbered uploads → Numbered (delete i uploads)
delete-Numbered i uploads h id u found = h id u (ground (arith, lookup-delete i id uploads))

pub insert-Numbered :
    (i : Text) (fresh : Upload) (uploads : GoMap Text Upload)
    → fresh.parts ≡ []
    → Numbered uploads
    → Numbered (insert i fresh uploads)
unfolding lookup
insert-Numbered i fresh uploads none_yet h id u found n p there = elim (Bool-cases (text_eq i id)) [
  | inl same ↦ absurd (ground (arith, lookup-insert i id fresh uploads, same, none_yet))
  | inr other ↦ h id u (ground (arith, lookup-insert i id fresh uploads, other)) n p there
]

pub with_part-Numbered :
    (i : Text) (part : Part) (u : Upload) (uploads : GoMap Text Upload)
    → 1 ≤ part.part_number
    → part.part_number ≤ 10000
    → lookup i uploads ≡ some u
    → Numbered uploads
    → Numbered (insert i (with_part u part) uploads)
with_part-Numbered i part u uploads low high held h id v found n p there =
    elim (Bool-cases (text_eq i id)) [
      | inr other ↦
          h id v (ground (arith, lookup-insert i id (with_part u part) uploads, other)) n p there
      | inl same ↦
          let now : v ≡ with_part u part =
            ground (arith, lookup-insert i id (with_part u part) uploads, same) in
          let there' = subst (λ w. lookup n w.parts ≡ some p) now there in
          elim (Bool-cases (part.part_number == n)) [
            | inr apart ↦
                h i u held n p
                  (ground (arith, lookup-insert part.part_number n part u.parts, apart))
            | inl own ↦ (
              ground (arith, own),
              ground (arith, own),
              ground (arith, lookup-insert part.part_number n part u.parts, own),
            )
          ]
    ]
