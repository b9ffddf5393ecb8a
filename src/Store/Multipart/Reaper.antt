-- ===== src/Store/Multipart/Reaper.antt =====
-- internal/store/multipart.go: which uploads the reaper removes, and what the listings hold.
use mathlib.Core.List.{Perm}
use jario.Base.{
  ℕ, ◌+◌, ◌^◌, ◌<◌, ltb, ◌≡◌, refl, Bool, true, false, List, [], ◌∷◌, none, some, arith,
  if◌then◌else◌, nat_eq,
}
use jario.Text.{Text, text_eq, text_eq_iff, text_eq_inst}
use jario.Outcome.{ok}
use jario.GoMap.{GoMap, lookup, IsMap, lookup-delete}
use jario.Sort.{sort}
use jario.Sort.Laws.{IsOrder, IsSorted, sort-IsSorted, sort-perm}
use jario.Store.State.{Store, Part, Upload}
use jario.Store.Multipart.Uploads.{validate_upload, cleanup_upload}
use jario.Store.Multipart.Lists.{
  less_part, values, is_stale, stale_ids, list_parts, cleanup_all, abort_stale_uploads,
}

-- Is the text in the list?
abbrev listed : Text → List Text → Bool
listed id [] = false
listed id (i ∷ ids) = if text_eq i id then true else listed id ids

listed-stale_ids :
    (max_age now : ℕ) (id : Text) (m : GoMap Text Upload)
    → lookup id m ≡ none
    → listed id (stale_ids max_age now m) ≡ false
unfolding stale_ids lookup
listed-stale_ids max_age now id [] missing = refl
listed-stale_ids max_age now id ((i, u) ∷ m) missing =
    ground (arith, listed-stale_ids max_age now id m)

listed-stale_ids_found :
    (max_age now : ℕ) (id : Text) (u : Upload) (m : GoMap Text Upload)
    → IsMap m
    → lookup id m ≡ some u
    → listed id (stale_ids max_age now m) ≡ is_stale max_age now u
unfolding stale_ids lookup
listed-stale_ids_found max_age now id u [] k found = absurd (ground arith)
listed-stale_ids_found max_age now id u ((i, v) ∷ m) k found = ground (
  arith,
  text_eq_iff i id,
  listed-stale_ids max_age now id m,
  listed-stale_ids_found max_age now id u m k.1,
  k.0,
)

module _ {Db : Type 0} where
  lookup-cleanup_all :
      (ids : List Text) (id : Text) (st : Store Db)
      → lookup id (cleanup_all ids st).uploads
        ≡ (if listed id ids then none else lookup id st.uploads)
  unfolding cleanup_all cleanup_upload
  lookup-cleanup_all [] id st = refl
  lookup-cleanup_all (i ∷ ids) id st =
      ground (arith, lookup-cleanup_all ids id (cleanup_upload i st), lookup-delete i id st.uploads)

  -- After the reaper has run, an upload that was there is gone if the time of its start plus the
  -- maximal age is before the clock, and is as before otherwise. The age is not negative, and the
  -- map of uploads has one entry an ID.
  pub abort_stale_uploads_lem :
      (max_age now : ℕ) (st : Store Db) (id : Text) (u : Upload)
      → max_age < 2 ^ 63
      → IsMap st.uploads
      → lookup id st.uploads ≡ some u
      → lookup id (abort_stale_uploads max_age now st).1.uploads
        ≡ (if ltb (u.initiated + max_age) now then none else some u)
  unfolding abort_stale_uploads
  abort_stale_uploads_lem max_age now st id u positive k found = ground (
    arith,
    lookup-cleanup_all (stale_ids max_age now st.uploads) id st,
    listed-stale_ids_found max_age now id u st.uploads k found,
    found,
  )

less_part-IsOrder : IsOrder less_part
less_part-IsOrder = record { asym = λ a b h. ground arith; not_trans = λ a b c h k. ground arith }

module _ {Db : Type 0} where
  -- The listing of an upload that is there holds exactly its parts, in the order of their numbers.
  pub list_parts_lem :
      (st : Store Db) (b k id : Text) (u : Upload)
      → validate_upload st b k id ≡ ok tt
      → lookup id st.uploads ≡ some u
      → (l : List Part) × (list_parts st b k id ≡ ok l)
        × IsSorted less_part l
        × Perm l (values u.parts)
  unfolding list_parts
  list_parts_lem st b k id u valid found = (
    sort less_part (values u.parts),
    ground (arith, valid, found),
    sort-IsSorted less_part less_part-IsOrder (values u.parts),
    sort-perm less_part (values u.parts),
  )
