-- ===== src/MetaStore/VersionRows.antt =====
-- internal/store/meta.go: the order of the rows of `ListObjectVersions`.
use jario.Base.{
  ℕ, ◌≡◌, refl, subst, ◌≢◌, true, false, List, [], ◌∷◌, ◌++◌, arith, All, All-imp, Option-cases,
  inl, inr,
}
use jario.Text.{Text, text_lt, text_eq_iff, text_eq_inst}
use jario.Text.Decimal.{format_int}
use jario.Text.Laws.{text_lt_irrefl, text_lt_total}
use jario.GoMap.{lookup}
use jario.Sort.{sort}
use jario.Sort.Laws.{IsOrder, IsSorted, sort-IsSorted}
use jario.MetaStore.Ops.{MetaStore}
use jario.MetaStore.Pages.{text_lt_asym, text_lt_not_trans}
use jario.MetaStore.Paging.{keys_of}
use jario.MetaStore.Listing.{ObjectVersion, less_version, rows, list_object_versions}

less_version-IsOrder : IsOrder less_version
less_version-IsOrder = record {
  asym = λ a b h. ground (
    arith,
    text_eq_iff a.key b.key,
    text_eq_iff b.key a.key,
    text_lt_asym a.key b.key,
    text_lt_asym b.version_id a.version_id,
  );
  not_trans = λ a b c h k. ground (
    arith,
    text_eq_iff a.key b.key,
    text_eq_iff b.key c.key,
    text_eq_iff a.key c.key,
    text_lt_not_trans a.key b.key c.key,
    text_lt_not_trans c.version_id b.version_id a.version_id,
    text_lt_total a.key b.key,
    text_lt_total b.key c.key,
    text_lt_asym a.key b.key,
    text_lt_asym b.key c.key,
    text_lt_irrefl a.key,
    text_lt_irrefl b.key,
  );
}

ten_before_nine :
    (r y : ObjectVersion)
    → r.version_id ≡ format_int 10
    → y.key ≡ r.key
    → y.version_id ≡ format_int 9
    → less_version y r ≡ true
unfolding text_lt format_int
ten_before_nine r y ten own nine = rw (own, (text_eq_iff r.key r.key).1 refl, ten, nine)

module _ (rfc3339 : ℕ → Text) where
  pub list_object_versions-eq :
      {Db : Type 0} (m : MetaStore Db) (b p : Text)
      → list_object_versions rfc3339 m b p ≡ (
        sort less_version (rows rfc3339 false p (keys_of m b)),
        sort less_version (rows rfc3339 true p (keys_of m b)),
      )
  unfolding list_object_versions rows sort
  list_object_versions-eq m b p = elim (Option-cases (lookup b m.objects)) [
    | inl missing ↦ rw (missing, list_object_versions)
    | inr (objs, found) ↦ rw (found, list_object_versions)
  ]

  pub list_object_versions-IsSorted :
      {Db : Type 0} (m : MetaStore Db) (b p : Text)
      → IsSorted less_version (list_object_versions rfc3339 m b p).0
        × IsSorted less_version (list_object_versions rfc3339 m b p).1
  list_object_versions-IsSorted m b p = rw (list_object_versions-eq m b p) (
    sort-IsSorted less_version less_version-IsOrder (rows rfc3339 false p (keys_of m b)),
    sort-IsSorted less_version less_version-IsOrder (rows rfc3339 true p (keys_of m b)),
  )

  sorted_split :
      (xs : List ObjectVersion) (r : ObjectVersion) (ys : List ObjectVersion)
      → IsSorted less_version (xs ++ r ∷ ys)
      → All (λ y. less_version y r ≡ false) ys
  sorted_split [] r ys h = h.0
  sorted_split (x ∷ xs) r ys h = sorted_split xs r ys h.1

  -- In the list of versions, version 9 of a key never comes after version 10 of that key, although
  -- it is the older one.
  pub nine_not_after_ten :
      {Db : Type 0} (m : MetaStore Db) (b p : Text) (xs : List ObjectVersion) (r : ObjectVersion)
      (ys : List ObjectVersion)
      → (list_object_versions rfc3339 m b p).0 ≡ xs ++ r ∷ ys
      → r.version_id ≡ format_int 10
      → All (λ y. y.key ≡ r.key → y.version_id ≢ format_int 9) ys
  nine_not_after_ten m b p xs r ys e ten = All-imp (excluded r ten) ys (
      sorted_split xs r ys
        (subst (IsSorted less_version) e (list_object_versions-IsSorted m b p).0))
    where
      excluded :
          (r : ObjectVersion)
          → r.version_id ≡ format_int 10
          → (y : ObjectVersion) → less_version y r ≡ false
          → y.key ≡ r.key
          → y.version_id ≢ format_int 9
      excluded r ten y h own nine = cc (h, ten_before_nine r y ten own nine)
