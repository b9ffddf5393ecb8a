-- ===== src/MetaStore/ListedVersions.antt =====
-- internal/store/meta.go: what `ListObjectVersions` lists, by the versions of the store.
use mathlib.Core.List.{Mem}
use mathlib.Core.List.Perm
use jario.Base.{
  ℕ, suc, ◌+◌, ◌==◌, ◌≡◌, refl, ◌∙◌, sym, subst, Bool, true, false, [], ◌∷◌, ◌++◌, some, arith,
  length, get_elem?, All, All-imp, All-get_elem?,
}
use jario.Text.{Text, codes, text_eq, has_prefix, text_eq_inst}
use jario.GoMap.{lookup, lookup-Every}
use jario.Sort.{sort}
use jario.Sort.Laws.{IsSorted, All-sort, sort-perm}
use jario.MetaStore.Versions.{VersionEntry, VersionState}
use jario.MetaStore.Ops.{MetaStore, find_key}
use jario.MetaStore.Invariant.{IsValid, AreValid}
use jario.MetaStore.Paging.{keys_of, keys_of-IsValid}
use jario.MetaStore.Listing.{
  ObjectVersion, matches, less_version, version_row, walk, rows, list_object_versions,
}
use jario.MetaStore.VersionRows.{list_object_versions-eq, list_object_versions-IsSorted}
use jario.MetaStore.Rows.{InRows, rows-InRows, mem-rows, mem-walk}

find_key-keys_of :
    {Db : Type 0} (m : MetaStore Db) (b k : Text) → find_key m b k ≡ lookup k (keys_of m b)
unfolding find_key lookup
find_key-keys_of m b k = ground arith

has_prefix-matches : (p k : Text) → matches p k ≡ has_prefix k p
unfolding has_prefix text_eq
has_prefix-matches [] [] = refl
has_prefix-matches [] (c ∷ k) = refl
has_prefix-matches (c ∷ p) k = refl

module _ (rfc3339 : ℕ → Text) {Db : Type 0} (m : MetaStore Db) (b p : Text) where
  -- The row of a version of the bucket whose key has the prefix; the newest version of its key is
  -- the latest.
  abbrev pub IsRow : (markers : Bool) → ObjectVersion → Type 0
  IsRow markers row =
      (k : Text) × (vst : VersionState) × (i : ℕ) × (e : VersionEntry) × (find_key m b k ≡ some vst)
      × (get_elem? vst.versions i ≡ some e)
      × (e.meta.is_delete_marker ≡ markers)
      × (has_prefix k p ≡ true)
      × (row ≡ record {
        key = k;
        version_id = e.meta.version_id;
        is_latest = suc i == length vst.versions;
        last_modified = rfc3339 e.meta.created_at;
        etag = b'"' ∷ (e.meta.etag ++ b'"' ∷ []);
        size = e.meta.size;
        storage_class = codes "STANDARD";
      })

  module _ (v : AreValid m.objects) where
    version_row-valid :
        (k : Text) (vst : VersionState) (i : ℕ) (e : VersionEntry)
        → lookup k (keys_of m b) ≡ some vst
        → get_elem? vst.versions i ≡ some e
        → version_row rfc3339 vst.current (0 + i) e.meta ≡ record {
          key = k;
          version_id = e.meta.version_id;
          is_latest = suc i == length vst.versions;
          last_modified = rfc3339 e.meta.created_at;
          etag = b'"' ∷ (e.meta.etag ++ b'"' ∷ []);
          size = e.meta.size;
          storage_class = codes "STANDARD";
        }
    unfolding version_row
    version_row-valid k vst i e found at =
        let valid : IsValid k vst =
          lookup-Every _ k (keys_of m b) vst found (keys_of-IsValid m b v).1 in
        let own : e.meta.key ≡ k =
          All-get_elem? (λ x. x.meta.key ≡ k) vst.versions i e valid.keyed at in
        let newest : (i == vst.current) ≡ (suc i == length vst.versions) =
          ground (arith, valid.last) in
        ground (arith, own, newest)

    InRows-IsRow :
        (markers : Bool) (row : ObjectVersion)
        → InRows rfc3339 markers p (keys_of m b) row
        → IsRow markers row
    InRows-IsRow markers row (k, vst, found, prefixed, (i, e, at, own, same)) = (
      k,
      vst,
      i,
      e,
      find_key-keys_of m b k ∙ found,
      at,
      own,
      sym (has_prefix-matches p k) ∙ prefixed,
      same ∙ version_row-valid k vst i e found at,
    )

    listed-IsRow :
        (markers : Bool)
        → All (IsRow markers) (sort less_version (rows rfc3339 markers p (keys_of m b)))
    listed-IsRow markers =
        All-sort less_version (IsRow markers) (rows rfc3339 markers p (keys_of m b)) (
          All-imp (InRows-IsRow markers) (rows rfc3339 markers p (keys_of m b))
            (rows-InRows rfc3339 markers p (keys_of m b) (keys_of-IsValid m b v).0))

    mem-listed :
        (markers : Bool) (row : ObjectVersion)
        → IsRow markers row
        → Mem row (sort less_version (rows rfc3339 markers p (keys_of m b)))
    mem-listed markers row (k, vst, i, e, found, at, own, prefixed, same) =
        let there = sym (find_key-keys_of m b k) ∙ found in
        (Perm.mem_iff (sort-perm less_version (rows rfc3339 markers p (keys_of m b)))).1 (
          mem-rows rfc3339 markers p (keys_of m b) k vst row there
            (has_prefix-matches p k ∙ prefixed)
            (subst (λ x. Mem x (walk rfc3339 markers vst.current 0 vst.versions))
              (version_row-valid k vst i e there at ∙ sym same)
              (mem-walk rfc3339 markers vst.current 0 vst.versions i e at own)))

    -- In a valid store each row of the first list of `ListObjectVersions` is that of a version of
    -- the bucket that is no delete marker and whose key has the prefix, and each such version has
    -- its row there; the second list is the same for the delete markers. A row has the key, the
    -- version ID, the formatted time, the quoted ETag and the size of its version, and is the
    -- latest exactly for the last version of its key. Both lists are ordered by key and within a
    -- key by the text of the ID, the greater text first.
    pub list_object_versions_lem :
        All (IsRow false) (list_object_versions rfc3339 m b p).0
        × All (IsRow true) (list_object_versions rfc3339 m b p).1
        × ((row : ObjectVersion) → IsRow false row → Mem row (list_object_versions rfc3339 m b p).0)
        × ((row : ObjectVersion) → IsRow true row → Mem row (list_object_versions rfc3339 m b p).1)
        × IsSorted less_version (list_object_versions rfc3339 m b p).0
        × IsSorted less_version (list_object_versions rfc3339 m b p).1
    list_object_versions_lem =
        let (sorted, markers_sorted) = list_object_versions-IsSorted rfc3339 m b p in
        let eq = list_object_versions-eq rfc3339 m b p in
        (
          rw eq (listed-IsRow false),
          rw eq (listed-IsRow true),
          rw eq (mem-listed false),
          rw eq (mem-listed true),
          sorted,
          markers_sorted,
        )
