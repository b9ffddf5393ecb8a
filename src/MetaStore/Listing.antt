-- ===== src/MetaStore/Listing.antt =====
-- internal/store/meta.go: the two listings of a bucket.
use jario.Base.{
  ℕ, suc, ◌^◌, Bool, true, false, not, ◌&&◌, ◌||◌, List, [], ◌∷◌, ◌++◌, none, some, length, take,
  ltb, leb, ◌==◌, if◌then◌else◌,
}
use jario.Text.{Text, codes, text_eq, text_lt, has_prefix, text_eq_inst}
use jario.Outcome.{ok}
use jario.GoMap.{GoMap, lookup}
use jario.Sort.{sort}
use jario.MetaStore.Versions.{ObjectMeta, VersionEntry, VersionState, current_version}
use jario.MetaStore.Ops.{MetaStore}

-- Not `prefix != "" && !strings.HasPrefix(key, prefix)`.
abbrev pub matches : Text → Text → Bool
matches prefix key = text_eq prefix [] || has_prefix key prefix

-- The loop of `ListObjectsPaged`. The guards on `vst.Current` and on the delete marker are those
-- of `current_version`, and `k <= startAfter` is the failure of `startAfter < k`.
unfoldable pub collect : (prefix start_after : Text) → GoMap Text VersionState → List ObjectMeta
collect prefix start_after [] = []
collect prefix start_after ((k, vst) ∷ objs) =
    let rest = collect prefix start_after objs in
    if matches prefix k && text_lt start_after k
    then elim (current_version vst) [ ok meta ↦ meta ∷ rest | _ ↦ rest ]
    else rest

abbrev pub less_key : ObjectMeta → ObjectMeta → Bool
less_key a b = text_lt a.key b.key

-- objs[len(objs)-1].Key
abbrev pub last_key : List ObjectMeta → Text
last_key [] = []
last_key (x ∷ []) = x.key
last_key (x ∷ y ∷ rest) = last_key (y ∷ rest)

unfoldable pub page : ℕ → List ObjectMeta → List ObjectMeta × Text
page max_keys objs =
    if ltb max_keys (length objs)
    then (take max_keys objs, last_key (take max_keys objs))
    else (objs, [])

-- `maxKeys` is an int, kept as its 64-bit pattern.
abbrev pub or_default : ℕ → ℕ
or_default max_keys = if leb (2 ^ 63) max_keys || max_keys == 0 then 1000 else max_keys

module _ {Db : Type 0} where
  unfoldable pub list_objects_paged :
      MetaStore Db → (bucket prefix start_after : Text) → ℕ → List ObjectMeta × Text
  list_objects_paged m bucket prefix start_after max_keys = elim (lookup bucket m.objects) [
    | none ↦ ([], [])
    | some objs ↦ page (or_default max_keys) (sort less_key (collect prefix start_after objs))
  ]

pub record ObjectVersion : Type 0 where
  pub key : Text
  pub version_id : Text
  pub is_latest : Bool
  pub last_modified : Text
  pub etag : Text
  pub size : ℕ
  pub storage_class : Text

-- `"` + s + `"`
abbrev pub quoted : Text → Text
quoted s = b'"' ∷ (s ++ b'"' ∷ [])

-- By key, and within a key by the text of the version ID, the greater text first.
abbrev pub less_version : ObjectVersion → ObjectVersion → Bool
less_version a b =
    if not (text_eq a.key b.key) then text_lt a.key b.key else text_lt b.version_id a.version_id

-- `rfc3339` is `time.Time.Format` at that layout.
module _ (rfc3339 : ℕ → Text) where
  unfoldable pub version_row : ℕ → ℕ → ObjectMeta → ObjectVersion
  version_row current i v = record {
    key = v.key;
    version_id = v.version_id;
    is_latest = i == current;
    last_modified = rfc3339 v.created_at;
    etag = quoted v.etag;
    size = v.size;
    storage_class = codes "STANDARD";
  }

  -- The walk over the versions from `i` on, newest first: the versions or, if asked, the markers.
  unfoldable pub walk : Bool → ℕ → ℕ → List VersionEntry → List ObjectVersion
  walk markers current i [] = []
  walk markers current i (e ∷ es) =
      walk markers current (suc i) es
      ++ (if e.meta.is_delete_marker
          then (if markers then version_row current i e.meta ∷ [] else [])
          else (if markers then [] else version_row current i e.meta ∷ []))

  unfoldable pub rows : Bool → Text → GoMap Text VersionState → List ObjectVersion
  unfolding walk
  rows markers prefix [] = []
  rows markers prefix ((key, vst) ∷ objs) =
      if matches prefix key
      then walk markers vst.current 0 vst.versions ++ rows markers prefix objs
      else rows markers prefix objs

  unfoldable pub list_object_versions :
      {Db : Type 0}
      → MetaStore Db
      → (bucket prefix : Text) → List ObjectVersion × List ObjectVersion
  list_object_versions m bucket prefix = elim (lookup bucket m.objects) [
    | none ↦ ([], [])
    | some objs ↦
        (sort less_version (rows false prefix objs), sort less_version (rows true prefix objs))
  ]
