-- ===== src/MetaStore/Versions.antt =====
-- internal/store/meta.go: object versions and the version list of one key.
use jario.Base.{
  ℕ, suc, ◌+◌, ◌-◌, ◌%◌, ◌^◌, Bool, ◌||◌, List, [], ◌∷◌, ◌++◌, Option, none, some, length,
  get_elem?, leb, if◌then◌else◌,
}
use jario.Text.{Text, text_eq}
use jario.Text.Decimal.{format_int}
use jario.Outcome.{Outcome, ok, err, panic, no_key}

-- Sizes are int64 values; times are nanoseconds since the zero time.
pub record ObjectMeta : Type 0 where
  pub key : Text
  pub size : ℕ
  pub etag : Text
  pub content_type : Text
  pub sha256 : Text
  pub created_at : ℕ
  pub version_id : Text
  pub is_delete_marker : Bool

pub record VersionEntry : Type 0 where
  pub meta : ObjectMeta

-- `current` (an int) and `next_id` (an int64) are kept as their 64-bit patterns.
pub record VersionState : Type 0 where
  pub versions : List VersionEntry
  pub current : ℕ
  pub next_id : ℕ

abbrev pub new_version_state : VersionState
new_version_state = record { versions = []; current = 0; next_id = 1 }

abbrev pub with_version_id : ObjectMeta → ℕ → ObjectMeta
with_version_id meta vid = record meta { version_id = format_int vid }

-- The lines that `PutObject` and `DeleteObject` share: number the version, append it, make it the
-- current one. The slice is not empty after the append, so `len - 1` does not wrap.
unfoldable pub push_version : VersionState → ObjectMeta → VersionState
push_version vs meta =
    let versions = vs.versions ++ record { meta = with_version_id meta vs.next_id } ∷ [] in
    record {
      versions = versions;
      current = length versions - 1;
      next_id = (vs.next_id + 1) % 2 ^ 64;
    }

-- The loop over `vst.Versions` that looks for an ID: the first match and its index.
unfoldable pub find_from : ℕ → Text → List VersionEntry → Option (ℕ × ObjectMeta)
find_from i vid [] = none
find_from i vid (e ∷ es) =
    if text_eq e.meta.version_id vid then some (i, e.meta) else find_from (suc i) vid es

unfoldable pub find_version : Text → List VersionEntry → Option ObjectMeta
unfolding find_from
find_version vid es = elim (find_from 0 vid es) [ none ↦ none | some (i, meta) ↦ some meta ]

-- `append(vst.Versions[:i], vst.Versions[i+1:]...)` at the first match.
unfoldable pub remove_version : Text → List VersionEntry → Option (List VersionEntry)
remove_version vid [] = none
remove_version vid (e ∷ es) =
    if text_eq e.meta.version_id vid
    then some es
    else elim (remove_version vid es) [ none ↦ none | some rest ↦ some (e ∷ rest) ]

-- The current version, unless the index is out of range or it is a delete marker.
unfoldable pub current_version : VersionState → Outcome ObjectMeta
current_version vst =
    if leb (2 ^ 63) vst.current || leb (length vst.versions) vst.current
    then err no_key
    else elim (get_elem? vst.versions vst.current) [
      | none ↦ panic
      | some e ↦ if e.meta.is_delete_marker then err no_key else ok e.meta
    ]
