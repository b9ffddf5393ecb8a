-- ===== src/Tests/Metadata.antt =====
-- The theorems on the metadata store at concrete inputs.
use jario.Base.{
  ℕ, ◌≡◌, refl, All, ◌↔◌, Bool, true, false, ◌&&◌, [], ◌∷◌, ◌<◌, some, arith, if◌then◌else◌, length,
}
use mathlib.Core.List.{Mem}
use jario.Text.{Text, codes, text_eq, text_eq_inst, text_lt, has_prefix}
use jario.Text.Decimal.{decimal, format_int, format_int-ne-nil}
use jario.Outcome.{ok, err, no_key}
use jario.GoMap.{lookup}
use jario.Sort.Laws.{IsSorted}
use jario.MetaStore.Versions.{VersionState, with_version_id, remove_version, current_version}
use jario.MetaStore.Ops.{
  find_key, new_meta_store, create_bucket, put_object, get_object, get_object_version,
  delete_object, is_delete_marker,
}
use jario.MetaStore.Lookups.{Opened, versions_at}
use jario.MetaStore.Invariant.{IsValid, IsOpen, AreValid}
use jario.MetaStore.Reach.{start, next, create, Reach-AreValid}
use jario.MetaStore.Behaviour
use jario.MetaStore.Pages
use jario.MetaStore.Paging
use jario.MetaStore.Listed
use jario.MetaStore.Listing.{
  ObjectVersion, collect, matches, list_object_versions, less_version, quoted,
}
use jario.MetaStore.ListedVersions
use jario.MetaStore.ListedVersions.{IsRow}
use jario.MetaStore.Snapshot
use jario.MetaStore.Snapshot.{snapshot, restore, or_else}
use jario.Sort.{sort}
use jario.Tests.Data.{
  bolt, constant, bucket_meta, photos, cat, upload, second, two, filled, sha_a, store_with,
  meta_with,
}

pub filled-Opened : Opened filled photos
unfolding lookup text_eq
filled-Opened = (refl, (cat, two) ∷ [], refl)

pub filled-find_key : find_key filled photos cat ≡ some two
unfolding find_key lookup text_eq
filled-find_key = refl

pub two-IsOpen : IsOpen cat two
two-IsOpen = record {
  numbered = (1, omega arith, refl, (2, omega arith, refl, omega arith));
  room = omega arith;
  keyed = (refl, (refl, tt));
}

two-IsValid : IsValid cat two
two-IsValid = record {
  last = omega arith;
  numbered = (1, omega arith, refl, (2, omega arith, refl, omega arith));
  bounded = omega arith;
  keyed = (refl, (refl, tt));
}

pub filled-AreValid : AreValid filled.objects
unfolding lookup
filled-AreValid = ((refl, tt), (((refl, tt), (two-IsValid, tt)), tt))

pub at_two : IsOpen cat (versions_at filled photos cat)
unfolding find_key lookup text_eq
at_two = two-IsOpen

get_object-put_object_example :
    get_object (put_object filled photos cat upload).1 photos cat []
    ≡ ok (with_version_id upload (versions_at filled photos cat).next_id)
get_object-put_object_example =
    Behaviour.get_object-put_object filled photos cat upload filled-Opened at_two refl

get_object_version-put_object_example :
    get_object_version (put_object filled photos cat upload).1 photos cat (format_int 1) ≡ (
      if text_eq photos photos
        && (text_eq cat cat
            && text_eq (format_int (versions_at filled photos cat).next_id) (format_int 1))
      then ok (with_version_id upload (versions_at filled photos cat).next_id)
      else get_object_version filled photos cat (format_int 1))
get_object_version-put_object_example =
    Behaviour.get_object_version-put_object filled photos cat upload photos cat (format_int 1)
      filled-Opened at_two

delete_object_hides_example :
    (get_object (delete_object filled photos cat [] 9).1 photos cat [] ≡ err no_key)
    × (is_delete_marker (delete_object filled photos cat [] 9).1 photos cat (format_int 3) ≡ true)
    × ((b' k' vid : Text)
        → (text_eq photos b' && (text_eq cat k' && text_eq (format_int 3) vid)) ≡ false
        → get_object_version (delete_object filled photos cat [] 9).1 b' k' vid
          ≡ get_object_version filled b' k' vid)
delete_object_hides_example =
    Behaviour.delete_object_hides filled photos cat 9 two filled-Opened filled-find_key two-IsOpen

removed-first : remove_version (format_int 1) two.versions ≡ some (second ∷ [])
unfolding remove_version text_eq format_int
removed-first = refl

delete_version_forgets_example :
    get_object_version
      (delete_object filled photos cat (format_int 1) 9).1
      photos
      cat
      (format_int 2)
    ≡ (if text_eq photos photos && (text_eq cat cat && text_eq (format_int 1) (format_int 2))
        then err no_key
        else get_object_version filled photos cat (format_int 2))
delete_version_forgets_example =
    Behaviour.delete_version_forgets filled photos cat (format_int 1) 9 two (second ∷ [])
      filled-Opened filled-find_key two-IsValid (format_int-ne-nil 1) removed-first photos cat
      (format_int 2)

Reach-AreValid_example :
    AreValid
      (create_bucket bolt
        (constant bucket_meta)
        (new_meta_store bolt (constant bucket_meta) [])
        photos
        5).1.objects
Reach-AreValid_example = Reach-AreValid bolt (constant bucket_meta) (next start (create photos 5))

few : length (Paging.all_after filled filled-AreValid photos [] []) < 5
unfolding Pages.listing collect current_version sort lookup text_eq text_lt has_prefix
few = omega arith

follow-eq-all_after_example :
    Paging.follow filled filled-AreValid photos [] 5 [] 1
    ≡ Paging.all_after filled filled-AreValid photos [] []
follow-eq-all_after_example = Paging.follow-eq-all_after filled filled-AreValid photos [] 5 [] 1 few

listed_iff_get_object_example :
    Mem second.meta (Paging.all_after filled filled-AreValid photos [] []) ↔ (
      (get_object filled photos cat [] ≡ ok second.meta)
      × (matches [] cat ≡ true)
      × (text_lt [] cat ≡ true))
listed_iff_get_object_example =
    Listed.listed_iff_get_object filled filled-AreValid photos [] [] second.meta

list_object_versions_lem_example :
    All (IsRow decimal filled photos [] false) (list_object_versions decimal filled photos []).0
    × All (IsRow decimal filled photos [] true) (list_object_versions decimal filled photos []).1
    × ((row : ObjectVersion)
        → IsRow decimal filled photos [] false row
        → Mem row (list_object_versions decimal filled photos []).0)
    × ((row : ObjectVersion)
        → IsRow decimal filled photos [] true row
        → Mem row (list_object_versions decimal filled photos []).1)
    × IsSorted less_version (list_object_versions decimal filled photos []).0
    × IsSorted less_version (list_object_versions decimal filled photos []).1
list_object_versions_lem_example =
    ListedVersions.list_object_versions_lem decimal filled photos [] filled-AreValid

find_key-restore_example :
    ((restore bolt (constant bucket_meta) (constant filled.objects) (store_with []) []).0 ≡ ok tt)
    × ((b k : Text)
        → find_key
            (restore bolt (constant bucket_meta) (constant filled.objects) (store_with []) []).1
            b
            k
          ≡ or_else (find_key filled b k) (find_key (store_with []) b k))
unfolding snapshot lookup
find_key-restore_example =
    Snapshot.find_key-restore bolt (constant bucket_meta) (constant filled.objects) (store_with [])
      filled [] ((refl, tt), ((refl, tt), tt)) (λ s _. refl) refl

-- A key with the versions 1, 9 and 10.
abbrev ten_versions : VersionState
ten_versions = record {
  versions =
      record { meta = meta_with sha_a (format_int 1) }
      ∷ record { meta = meta_with sha_a (format_int 9) }
      ∷ record { meta = meta_with sha_a (format_int 10) }
      ∷ [];
  current = 2;
  next_id = 11;
}

abbrev row : ℕ → Bool → ObjectVersion
row n latest = record {
  key = cat;
  version_id = format_int n;
  is_latest = latest;
  last_modified = decimal 7;
  etag = quoted sha_a;
  size = 3;
  storage_class = codes "STANDARD";
}
