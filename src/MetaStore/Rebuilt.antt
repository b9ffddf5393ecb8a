-- ===== src/MetaStore/Rebuilt.antt =====
-- internal/store/meta.go: `Restore` into a store with no objects.
use jario.Base.{◌≡◌, refl, sym, ap, ◌∙◌, none, [], ◌∷◌, ◌++◌, arith, All}
use mathlib.Core.List.{append_assoc, append-nil}
use jario.Text.{Text, text_eq_iff, text_eq_inst}
use jario.GoMap.{GoMap, lookup, insert, lookup-insert, IsMap}
use jario.MetaStore.Versions.{VersionState}
use jario.MetaStore.Ops.{Objects}
use jario.MetaStore.Snapshot.{AreMaps, merge_keys, merge_objects}

module _ {V : Type 0} where
  insert_fresh :
      (k : Text) (v : V) (m : GoMap Text V) → lookup k m ≡ none → insert k v m ≡ m ++ (k, v) ∷ []
  unfolding lookup insert
  insert_fresh k v [] h = refl
  insert_fresh k v ((j, w) ∷ m) h = ground (arith, insert_fresh k v m)

  -- No key of the first map is in the second.
  abbrev Apart : GoMap Text V → GoMap Text V → Type 0
  Apart new old = All (λ e. lookup e.0 old ≡ none) new

  Apart-nil : (new : GoMap Text V) → Apart new []
  unfolding lookup
  Apart-nil [] = tt
  Apart-nil ((k, v) ∷ new) = (refl, Apart-nil new)

  Apart-insert :
      (k : Text) (v : V) (new old : GoMap Text V)
      → lookup k new ≡ none
      → Apart new old
      → Apart new (insert k v old)
  unfolding lookup
  Apart-insert k v [] old h a = tt
  Apart-insert k v ((j, w) ∷ new) old h a = (
    ground (arith, lookup-insert k j v old, text_eq_iff k j, text_eq_iff j k, a.0),
    Apart-insert k v new old (ground (arith, h)) a.1,
  )

merge_keys-Apart :
    (objs target : GoMap Text VersionState)
    → IsMap objs
    → Apart objs target
    → merge_keys objs target ≡ target ++ objs
unfolding merge_keys
merge_keys-Apart [] target m a = sym (append-nil target)
merge_keys-Apart ((k, vs) ∷ objs) target m a =
    merge_keys-Apart objs (insert k vs target) m.1 (Apart-insert k vs objs target m.0 a.1)
    ∙ (ap (λ (t : GoMap Text VersionState). t ++ objs) (insert_fresh k vs target a.0)
        ∙ append_assoc target ((k, vs) ∷ []) objs)

merge_objects-Apart :
    (snapshot target : Objects)
    → AreMaps snapshot
    → Apart snapshot target
    → merge_objects snapshot target ≡ target ++ snapshot
unfolding merge_objects
merge_objects-Apart [] target m a = sym (append-nil target)
merge_objects-Apart ((b, objs) ∷ snapshot) target (m, e) a =
    rw (a.0, merge_keys-Apart objs [] e.0 (Apart-nil objs))
      (merge_objects-Apart snapshot (insert b objs target) (m.1, e.1)
          (Apart-insert b objs snapshot target m.0 a.1)
        ∙ (ap (λ (t : Objects). t ++ snapshot) (insert_fresh b objs target a.0)
            ∙ append_assoc target ((b, objs) ∷ []) snapshot))

-- What was written is what is there afterwards.
pub merge_objects-nil :
    (snapshot : Objects) → AreMaps snapshot → merge_objects snapshot [] ≡ snapshot
merge_objects-nil snapshot m = merge_objects-Apart snapshot [] m (Apart-nil snapshot)
