-- ===== src/MetaStore/Promised.antt =====
-- internal/store/meta.go: a put and a delete do to the histories what they promise.
use jario.Base.{
  ℕ, ◌+◌, ◌%◌, ◌^◌, ◌≡◌, refl, ap, false, List, [], ◌∷◌, ◌++◌, Option, none, some, map, arith,
  Bool-cases, Option-cases, inl, inr,
}
use jario.Text.{Text, text_eq, text_eq_iff, text_eq_inst}
use jario.Text.Laws.{text_eq_refl}
use jario.Outcome.{err, no_key}
use jario.MetaStore.Versions.{
  ObjectMeta, VersionEntry, VersionState, with_version_id, push_version, remove_version,
}
use jario.MetaStore.Ops.{MetaStore, find_key, or_new, marker, put_object, delete_object}
use jario.MetaStore.Lookups.{
  Opened, after_removal, versions_at, put_object_lem, delete_marker_lem, delete_version_lem,
}
use jario.MetaStore.Spec.{
  history, seen, view, or_fresh, extend, without, settle, promised_put, promised_delete,
}

map-snoc :
    (es : List VersionEntry) (e : VersionEntry)
    → map (λ x. x.meta) (es ++ e ∷ []) ≡ map (λ x. x.meta) es ++ e.meta ∷ []
map-snoc [] e = refl
map-snoc (x ∷ es) e = ap (◌∷◌ x.meta) (map-snoc es e)

history-push_version :
    (vs : VersionState) (meta : ObjectMeta)
    → history (push_version vs meta) ≡ extend (history vs) meta
unfolding push_version
history-push_version vs meta =
    ap (λ (metas : List ObjectMeta). record { metas = metas; next_id = (vs.next_id + 1) % 2 ^ 64 })
      (map-snoc vs.versions (record { meta = with_version_id meta vs.next_id }))

history-or_new : (o : Option VersionState) → history (or_new o) ≡ or_fresh (seen o)
history-or_new none = refl
history-or_new (some vs) = refl

seen-after_removal :
    (vs : VersionState) (rest : List VersionEntry)
    → seen (after_removal vs rest) ≡ settle vs.next_id (map (λ e. e.meta) rest)
seen-after_removal vs [] = refl
seen-after_removal vs (e ∷ es) = refl

abbrev metas_of : Option (List VersionEntry) → Option (List ObjectMeta)
metas_of none = none
metas_of (some es) = some (map (λ e. e.meta) es)

without-map :
    (vid : Text) (es : List VersionEntry)
    → without vid (map (λ e. e.meta) es) ≡ metas_of (remove_version vid es)
unfolding without remove_version
without-map vid [] = refl
without-map vid (e ∷ es) = elim (Bool-cases (text_eq e.meta.version_id vid)) [
  | inl found ↦ ground (arith, found)
  | inr other ↦ elim (Option-cases (remove_version vid es)) [
    | inl missing ↦ ground (arith, other, missing, without-map vid es)
    | inr (rest, removed) ↦ ground (arith, other, removed, without-map vid es)
  ]
]

module _ {Db : Type 0} (m : MetaStore Db) (b k : Text) (o : Opened m b) where
  pub put_object-View :
      (meta : ObjectMeta)
      → ((put_object m b k meta).0 ≡ (promised_put (view m) b k meta).0)
        × ((b' k' : Text)
            → view (put_object m b k meta).1 b' k' ≡ (promised_put (view m) b k meta).1 b' k')
  put_object-View meta =
      let (result, keys) = put_object_lem m b k meta o in
      let fresh = history-or_new (find_key m b k) in
      let pushed = history-push_version (versions_at m b k) meta in
      (ground (arith, result, fresh), λ b' k'. ground (arith, keys b' k', fresh, pushed))

  pub delete_object_absent :
      (vid : Text) (now : ℕ) → find_key m b k ≡ none → delete_object m b k vid now ≡ (err no_key, m)
  unfolding delete_object find_key
  delete_object_absent vid now missing =
      let (cached, objs, found) = o in ground (arith, cached, found)

  pub delete_object_unknown :
      (vid : Text) (now : ℕ) (vst : VersionState)
      → find_key m b k ≡ some vst
      → text_eq vid [] ≡ false
      → remove_version vid vst.versions ≡ none
      → delete_object m b k vid now ≡ (err no_key, m)
  unfolding delete_object find_key
  delete_object_unknown vid now vst key named unknown =
      let (cached, objs, found) = o in ground (arith, cached, found, key, named, unknown)

  pub delete_object-View :
      (vid : Text) (now : ℕ)
      → ((delete_object m b k vid now).0 ≡ (promised_delete (view m) b k vid now).0)
        × ((b' k' : Text)
            → view (delete_object m b k vid now).1 b' k'
              ≡ (promised_delete (view m) b k vid now).1 b' k')
  delete_object-View vid now = elim (Option-cases (find_key m b k)) [
    | inl missing ↦
        let gone = delete_object_absent vid now missing in
        (ground (arith, gone, missing), λ b' k'. ground (arith, gone, missing))
    | inr (vst, found) ↦ elim (Bool-cases (text_eq vid [])) [
      | inl plain ↦
          let (result, keys) = delete_marker_lem m b k now vst o found in
          let pushed = history-push_version vst (marker k now) in
          rw ((text_eq_iff vid []).0 plain) (
            ground (arith, result, found, text_eq_refl []),
            λ b' k'. ground (arith, keys b' k', found, pushed, text_eq_refl []),
          )
      | inr named ↦
          let same = without-map vid vst.versions in
          elim (Option-cases (remove_version vid vst.versions)) [
            | inl unknown ↦
                let kept = delete_object_unknown vid now vst found named unknown in
                (
                  ground (arith, kept, found, named, same, unknown),
                  λ b' k'. ground (arith, kept, found, named, same, unknown),
                )
            | inr (rest, removed) ↦
                let (result, keys) =
                  delete_version_lem m b k vid now vst rest o found
                    (λ e. ground (arith, e, named, text_eq_iff vid [])) removed in
                let left = seen-after_removal vst rest in
                (
                  ground (arith, result, found, named, same, removed),
                  λ b' k'. ground (arith, keys b' k', found, named, same, removed, left),
                )
          ]
    ]
  ]
