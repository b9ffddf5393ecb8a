-- ===== src/MetaStore/Lookups.antt =====
-- internal/store/meta.go: what each write changes of what `find_key` reads.
use jario.Base.{
  ◌≡◌, refl, ap, true, ◌&&◌, List, [], ◌∷◌, Option, none, some, arith, ℕ, length, ◌-◌, ◌≢◌,
  Bool-cases, Option-cases, inl, inr, if◌then◌else◌,
}
use jario.Text.{Text, text_eq, text_eq_iff, text_eq_inst}
use jario.Text.Decimal.{format_int}
use jario.Outcome.{Error, ok, err}
use jario.GoMap.{GoMap, lookup, insert, delete, lookup-insert, lookup-delete}
use jario.MetaStore.Versions.{ObjectMeta, VersionEntry, VersionState, push_version, remove_version}
use jario.MetaStore.Ops.{
  MetaStore, find_key, set_key, or_new, is_cached, put_object, delete_object, marker, keep_versions,
}

-- What is left of a key.
abbrev pub after_removal : VersionState → List VersionEntry → Option VersionState
after_removal vst [] = none
after_removal vst (e ∷ es) = some (record vst { versions = e ∷ es; current = length (e ∷ es) - 1 })

module _ {Db : Type 0} (m : MetaStore Db) where
  -- The bucket is known and its map of keys exists.
  abbrev pub Opened : Text → Type 0
  Opened bucket =
      (is_cached m bucket ≡ true)
      × (objs : GoMap Text VersionState) × (lookup bucket m.objects ≡ some objs)

  -- The versions of a key, a new list if there is none.
  abbrev pub versions_at : Text → Text → VersionState
  versions_at bucket key = or_new (find_key m bucket key)

  pub find_key-eq :
      (b k : Text) (objs : GoMap Text VersionState)
      → lookup b m.objects ≡ some objs
      → find_key m b k ≡ lookup k objs
  unfolding find_key
  find_key-eq b k objs h = rw (h, find_key)

  pub find-set_key :
      (b k b' k' : Text) (objs : GoMap Text VersionState) (vs : VersionState)
      → lookup b m.objects ≡ some objs
      → find_key (set_key m b k objs vs) b' k'
        ≡ (if text_eq b b' && text_eq k k' then some vs else find_key m b' k')
  unfolding find_key
  find-set_key b k b' k' objs vs h = ground (
    arith,
    lookup-insert b b' (insert k vs objs) m.objects,
    lookup-insert k k' vs objs,
    text_eq_iff b b',
  )

  pub put_object-eq :
      (b k : Text) (meta : ObjectMeta) (o : Opened b)
      → put_object m b k meta ≡ (
        ok (format_int (versions_at b k).next_id),
        set_key m b k o.1 (push_version (versions_at b k) meta),
      )
  unfolding put_object find_key
  put_object-eq b k meta (cached, objs, found) = rw (cached, found, find_key)

  -- A put into an open bucket succeeds with the next ID of the key, appends one version to that
  -- key and leaves every other key alone.
  pub put_object_lem :
      (b k : Text) (meta : ObjectMeta)
      → Opened b
      → ((put_object m b k meta).0 ≡ ok (format_int (versions_at b k).next_id))
        × ((b' k' : Text)
            → find_key (put_object m b k meta).1 b' k' ≡ (
                if text_eq b b' && text_eq k k'
                then some (push_version (versions_at b k) meta)
                else find_key m b' k'))
  put_object_lem b k meta o =
      rw (put_object-eq b k meta o)
        (refl, λ b' k'. find-set_key b k b' k' o.1 (push_version (versions_at b k) meta) o.2)

  -- The two branches of `DeleteObject` in an open bucket that has the key.
  pub delete_object-marker :
      (b k : Text) (now : ℕ) (vst : VersionState) (o : Opened b)
      → find_key m b k ≡ some vst
      → delete_object m b k [] now
        ≡ (ok (format_int vst.next_id), set_key m b k o.1 (push_version vst (marker k now)))
  unfolding delete_object find_key text_eq
  delete_object-marker b k now vst (cached, objs, found) h = ground arith

  pub find-keep_versions :
      (b k b' k' : Text) (objs : GoMap Text VersionState) (vst : VersionState)
      (rest : List VersionEntry)
      → lookup b m.objects ≡ some objs
      → find_key (keep_versions m b k objs vst rest) b' k'
        ≡ (if text_eq b b' && text_eq k k' then after_removal vst rest else find_key m b' k')
  unfolding find_key
  find-keep_versions b k b' k' objs vst [] h = ground (
    arith,
    lookup-insert b b' (delete k objs) m.objects,
    lookup-delete k k' objs,
    text_eq_iff b b',
  )
  find-keep_versions b k b' k' objs vst (e ∷ es) h = find-set_key b k b' k' objs _ h

  pub delete_object-version :
      (b k vid : Text) (now : ℕ) (vst : VersionState) (rest : List VersionEntry) (o : Opened b)
      → find_key m b k ≡ some vst
      → vid ≢ []
      → remove_version vid vst.versions ≡ some rest
      → delete_object m b k vid now ≡ (ok [], keep_versions m b k o.1 vst rest)
  unfolding delete_object find_key
  delete_object-version b k vid now vst rest (cached, objs, found) h ne r =
      ground (arith, text_eq_iff vid [])

  -- A permanent delete of a version that is there takes it out of its key, and the key with it if
  -- it was the only one; every other key is left alone.
  pub delete_version_lem :
      (b k vid : Text) (now : ℕ) (vst : VersionState) (rest : List VersionEntry)
      → Opened b
      → find_key m b k ≡ some vst
      → vid ≢ []
      → remove_version vid vst.versions ≡ some rest
      → ((delete_object m b k vid now).0 ≡ ok [])
        × ((b' k' : Text)
            → find_key (delete_object m b k vid now).1 b' k'
              ≡ (if text_eq b b' && text_eq k k' then after_removal vst rest else find_key m b' k'))
  delete_version_lem b k vid now vst rest o h ne r =
      rw (delete_object-version b k vid now vst rest o h ne r)
        (refl, λ b' k'. find-keep_versions b k b' k' o.1 vst rest o.2)

  -- A delete marker is one more version of its key; every other key is left alone.
  pub delete_marker_lem :
      (b k : Text) (now : ℕ) (vst : VersionState)
      → Opened b
      → find_key m b k ≡ some vst
      → ((delete_object m b k [] now).0 ≡ ok (format_int vst.next_id))
        × ((b' k' : Text)
            → find_key (delete_object m b k [] now).1 b' k' ≡ (
                if text_eq b b' && text_eq k k'
                then some (push_version vst (marker k now))
                else find_key m b' k'))
  delete_marker_lem b k now vst o h =
      rw (delete_object-marker b k now vst o h)
        (refl, λ b' k'. find-set_key b k b' k' o.1 (push_version vst (marker k now)) o.2)

  -- A delete that returns an error has changed nothing.
  pub delete_object_failed :
      (b k vid : Text) (now : ℕ) (e : Error)
      → (delete_object m b k vid now).0 ≡ err e
      → (delete_object m b k vid now).1 ≡ m
  unfolding delete_object
  delete_object_failed b k vid now e h = ground arith

  -- So has a put that does not return an ID.
  pub put_object_failed :
      (b k : Text) (meta : ObjectMeta)
      → ((t : Text) → (put_object m b k meta).0 ≢ ok t)
      → (put_object m b k meta).1 ≡ m
  unfolding put_object
  put_object_failed b k meta h = elim (Bool-cases (is_cached m b)) [
    | inr unknown ↦ rw unknown
    | inl cached ↦ elim (Option-cases (lookup b m.objects)) [
      | inl missing ↦ ground arith
      | inr (objs, found) ↦
          absurd (h _ (ap (λ r. r.0) (put_object-eq b k meta (cached, objs, found))))
    ]
  ]
