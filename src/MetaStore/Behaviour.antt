-- ===== src/MetaStore/Behaviour.antt =====
-- internal/store/meta.go: what a client reads after a put, a delete and a permanent delete.
use jario.Base.{
  ℕ, suc, ◌+◌, ◌-◌, ◌^◌, ◌<◌, ◌≡◌, refl, sym, ap, subst, ◌≢◌, true, false, ◌&&◌, List, [], ◌∷◌,
  ◌++◌, Option, none, some, arith, length, length-append, get_elem?-last, if◌then◌else◌,
}
use jario.Text.{Text, text_eq, text_eq_iff, text_eq_inst}
use jario.Text.Laws.{text_eq_refl}
use jario.Text.Decimal.{format_int}
use jario.Outcome.{Outcome, ok, err, no_key, or_err}
use jario.MetaStore.Versions.{
  ObjectMeta, VersionEntry, VersionState, with_version_id, push_version, find_version,
  remove_version, current_version,
}
use jario.MetaStore.Numbering.{
  Numbered, find_version-append, find_version-eq-none_above, find_version_removed,
  find_version_kept, find_version-nil,
}
use jario.MetaStore.Ops.{
  MetaStore, find_key, or_new, put_object, get_object, get_object_version, delete_object, marker,
  is_delete_marker,
}
use jario.MetaStore.Lookups.{
  Opened, versions_at, after_removal, put_object_lem, delete_marker_lem, delete_version_lem,
}
use jario.MetaStore.Invariant.{IsValid, IsOpen}

-- The version just pushed is the current one.
current_version-push :
    (vs : VersionState) (meta : ObjectMeta)
    → length vs.versions < 2 ^ 63
    → current_version (push_version vs meta)
      ≡ (if meta.is_delete_marker then err no_key else ok (with_version_id meta vs.next_id))
unfolding current_version push_version
current_version-push vs meta small =
    let e : VersionEntry = record { meta = with_version_id meta vs.next_id } in
    let count = length-append vs.versions (e ∷ []) in
    let last = get_elem?-last vs.versions e in
    let index : length (vs.versions ++ e ∷ []) - 1 ≡ length vs.versions = omega (arith, count) in
    rw index (ground (arith, last, count))

pub length-le-next_id :
    (lo : ℕ) (es : List VersionEntry) (hi : ℕ) → Numbered lo es hi → lo + length es < suc hi
length-le-next_id lo [] hi h = omega arith
length-le-next_id lo (e ∷ es) hi (i, low, own, rest) =
    omega (arith, length-le-next_id (suc i) es hi rest)

-- A push adds one ID, which no earlier version has.
find_version-push :
    (vid : Text) (vs : VersionState) (meta : ObjectMeta)
    → Numbered 1 vs.versions vs.next_id
    → vs.next_id < 2 ^ 63
    → find_version vid (push_version vs meta).versions ≡ (
        if text_eq (format_int vs.next_id) vid
        then some (with_version_id meta vs.next_id)
        else find_version vid vs.versions)
unfolding push_version
find_version-push vid vs meta numbered room =
    let fresh =
      find_version-eq-none_above vs.next_id 1 vs.versions vs.next_id numbered (omega arith) room in
    ground (
      arith,
      find_version-append vid vs.versions (record { meta = with_version_id meta vs.next_id }),
      text_eq_iff (format_int vs.next_id) vid,
      fresh,
    )

abbrev version_in : Option VersionState → Text → Outcome ObjectMeta
version_in none vid = err no_key
version_in (some vs) vid = or_err no_key (find_version vid vs.versions)

version_in-after_removal :
    (vst : VersionState) (rest : List VersionEntry) (j : Text)
    → version_in (after_removal vst rest) j ≡ or_err no_key (find_version j rest)
version_in-after_removal vst [] j = rw (find_version-nil j)
version_in-after_removal vst (e ∷ es) j = refl

module _ {Db : Type 0} (m : MetaStore Db) where
  -- A read of the current version after a put that is not a delete marker returns what was put,
  -- under the next ID of the key. The bucket is open, the versions of the key are numbered, and an
  -- ID is left.
  pub get_object-put_object :
      (b k : Text) (meta : ObjectMeta)
      → Opened m b
      → IsOpen k (versions_at m b k)
      → meta.is_delete_marker ≡ false
      → get_object (put_object m b k meta).1 b k []
        ≡ ok (with_version_id meta (versions_at m b k).next_id)
  unfolding get_object text_eq
  get_object-put_object b k meta o v live =
      let after = (put_object_lem m b k meta o).1 b k in
      let small = length-le-next_id 1 _ _ v.numbered in
      ground (
        arith,
        after,
        text_eq_refl b,
        text_eq_refl k,
        current_version-push (versions_at m b k) meta,
      )

  get_object_version-eq :
      (n : MetaStore Db) (b k vid : Text)
      → get_object_version n b k vid ≡ version_in (find_key n b k) vid
  unfolding get_object_version
  get_object_version-eq n b k vid = ground arith

  versions_at-none :
      (b k vid : Text)
      → or_err no_key (find_version vid (versions_at m b k).versions) ≡ get_object_version m b k vid
  versions_at-none b k vid = ground (arith, get_object_version-eq m b k vid, find_version-nil vid)

  reads_after_push :
      (n : MetaStore Db) (b k : Text) (meta : ObjectMeta) (b' k' vid : Text)
      → IsOpen k (versions_at m b k)
      → find_key n b' k' ≡ (
          if text_eq b b' && text_eq k k'
          then some (push_version (versions_at m b k) meta)
          else find_key m b' k')
      → get_object_version n b' k' vid ≡ (
          if text_eq b b' && (text_eq k k' && text_eq (format_int (versions_at m b k).next_id) vid)
          then ok (with_version_id meta (versions_at m b k).next_id)
          else get_object_version m b' k' vid)
  reads_after_push n b k meta b' k' vid v after = ground (
    arith,
    after,
    get_object_version-eq n b' k' vid,
    get_object_version-eq m b' k' vid,
    find_version-push vid (versions_at m b k) meta v.numbered,
    v.room,
    text_eq_iff b b',
    text_eq_iff k k',
    versions_at-none b k vid,
  )

  -- A put adds one version and hides none: by ID, every version of every key reads as before, but
  -- for the next ID of the key, which reads as the version put. The bucket is open, the versions
  -- of the key are numbered, and an ID is left.
  pub get_object_version-put_object :
      (b k : Text) (meta : ObjectMeta) (b' k' vid : Text)
      → Opened m b
      → IsOpen k (versions_at m b k)
      → get_object_version (put_object m b k meta).1 b' k' vid ≡ (
          if text_eq b b' && (text_eq k k' && text_eq (format_int (versions_at m b k).next_id) vid)
          then ok (with_version_id meta (versions_at m b k).next_id)
          else get_object_version m b' k' vid)
  get_object_version-put_object b k meta b' k' vid o v =
      reads_after_push _ b k meta b' k' vid v ((put_object_lem m b k meta o).1 b' k')

  -- DELETE without a version ID of a key that is there hides the key from a plain read, makes the
  -- new version a delete marker, and loses no version: every ID of every key but the marker's
  -- reads as before. The bucket is open, the versions of the key are numbered, and an ID is left.
  pub delete_object_hides :
      (b k : Text) (now : ℕ) (vst : VersionState)
      → Opened m b
      → find_key m b k ≡ some vst
      → IsOpen k vst
      → (get_object (delete_object m b k [] now).1 b k [] ≡ err no_key)
        × (is_delete_marker (delete_object m b k [] now).1 b k (format_int vst.next_id) ≡ true)
        × ((b' k' vid : Text)
            → (text_eq b b' && (text_eq k k' && text_eq (format_int vst.next_id) vid)) ≡ false
            → get_object_version (delete_object m b k [] now).1 b' k' vid
              ≡ get_object_version m b' k' vid)
  unfolding get_object is_delete_marker text_eq
  delete_object_hides b k now vst o h v =
      let after = (delete_marker_lem m b k now vst o h).1 in
      let at : versions_at m b k ≡ vst = ap or_new h in
      let v' : IsOpen k (versions_at m b k) = subst (IsOpen k) (sym at) v in
      let small = length-le-next_id 1 _ _ v.numbered in
      let pushed : (b' k' : Text)
          → find_key (delete_object m b k [] now).1 b' k' ≡ (
              if text_eq b b' && text_eq k k'
              then some (push_version (versions_at m b k) (marker k now))
              else find_key m b' k') =
        λ b' k'. rw at (after b' k') in
      (
        ground (
          arith,
          after b k,
          text_eq_refl b,
          text_eq_refl k,
          current_version-push vst (marker k now),
        ),
        ground (
          arith,
          at,
          text_eq_refl b,
          text_eq_refl k,
          text_eq_refl (format_int vst.next_id),
          reads_after_push _ b k (marker k now) b k (format_int vst.next_id) v' (pushed b k),
        ),
        λ b' k' vid other.
            ground (arith, at, reads_after_push _ b k (marker k now) b' k' vid v' (pushed b' k')),
      )

  -- By its ID, a delete marker reads as written.
  pub delete_marker_reads :
      (b k : Text) (now : ℕ) (vst : VersionState)
      → Opened m b
      → find_key m b k ≡ some vst
      → IsOpen k vst
      → get_object_version (delete_object m b k [] now).1 b k (format_int vst.next_id)
        ≡ ok (with_version_id (marker k now) vst.next_id)
  delete_marker_reads b k now vst o h v =
      let at : versions_at m b k ≡ vst = ap or_new h in
      let v' : IsOpen k (versions_at m b k) = subst (IsOpen k) (sym at) v in
      ground (
        arith,
        at,
        text_eq_refl b,
        text_eq_refl k,
        text_eq_refl (format_int vst.next_id),
        reads_after_push (delete_object m b k [] now).1 b k (marker k now) b k
            (format_int vst.next_id) v' (rw at ((delete_marker_lem m b k now vst o h).1 b k)),
      )

  -- DELETE of a version that is there, by its ID, removes it for good: the ID is not found any
  -- more, and by ID every other version of every key reads as before. The bucket is open and the
  -- version list of the key is valid.
  pub delete_version_forgets :
      (b k vid : Text) (now : ℕ) (vst : VersionState) (rest : List VersionEntry)
      → Opened m b
      → find_key m b k ≡ some vst
      → IsValid k vst
      → vid ≢ []
      → remove_version vid vst.versions ≡ some rest
      → (b' k' j : Text)
      → get_object_version (delete_object m b k vid now).1 b' k' j ≡ (
          if text_eq b b' && (text_eq k k' && text_eq vid j)
          then err no_key
          else get_object_version m b' k' j)
  delete_version_forgets b k vid now vst rest o h v ne r b' k' j = ground (
    arith,
    (delete_version_lem m b k vid now vst rest o h ne r).1 b' k',
    get_object_version-eq (delete_object m b k vid now).1 b' k' j,
    get_object_version-eq m b' k' j,
    h,
    text_eq_iff b b',
    text_eq_iff k k',
    text_eq_iff vid j,
    version_in-after_removal vst rest j,
    find_version_removed vid 1 vst.versions vst.next_id rest v.numbered v.bounded r,
    find_version_kept vid j vst.versions rest,
  )
