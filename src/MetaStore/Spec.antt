-- ===== src/MetaStore/Spec.antt =====
-- internal/store/meta.go: what the metadata store promises. A key has a history, its versions from the
-- oldest to the newest; the maps of maps, the arrays and the index of the current version are not seen.
use jario.Base.{ℕ, ◌+◌, ◌%◌, ◌^◌, ◌&&◌, List, [], ◌∷◌, ◌++◌, Option, none, some, map, if◌then◌else◌}
use jario.Text.{Text, text_eq, text_eq_inst}
use jario.Text.Decimal.{format_int}
use jario.Outcome.{Outcome, ok, err, no_key, or_err}
use jario.MetaStore.Versions.{ObjectMeta, VersionState, with_version_id}
use jario.MetaStore.Ops.{MetaStore, find_key, marker}

pub record History : Type 0 where
  pub metas : List ObjectMeta
  pub next_id : ℕ

abbrev pub View : Type 0
View = Text → Text → Option History

abbrev pub history : VersionState → History
history vs = record { metas = map (λ e. e.meta) vs.versions; next_id = vs.next_id }

abbrev pub seen : Option VersionState → Option History
seen none = none
seen (some vs) = some (history vs)

abbrev pub view : {Db : Type 0} → MetaStore Db → View
view m b k = seen (find_key m b k)

-- The operations of the promise.
abbrev pub or_fresh : Option History → History
or_fresh none = record { metas = []; next_id = 1 }
or_fresh (some h) = h

abbrev pub extend : History → ObjectMeta → History
extend h meta = record {
  metas = h.metas ++ with_version_id meta h.next_id ∷ [];
  next_id = (h.next_id + 1) % 2 ^ 64;
}

abbrev pub update : View → (bucket key : Text) → Option History → View
update v bucket key h b k = if text_eq bucket b && text_eq key k then h else v b k

unfoldable pub without : Text → List ObjectMeta → Option (List ObjectMeta)
without vid [] = none
without vid (meta ∷ metas) =
    if text_eq meta.version_id vid
    then some metas
    else elim (without vid metas) [ none ↦ none | some rest ↦ some (meta ∷ rest) ]

-- A history without versions is no history.
abbrev pub settle : ℕ → List ObjectMeta → Option History
settle next_id [] = none
settle next_id (meta ∷ metas) = some (record { metas = meta ∷ metas; next_id = next_id })

abbrev pub promised_put : View → (bucket key : Text) → ObjectMeta → Outcome Text × View
promised_put v bucket key meta =
    let h = or_fresh (v bucket key) in
    (ok (format_int h.next_id), update v bucket key (some (extend h meta)))

abbrev pub promised_removal : View → (bucket key vid : Text) → History → Outcome Text × View
promised_removal v bucket key vid h = elim (without vid h.metas) [
  | none ↦ (err no_key, v)
  | some rest ↦ (ok [], update v bucket key (settle h.next_id rest))
]

abbrev pub promised_delete : View → (bucket key vid : Text) (now : ℕ) → Outcome Text × View
promised_delete v bucket key vid now = elim (v bucket key) [
  | none ↦ (err no_key, v)
  | some h ↦
      if text_eq vid []
      then promised_put v bucket key (marker key now)
      else promised_removal v bucket key vid h
]

-- The newest version of a history.
unfoldable pub newest : List ObjectMeta → Option ObjectMeta
newest [] = none
newest (meta ∷ metas) =
    let later = newest metas in elim later [ none ↦ some meta | some m ↦ some m ]

unfoldable pub with_id : Text → List ObjectMeta → Option ObjectMeta
with_id vid [] = none
with_id vid (meta ∷ metas) = if text_eq meta.version_id vid then some meta else with_id vid metas

-- A delete marker hides the key.
abbrev pub unhidden : Option ObjectMeta → Outcome ObjectMeta
unhidden none = err no_key
unhidden (some meta) = if meta.is_delete_marker then err no_key else ok meta

abbrev pub promised_get : View → (bucket key vid : Text) → Outcome ObjectMeta
promised_get v bucket key vid = elim (v bucket key) [
  | none ↦ err no_key
  | some h ↦
      if text_eq vid [] then unhidden (newest h.metas) else or_err no_key (with_id vid h.metas)
]
