-- ===== src/MetaStore/Commands.antt =====
-- internal/store/meta.go: puts and deletes one after the other.
use mathlib.Core.Path.{fun_ext, ap₂}
use jario.Base.{
  All, All-imp, ℕ, ◌≡◌, refl, List, [], ◌∷◌, arith, Bool-cases, Option-cases, inl, inr,
}
use jario.Text.{Text, text_eq, text_eq_iff, text_eq_inst}
use jario.Outcome.{Outcome}
use jario.GoMap.{GoMap, insert, lookup-insert}
use jario.MetaStore.Versions.{ObjectMeta, VersionEntry, VersionState, remove_version}
use jario.MetaStore.Ops.{MetaStore, find_key, keep_versions, put_object, delete_object}
use jario.MetaStore.Lookups.{Opened, put_object-eq, delete_object-marker, delete_object-version}
use jario.MetaStore.Spec.{View, view, promised_put, promised_delete}
use jario.MetaStore.Promised.{
  put_object-View, delete_object-View, delete_object_absent, delete_object_unknown,
}

-- A put, or a delete with or without a version ID.
pub data Command : Type 0 where
  stores : (bucket key : Text) → ObjectMeta → Command
  erases : (bucket key vid : Text) (now : ℕ) → Command

abbrev pub bucket_of : Command → Text
bucket_of (stores b k meta) = b
bucket_of (erases b k vid now) = b

abbrev pub run : {Db : Type 0} → MetaStore Db → Command → Outcome Text × MetaStore Db
run m (stores b k meta) = put_object m b k meta
run m (erases b k vid now) = delete_object m b k vid now

abbrev pub promised : View → Command → Outcome Text × View
promised v (stores b k meta) = promised_put v b k meta
promised v (erases b k vid now) = promised_delete v b k vid now

-- The results of the commands one after the other, and what is left.
abbrev pub run_all :
    {Db : Type 0} → MetaStore Db → List Command → List (Outcome Text) × MetaStore Db
run_all m [] = ([], m)
run_all m (c ∷ cs) = let (r, m') = run m c in let (rs, m'') = run_all m' cs in (r ∷ rs, m'')

abbrev pub promised_all : View → List Command → List (Outcome Text) × View
promised_all v [] = ([], v)
promised_all v (c ∷ cs) =
    let (r, v') = promised v c in let (rs, v'') = promised_all v' cs in (r ∷ rs, v'')

module _ {Db : Type 0} where
  run-View :
      (m : MetaStore Db) (c : Command)
      → Opened m (bucket_of c)
      → ((run m c).0 ≡ (promised (view m) c).0) × (view (run m c).1 ≡ (promised (view m) c).1)
  run-View m (stores b k meta) o =
      let (result, keys) = put_object-View m b k o meta in
      (result, fun_ext (λ b'. fun_ext (λ k'. keys b' k')))
  run-View m (erases b k vid now) o =
      let (result, keys) = delete_object-View m b k o vid now in
      (result, fun_ext (λ b'. fun_ext (λ k'. keys b' k')))

  insert-Opened :
      (m : MetaStore Db) (b b' : Text) (objs : GoMap Text VersionState)
      → Opened m b'
      → Opened (record m { objects = insert b objs m.objects }) b'
  insert-Opened m b b' objs (cached, old, found) = elim (Bool-cases (text_eq b b')) [
    | inl same ↦ (cached, objs, ground (arith, lookup-insert b b' objs m.objects, same))
    | inr other ↦ (cached, old, ground (arith, lookup-insert b b' objs m.objects, other, found))
  ]

  keep_versions-Opened :
      (m : MetaStore Db) (b k b' : Text) (objs : GoMap Text VersionState) (vst : VersionState)
      (rest : List VersionEntry)
      → Opened m b'
      → Opened (keep_versions m b k objs vst rest) b'
  keep_versions-Opened m b k b' objs vst [] o = insert-Opened m b b' _ o
  keep_versions-Opened m b k b' objs vst (e ∷ es) o = insert-Opened m b b' _ o

  delete_object-Opened :
      (m : MetaStore Db) (b k vid : Text) (now : ℕ) (b' : Text)
      → Opened m b
      → Opened m b'
      → Opened (delete_object m b k vid now).1 b'
  delete_object-Opened m b k vid now b' o o' = elim (Option-cases (find_key m b k)) [
    | inl missing ↦ rw (delete_object_absent m b k o vid now missing) o'
    | inr (vst, found) ↦ elim (Bool-cases (text_eq vid [])) [
      | inl plain ↦
          rw ((text_eq_iff vid []).0 plain, delete_object-marker m b k now vst o found)
            (insert-Opened m b b' _ o')
      | inr named ↦ elim (Option-cases (remove_version vid vst.versions)) [
        | inl unknown ↦ rw (delete_object_unknown m b k o vid now vst found named unknown) o'
        | inr (rest, removed) ↦
            rw
              (delete_object-version m b k vid now vst rest o found
                (λ e. ground (arith, e, named, text_eq_iff vid [])) removed)
              (keep_versions-Opened m b k b' o.1 vst rest o')
      ]
    ]
  ]

  run-Opened :
      (m : MetaStore Db) (c : Command) (b : Text)
      → Opened m (bucket_of c)
      → Opened m b
      → Opened (run m c).1 b
  run-Opened m (stores b' k meta) b o o' =
      rw (put_object-eq m b' k meta o) (insert-Opened m b' b _ o')
  run-Opened m (erases b' k vid now) b o o' = delete_object-Opened m b' k vid now b o o'

  All-Opened :
      (m : MetaStore Db) (c : Command) (cs : List Command)
      → Opened m (bucket_of c)
      → All (λ d. Opened m (bucket_of d)) cs
      → All (λ d. Opened (run m c).1 (bucket_of d)) cs
  All-Opened m c cs o = All-imp (λ d. run-Opened m c (bucket_of d) o) cs

  -- The metadata store implements a map from buckets and keys to histories, the versions of a key
  -- from the oldest to the newest with the next ID: any puts and deletes, with or without a
  -- version ID, one after the other, return what the operations on histories return and leave the
  -- histories that they leave. The buckets are open at the start.
  pub run_all-promised_all :
      (m : MetaStore Db) (cs : List Command)
      → All (λ c. Opened m (bucket_of c)) cs
      → ((run_all m cs).0 ≡ (promised_all (view m) cs).0)
        × (view (run_all m cs).1 ≡ (promised_all (view m) cs).1)
  run_all-promised_all m [] h = (refl, refl)
  run_all-promised_all m (c ∷ cs) (o, h) =
      let (result, left) = run-View m c o in
      let (results, end) = run_all-promised_all (run m c).1 cs (All-Opened m c cs o h) in
      rw (← left) (ap₂ ◌∷◌ result results, end)
