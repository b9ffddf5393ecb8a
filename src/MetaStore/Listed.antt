-- ===== src/MetaStore/Listed.antt =====
-- internal/store/meta.go: what `ListObjectsPaged` lists is what `GetObject` returns.
use mathlib.Core.List.{Mem, mem-cons_self, mem-cons_of_mem, eq-or-mem_of_mem-cons, not-mem-nil}
use mathlib.Core.List.Perm
use mathlib.Core.Logic.Or
use native.Mathlib.Decide.{ℕ_discrete}
use jario.Base.{
  ◌≡◌, refl, sym, subst, ◌↔◌, true, [], ◌∷◌, Option, none, some, arith, Bool-cases, inl, inr,
}
use jario.Text.{Text, text_eq, text_lt, text_eq_iff, text_eq_inst}
use jario.Outcome.{Outcome, ok, err, no_key}
use jario.GoMap.{GoMap, lookup, IsMap, Every}
use jario.Sort.Laws.{sort-perm}
use jario.MetaStore.Versions.{ObjectMeta, VersionState, current_version}
use jario.MetaStore.Ops.{MetaStore, find_key, get_object}
use jario.MetaStore.Invariant.{IsValid, AreValid}
use jario.MetaStore.Listing.{collect, less_key, matches}
use jario.MetaStore.Pages.{collect-cons, listing}
use jario.MetaStore.Paging.{keys_of, keys_of-IsValid, all_after}

-- What makes an object of a map of keys part of a listing.
abbrev pub current_in : Option VersionState → Outcome ObjectMeta
current_in none = err no_key
current_in (some vst) = current_version vst

abbrev pub IsListed : GoMap Text VersionState → Text → Text → ObjectMeta → Type 0
IsListed objs p s o =
    (current_in (lookup o.key objs) ≡ ok o) × (matches p o.key ≡ true) × (text_lt s o.key ≡ true)

IsListed-prop :
    (objs : GoMap Text VersionState) (p s : Text) (o : ObjectMeta) → IsProp (IsListed objs p s o)
IsListed-prop objs p s o = hlevel ℕ_discrete

collect-nil : (p s : Text) → collect p s [] ≡ []
unfolding collect
collect-nil p s = refl

-- A key found in the rest of a map is not the first key.
IsListed-cons :
    (k : Text) (vst : VersionState) (objs : GoMap Text VersionState) (p s : Text) (o : ObjectMeta)
    → lookup k objs ≡ none
    → IsListed objs p s o
    → IsListed ((k, vst) ∷ objs) p s o
unfolding lookup
IsListed-cons k vst objs p s o new (e, a, b) = (ground (arith, text_eq_iff k o.key), a, b)

collect→IsListed :
    (p s : Text) (objs : GoMap Text VersionState) (o : ObjectMeta)
    → Every IsValid objs
    → IsMap objs
    → Mem o (collect p s objs)
    → IsListed objs p s o
unfolding lookup
collect→IsListed p s [] o v m h = absurd (not-mem-nil {a = o} (subst (Mem o) (collect-nil p s) h))
collect→IsListed p s ((k, vst) ∷ objs) o v m h = elim (collect-cons p s k vst objs v.0) [
  | inl skipped ↦
      IsListed-cons k vst objs p s o m.0
        (collect→IsListed p s objs o v.1 m.1 (subst (Mem o) skipped h))
  | inr (meta, cur, own, a, b, split) ↦
      Or.elim (IsListed-prop ((k, vst) ∷ objs) p s o)
        (eq-or-mem_of_mem-cons (subst (Mem o) split h))
        (λ same. subst (IsListed ((k, vst) ∷ objs) p s) (sym same) (
          first meta cur own,
          subst (λ t. matches p t ≡ true) (sym own) a,
          subst (λ t. text_lt s t ≡ true) (sym own) b,
        ))
        (λ later. IsListed-cons k vst objs p s o m.0 (collect→IsListed p s objs o v.1 m.1 later))
]
  where
    first :
        (meta : ObjectMeta)
        → current_version vst ≡ ok meta
        → meta.key ≡ k
        → current_in (lookup meta.key ((k, vst) ∷ objs)) ≡ ok meta
    first meta cur own = ground (arith, text_eq_iff k meta.key)

taken_first :
    (p s k : Text) (vst : VersionState) (objs : GoMap Text VersionState) (o : ObjectMeta)
    → k ≡ o.key
    → current_version vst ≡ ok o
    → matches p o.key ≡ true
    → text_lt s o.key ≡ true
    → collect p s ((k, vst) ∷ objs) ≡ o ∷ collect p s objs
unfolding collect
taken_first p s k vst objs o own e a b = rw (own, a, b, e)

IsListed→collect :
    (p s : Text) (objs : GoMap Text VersionState) (o : ObjectMeta)
    → Every IsValid objs
    → IsListed objs p s o
    → Mem o (collect p s objs)
unfolding lookup
IsListed→collect p s [] o v (e, _, _) = absurd (cc)
IsListed→collect p s ((k, vst) ∷ objs) o v (e, a, b) = elim (Bool-cases (text_eq k o.key)) [
  | inl same ↦
      let taken : collect p s ((k, vst) ∷ objs) ≡ o ∷ collect p s objs =
        taken_first p s k vst objs o ((text_eq_iff k o.key).0 same) (ground arith) a b in
      subst (Mem o) (sym taken) mem-cons_self
  | inr other ↦
      let later = IsListed→collect p s objs o v.1 (ground arith, a, b) in
      elim (collect-cons p s k vst objs v.0) [
        | inl skipped ↦ subst (Mem o) (sym skipped) later
        | inr (meta, _, _, _, _, split) ↦ subst (Mem o) (sym split) (mem-cons_of_mem meta later)
      ]
]

get_object-current :
    {Db : Type 0} (m : MetaStore Db) (b k : Text)
    → get_object m b k [] ≡ current_in (lookup k (keys_of m b))
unfolding get_object find_key text_eq lookup
get_object-current m b k = ground arith

module _ {Db : Type 0} (m : MetaStore Db) (v : AreValid m.objects) (b p : Text) where
  -- In a valid store an object is in the whole listing of a bucket exactly if a plain read of its
  -- key returns it, its key has the prefix and its key comes after the start.
  pub listed_iff_get_object :
      (s : Text) (o : ObjectMeta)
      → Mem o (all_after m v b p s)
        ↔ ((get_object m b o.key [] ≡ ok o) × (matches p o.key ≡ true) × (text_lt s o.key ≡ true))
  unfolding listing
  listed_iff_get_object s o =
      let objs = keys_of m b in
      let (map, valid) = keys_of-IsValid m b v in
      let same = sort-perm less_key (collect p s objs) in
      rw (get_object-current m b o.key) (
        λ h. collect→IsListed p s objs o valid map ((Perm.mem_iff same).0 h),
        λ h. (Perm.mem_iff same).1 (IsListed→collect p s objs o valid h),
      )
