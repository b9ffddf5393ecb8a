-- ===== src/Store/Multipart/Paths.antt =====
-- internal/store/multipart.go: the files of two parts have different names, and the directory of an
-- upload holds no part of another one. The ID of an upload has no slash.
use jario.Base.{
  ℕ, ◌^◌, ◌<◌, ◌≡◌, refl, sym, ◌∙◌, ◌≢◌, true, false, Bool-cases, inl, inr, [], ◌∷◌, ◌++◌, arith,
}
use jario.Text.{Text, codes, has_prefix, all, no_slash}
use jario.Text.Laws.{cons-injective, ++_cancel, ++_assoc, has_prefix-++}
use jario.Text.Decimal.{format_int, format_int-injective}
use jario.Store.Multipart.Uploads.{multipart_dir, part_path}

abbrev pub IsName : Text → Type 0
IsName s = all no_slash s ≡ true

first_slash :
    (a b x y : Text) → IsName a → IsName b → a ++ b'/' ∷ x ≡ b ++ b'/' ∷ y → (a ≡ b) × (x ≡ y)
first_slash [] [] x y h k same = (refl, (cons-injective same).1)
first_slash [] (d ∷ b) x y h k same = absurd (ground (arith, k, (cons-injective same).0))
first_slash (c ∷ a) [] x y h k same = absurd (ground (arith, h, (cons-injective same).0))
first_slash (c ∷ a) (d ∷ b) x y h k same =
    let (head, tail) = cons-injective same in
    let (rest, after) = first_slash a b x y (ground (arith, h)) (ground (arith, k)) tail in
    (ground (arith, head, rest), after)

prefix_slash :
    (a b x : Text)
    → IsName a
    → IsName b
    → has_prefix (a ++ b'/' ∷ x) (b ++ b'/' ∷ []) ≡ true
    → a ≡ b
unfolding has_prefix
prefix_slash [] [] x h k p = refl
prefix_slash [] (d ∷ b) x h k p = absurd (ground (arith, k))
prefix_slash (c ∷ a) [] x h k p = absurd (ground (arith, h))
prefix_slash (c ∷ a) (d ∷ b) x h k p =
    ground (arith, prefix_slash a b x (ground (arith, h)) (ground (arith, k)) (ground (arith, p)))

-- The path of a part, from left to right.
part_path-eq :
    (data_dir id : Text) (n : ℕ)
    → part_path data_dir id n
      ≡ data_dir ++ (codes "/multipart/" ++ (id ++ (codes "/part" ++ format_int n)))
unfolding part_path multipart_dir
part_path-eq data_dir id n =
    ++_assoc data_dir (codes "/multipart/" ++ id) (codes "/part" ++ format_int n)

pub part_path-injective :
    (data_dir id id' : Text) (n n' : ℕ)
    → IsName id
    → IsName id'
    → n < 2 ^ 63
    → n' < 2 ^ 63
    → part_path data_dir id n ≡ part_path data_dir id' n'
    → (id ≡ id') × (n ≡ n')
part_path-injective data_dir id id' n n' h h' small small' same =
    let whole = sym (part_path-eq data_dir id n) ∙ (same ∙ part_path-eq data_dir id' n') in
    let (ids, rest) =
      first_slash id id' (codes "part" ++ format_int n) (codes "part" ++ format_int n') h h'
        (++_cancel (codes "/multipart/") (++_cancel data_dir whole)) in
    (ids, format_int-injective n n' small small' (++_cancel (codes "part") rest))

pub part_path-other_dir :
    (data_dir id id' : Text) (n : ℕ)
    → IsName id
    → IsName id'
    → id' ≢ id
    → has_prefix (part_path data_dir id' n) (multipart_dir data_dir id ++ codes "/") ≡ false
unfolding multipart_dir
part_path-other_dir data_dir id id' n h h' ne =
    let rest = codes "part" ++ format_int n in
    let apart : has_prefix (id' ++ b'/' ∷ rest) (id ++ b'/' ∷ []) ≡ false =
      elim (Bool-cases (has_prefix (id' ++ b'/' ∷ rest) (id ++ b'/' ∷ []))) [
        | inl hit ↦ absurd (ne (prefix_slash id' id rest h' h hit))
        | inr miss ↦ miss
      ] in
    rw
      (
        part_path-eq data_dir id' n,
        ++_assoc data_dir (codes "/multipart/" ++ id) (codes "/"),
        has_prefix-++ data_dir,
      )
      (has_prefix-++ (codes "/multipart/") (id' ++ b'/' ∷ rest) (id ++ b'/' ∷ []) ∙ apart)
