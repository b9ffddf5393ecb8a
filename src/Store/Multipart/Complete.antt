-- ===== src/Store/Multipart/Complete.antt =====
-- internal/store/multipart.go: `CompleteMultipartUpload`.
use jario.Base.{
  ℕ, ◌+◌, ◌%◌, ◌^◌, Bool, List, [], ◌∷◌, ◌++◌, none, some, ltb, ◌==◌, if◌then◌else◌, nat_eq,
}
use mathlib.Core.List.{reverse}
use jario.Text.{Text, codes, text_eq, text_eq_inst}
use jario.Text.Decimal.{format_int}
use jario.Outcome.{Error, Outcome, ok, err, other, invalid_upload_id, or_err, Codec, wrap}
use jario.Action.{Action, lift, gets, modify, ◌>>=◌, ◌>>◌}
use jario.GoMap.{GoMap, lookup}
use jario.Sort.{sort}
use jario.MetaStore.Versions.{ObjectMeta}
use jario.Raft.Fsm.{RaftOp, put_op}
use jario.Store.State.{Store, Env, Part, write_blob}
use jario.Store.Objects.{object_meta, apply}
use jario.Store.Multipart.Uploads.{part_path, validate_upload, cleanup_upload}

-- The part number is an int by its 64-bit pattern; a client may name a negative one.
pub record CompletedPart : Type 0 where
  pub part_number : ℕ
  pub etag : Text

-- strings.Trim(s, `"`)
unfoldable pub trim_left_quotes : Text → Text
trim_left_quotes [] = []
trim_left_quotes (c ∷ s) = let rest = trim_left_quotes s in if c == b'"' then rest else c ∷ s

unfoldable pub trim_quotes : Text → Text
unfolding trim_left_quotes
trim_quotes s = reverse (trim_left_quotes (reverse (trim_left_quotes s)))

-- The order of int64 is the order of the patterns moved by 2^63.
abbrev pub less_completed : CompletedPart → CompletedPart → Bool
less_completed a b = ltb ((a.part_number + 2 ^ 63) % 2 ^ 64) ((b.part_number + 2 ^ 63) % 2 ^ 64)

abbrev pub part_error : ℕ → Text → Error
part_error n problem = other (codes "part " ++ (format_int n ++ problem))

-- The first loop of `CompleteMultipartUpload`; `total` is an int64 by its pattern.
unfoldable pub check_parts : GoMap ℕ Part → List CompletedPart → ℕ → Outcome ℕ
check_parts parts [] total = ok total
check_parts parts (cp ∷ rest) total = elim (lookup cp.part_number parts) [
  | none ↦ err (part_error cp.part_number (codes " not uploaded"))
  | some p ↦
      let checked = check_parts parts rest ((total + p.size) % 2 ^ 64) in
      if text_eq (trim_quotes cp.etag) p.etag
      then checked
      else err (part_error cp.part_number (codes " ETag mismatch"))
]

-- The second loop: the parts' files, one behind the other.
unfoldable pub read_parts :
    (data_dir upload_id : Text) → GoMap Text Text → List CompletedPart → Text → Outcome Text
read_parts data_dir upload_id files [] combined = ok combined
read_parts data_dir upload_id files (cp ∷ rest) combined =
    elim (lookup (part_path data_dir upload_id cp.part_number) files) [
      | none ↦ err (
          other (
            codes "read part "
            ++ (format_int cp.part_number
                ++ (codes ": open "
                    ++ (part_path data_dir upload_id cp.part_number
                        ++ codes ": no such file or directory")))))
      | some content ↦ read_parts data_dir upload_id files rest (combined ++ content)
    ]

module _ {Db : Type 0} where
  unfoldable pub complete_multipart_upload :
      (json : Codec ObjectMeta) (op_json : Codec RaftOp) (hash : Text → Text)
      (bucket key upload_id : Text) (parts : List CompletedPart) (env : Env)
      → Action (Store Db) (Unit {0})
  complete_multipart_upload json op_json hash bucket key upload_id parts env = do
    start ← gets (λ st. st)
    lift (validate_upload start bucket key upload_id)
    u ← lift (or_err invalid_upload_id (lookup upload_id start.uploads))
    let sorted = sort less_completed parts
    total ← lift (check_parts u.parts sorted 0)
    combined ← lift (read_parts start.data_dir upload_id start.files sorted [])
    let etag = hash combined
    (λ st. let (r, st') = write_blob etag combined env st in (wrap (codes "write blob: ") r, st'))
    text ← lift (json.marshal (object_meta key total etag env.now))
    apply json op_json (put_op bucket key text) env.now
    modify (cleanup_upload upload_id)
