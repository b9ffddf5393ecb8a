-- ===== src/Tests/Parts.antt =====
-- The theorems on parts and their files at concrete inputs.
use jario.Base.{
  inl, ℕ, ◌≡◌, refl, ◌<◌, ◌%◌, ◌^◌, [], ◌∷◌, ◌++◌, none, some, arith, All, length, nat_eq,
}
use jario.Text.{Text, codes, text_eq, text_eq_inst}
use jario.Text.Decimal.{format_int}
use jario.Outcome.{ok}
use jario.GoMap.{GoMap, lookup, insert}
use jario.BucketDb
use jario.BucketDb.{list, list_from}
use jario.MetaStore.Ops
use jario.MetaStore.Ops.{load_cache, cache_from}
use jario.Raft.Fsm.{put_op}
use jario.Store.State.{Store, Env, Upload, new_store, set_raft}
use jario.Store.Objects.{create_bucket, get_bucket}
use jario.Store.Blobs.{content_of}
use jario.Store.Multipart.Uploads.{
  unix_nano, validate_upload, write_part, register_part, upload_part, new_multipart_upload,
}
use jario.Store.Multipart.Complete.{
  CompletedPart, trim_quotes, trim_left_quotes, check_parts, read_parts,
}
use jario.Store.Multipart.Steps.{part_of}
use jario.Store.Multipart.Completion.{joined}
use jario.Store.Multipart.Interleaved
use jario.Store.Multipart.Interleaved.{interleaved}
use jario.Store.Multipart.Sequence
use jario.Store.Multipart.Sequence.{Calls, opened, more, creates, begins, uploads}
use jario.Tests.Data.{bolt, constant, bucket_meta, photos, cat, upload}
use jario.Tests.Engine
use jario.Tests.Uploads.{uploading, uploaded, id, valid, found}

-- A hash that tells all contents apart.
abbrev tag : Text → Text
tag content = content

abbrev env : Env
env = record Engine.env { random = codes "ab" }

abbrev first_part : CompletedPart
first_part = record { part_number = 3; etag = codes "one" }

interleaved_lem_example :
    (u' : Upload) × (lookup id
        (interleaved tag photos cat id 3 (codes "one") (codes "two") env env uploading).uploads
      ≡ some u')
    × (check_parts u'.parts (first_part ∷ []) 0 ≡ ok (length (content_of (codes "one")) % 2 ^ 64))
    × (read_parts
          (codes "data")
          id
          (interleaved tag photos cat id 3 (codes "one") (codes "two") env env uploading).files
          (first_part ∷ [])
          []
        ≡ ok (content_of (codes "two")))
unfolding trim_quotes trim_left_quotes
interleaved_lem_example =
    Interleaved.interleaved_lem tag photos cat id 3 (codes "one") (codes "two") env env uploading
      uploaded first_part valid found refl refl refl refl refl refl refl refl

abbrev fresh : Store (GoMap Text Text)
fresh =
    set_raft none (new_store (codes "data") (Ops.new_meta_store bolt (constant bucket_meta) []) [])

abbrev with_bucket : Store (GoMap Text Text)
with_bucket = (create_bucket bolt (constant bucket_meta) photos env fresh).1

abbrev with_upload : Store (GoMap Text Text)
with_upload = (new_multipart_upload bolt (constant bucket_meta) photos cat env with_bucket).1

abbrev new_id : Text
new_id = format_int (unix_nano 9) ++ (codes "-" ++ codes "ab")

abbrev with_part : Store (GoMap Text Text)
with_part = (upload_part tag photos cat new_id 1 (codes "he") env with_upload).1

abbrev one_part : Upload
one_part = record {
  id = new_id;
  bucket = photos;
  key = cat;
  initiated = 9;
  parts = (1, part_of tag 1 (codes "he") env) ∷ [];
}

calls :
    Calls bolt
      (constant bucket_meta)
      (constant upload)
      (constant (put_op photos cat []))
      tag
      with_part
calls =
    more
      (more (more (opened none (codes "data") [] []) (creates photos env))
        (begins photos cat env refl))
      (uploads photos cat new_id 1 (codes "he") env (omega arith) (inl refl))

there : lookup new_id with_part.uploads ≡ some one_part
unfolding lookup insert text_eq create_bucket new_multipart_upload get_bucket upload_part write_part
    register_part validate_upload Ops.create_bucket Ops.new_meta_store Ops.get_bucket
    BucketDb.create BucketDb.get load_cache cache_from list list_from format_int unix_nano
there = refl

abbrev he : CompletedPart
he = record { part_number = 1; etag = codes "he" }

checked : check_parts one_part.parts (he ∷ []) 0 ≡ ok 2
unfolding check_parts lookup text_eq trim_quotes trim_left_quotes
checked = refl

Calls-read_parts_example :
    (contents : ℕ → Text) × All
      (λ cp. tag (contents cp.part_number) ≡ trim_quotes cp.etag)
      (he ∷ [])
    × (read_parts with_part.data_dir new_id with_part.files (he ∷ []) []
        ≡ ok (joined contents (he ∷ [])))
    × (length (joined contents (he ∷ [])) < 2 ^ 64 → 2 ≡ length (joined contents (he ∷ [])))
Calls-read_parts_example =
    Sequence.Calls-read_parts bolt (constant bucket_meta) (constant upload)
      (constant (put_op photos cat [])) tag calls new_id one_part there (he ∷ []) 2 checked
