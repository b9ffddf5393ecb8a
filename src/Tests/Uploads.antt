-- ===== src/Tests/Uploads.antt =====
-- The theorems on multipart uploads at concrete inputs.
use jario.Base.{
  false, not, ltb, ◌+◌, ◌&&◌, ℕ, ◌≡◌, ◌≢◌, refl, ◌==◌, List, [], ◌∷◌, ◌++◌, none, some, arith, All,
  if◌then◌else◌, nat_eq,
}
use jario.Text.{Text, codes, text_eq, has_prefix, text_eq_inst}
use jario.Text.Decimal.{format_int}
use jario.Outcome.{ok, err, panic, invalid_upload_id}
use jario.GoMap.{GoMap, lookup}
use jario.Sort.{insert_sorted, sort}
use jario.MetaStore.Versions.{ObjectMeta, with_version_id}
use jario.MetaStore.Lookups.{versions_at}
use jario.Raft.Fsm.{put_op}
use jario.Store.State.{Store, Part, Upload}
use jario.Store.Objects.{object_meta, get_object}
use jario.Store.Multipart.Uploads.{
  multipart_dir, part_path, validate_upload, register_part, abort_multipart_upload,
}
use jario.Store.Multipart.Complete.{
  CompletedPart, trim_quotes, trim_left_quotes, complete_multipart_upload, check_parts,
  less_completed,
}
use jario.Store.Multipart.Lists.{abort_stale_uploads}
use jario.Store.Multipart.Steps
use jario.Store.Multipart.Steps.{part_of, with_part}
use jario.Store.Multipart.Completion
use jario.Store.Multipart.Completion.{IsUploaded, joined}
use jario.Store.Multipart.Reaper
use jario.Api
use jario.Api.Http.{
  Request, Platform, CompleteMultipartUploadResult, complete_multipart_upload_result, query_get,
  post, s3xmlns,
}
use jario.Api.Errors.{write_xml}
use jario.Tests.Requests.{platform, request}
use jario.Tests.Data.{constant, photos, cat}
use jario.Tests.Metadata.{filled-Opened, at_two}
use jario.Tests.Engine.{engine, env, hash}

abbrev pub id : Text
id = codes "5-ab"

abbrev part : ℕ → Text → Part
part n content = part_of hash n content env

abbrev pub uploaded : Upload
uploaded = record {
  id = id;
  bucket = photos;
  key = cat;
  initiated = 5;
  parts = (2, part 2 (codes "llo")) ∷ (1, part 1 (codes "he")) ∷ [];
}

abbrev pub uploading : Store (GoMap Text Text)
uploading = record engine {
  files =
      (part_path (codes "data") id 1, codes "he")
      ∷ (part_path (codes "data") id 2, codes "llo")
      ∷ engine.files;
  uploads = (id, uploaded) ∷ [];
}

pub valid : validate_upload uploading photos cat id ≡ ok tt
unfolding validate_upload lookup text_eq
valid = refl

pub found : lookup id uploading.uploads ≡ some uploaded
unfolding lookup text_eq
found = refl

register_part-aborted_example :
    register_part id (part 3 (codes "!")) (abort_multipart_upload photos cat id uploading).1
    ≡ (panic, (abort_multipart_upload photos cat id uploading).1)
register_part-aborted_example =
    Steps.register_part-aborted uploading photos cat id (part 3 (codes "!")) valid

abort_multipart_upload_lem_example :
    ((abort_multipart_upload photos cat id uploading).0 ≡ ok tt)
    × ((b' k' : Text)
        → validate_upload (abort_multipart_upload photos cat id uploading).1 b' k' id
          ≡ err invalid_upload_id)
    × ((other : Text)
        → id ≢ other
        → lookup other (abort_multipart_upload photos cat id uploading).1.uploads
          ≡ lookup other uploading.uploads)
    × ((path : Text)
        → lookup path (abort_multipart_upload photos cat id uploading).1.files ≡ (
            if has_prefix path (multipart_dir (codes "data") id ++ codes "/") && not false
            then none
            else lookup path uploading.files))
abort_multipart_upload_lem_example = Steps.abort_multipart_upload_lem uploading photos cat id valid

abbrev completed_part : ℕ → CompletedPart
completed_part n = record { part_number = n; etag = (b'"' ∷ hash []) ++ (b'"' ∷ []) }

abbrev chosen : List CompletedPart
chosen = completed_part 2 ∷ completed_part 1 ∷ []

abbrev contents : ℕ → Text
contents n = if n == 1 then codes "he" else codes "llo"

abbrev hello : ObjectMeta
hello = object_meta cat 5 (hash []) 9

ready : All (IsUploaded uploading id uploaded contents) chosen
unfolding lookup text_eq part_path multipart_dir format_int trim_quotes trim_left_quotes
ready = (
  (part 2 (codes "llo"), refl, refl, refl, refl),
  ((part 1 (codes "he"), refl, refl, refl, refl), tt),
)

get_object-complete_multipart_upload_example :
    ((complete_multipart_upload
        (constant hello)
        (constant (put_op photos cat []))
        hash
        photos
        cat
        id
        chosen
        env
        uploading).0
      ≡ ok tt)
    × (get_object
          (complete_multipart_upload
            (constant hello)
            (constant (put_op photos cat []))
            hash
            photos
            cat
            id
            chosen
            env
            uploading).1
          photos
          cat
          []
        ≡ ok (
          joined contents (sort less_completed chosen),
          with_version_id hello (versions_at uploading.meta photos cat).next_id,
        ))
    × (validate_upload
          (complete_multipart_upload
            (constant hello)
            (constant (put_op photos cat []))
            hash
            photos
            cat
            id
            chosen
            env
            uploading).1
          photos
          cat
          id
        ≡ err invalid_upload_id)
unfolding sort insert_sorted
get_object-complete_multipart_upload_example =
    Completion.get_object-complete_multipart_upload (constant hello)
      (constant (put_op photos cat [])) hash uploading photos cat id chosen env uploaded contents []
      filled-Opened at_two valid found ready (omega arith) refl refl refl refl (λ s _. refl)

whole_text : joined contents (sort less_completed chosen) ≡ codes "hello"
unfolding sort insert_sorted
whole_text = refl

abort_stale_uploads_lem_example :
    lookup id (abort_stale_uploads 3 9 uploading).1.uploads
    ≡ (if ltb (5 + 3) 9 then none else some uploaded)
unfolding lookup
abort_stale_uploads_lem_example =
    Reaper.abort_stale_uploads_lem 3 9 uploading id uploaded (omega arith) (refl, tt) found

-- Part 7 was never uploaded.
not_uploaded :
    (complete_multipart_upload
      (constant hello)
      (constant (put_op photos cat []))
      hash
      photos
      cat
      id
      (completed_part 7 ∷ [])
      env
      uploading).0
    ≢ ok tt
unfolding complete_multipart_upload check_parts lookup validate_upload text_eq sort insert_sorted
not_uploaded h = absurd (ground (arith, h))

-- The request that completes the upload.
abbrev completing : Platform
completing = record platform { json = constant hello; decode_parts = λ _. ok chosen }

abbrev complete_request : Request
complete_request = record (request post []) { query = (codes "uploadId", id) ∷ [] }

completes :
    (complete_multipart_upload
      (constant hello)
      (constant (put_op photos cat []))
      hash
      photos
      cat
      id
      chosen
      env
      uploading).0
    ≡ ok tt
unfolding sort insert_sorted
completes =
    (Completion.get_object-complete_multipart_upload (constant hello)
      (constant (put_op photos cat [])) hash uploading photos cat id chosen env uploaded contents []
      filled-Opened at_two valid found ready (omega arith) refl refl refl refl (λ s _. refl)).0

abbrev result : CompleteMultipartUploadResult
result = record {
  xmlns = s3xmlns;
  location = codes "://localhost/photos/cat";
  bucket = photos;
  key = cat;
  etag = [];
}

answered :
    (Api.Uploads.complete_multipart_upload completing complete_request photos cat env uploading).0
    ≡ ok (write_xml (complete_multipart_upload_result result))
unfolding Api.Uploads.complete_multipart_upload query_get text_eq
answered = rw completes refl
