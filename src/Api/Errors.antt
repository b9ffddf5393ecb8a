-- ===== src/Api/Errors.antt =====
-- internal/api/xml.go: XML responses, and errors as responses.
use jario.Base.{ℕ, ◌||◌, [], ◌∷◌, if◌then◌else◌}
use jario.Text.{Text, codes, text_eq}
use jario.Outcome.{
  Error, Outcome, ok, err, panic, bucket_exists, no_bucket, no_key, invalid_upload_id, message,
}
use jario.Api.Http.{Body, Response, s3_error_body}

abbrev content_type : Text × Text
content_type = (codes "Content-Type", codes "application/xml")

abbrev pub write_xml : Body → Response
write_xml body = record { status = 200; headers = content_type ∷ []; body = body }

unfoldable pub error_status : Text → ℕ
error_status code =
    if text_eq code (codes "BucketAlreadyExists")
    then 409
    else if text_eq code (codes "NoSuchBucket")
        || (text_eq code (codes "NoSuchKey") || text_eq code (codes "InvalidUploadID"))
    then 404
    else if text_eq code (codes "AccessDenied")
    then 403
    else 400

unfoldable pub s3_error : (code msg : Text) → Response
unfolding error_status
s3_error code msg = record {
  status = error_status code;
  headers = content_type ∷ [];
  body = s3_error_body (record { code = code; message = msg });
}

-- A wrapped error is none of the four: the code wraps I/O errors only.
abbrev pub error_code : Error → Text
error_code bucket_exists = codes "BucketAlreadyExists"
error_code no_bucket = codes "NoSuchBucket"
error_code no_key = codes "NoSuchKey"
error_code invalid_upload_id = codes "InvalidUploadID"
error_code _ = codes "InternalError"

unfoldable pub store_error : Error → Response
unfolding s3_error
store_error e = s3_error (error_code e) (message e)

-- if err != nil { h.storeError(w, err); return }
abbrev pub respond : {A : Type 0} → Outcome A → (A → Response) → Outcome Response
respond (ok a) f = ok (f a)
respond (err e) f = ok (store_error e)
respond panic f = panic
