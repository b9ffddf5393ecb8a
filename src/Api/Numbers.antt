-- ===== src/Api/Numbers.antt =====
-- internal/api/api.go and internal/store/multipart.go: the numbers of the parts that requests register.
use jario.Base.{
  ◌&&◌, ℕ, ◌≡◌, refl, ◌++◌, sym, subst, ◌⊎◌, inl, inr, List, [], ◌∷◌, some, arith, Bool-cases,
  Option-cases, nat_eq,
}
use jario.Text.{Text, codes, text_eq, has_prefix, text_eq_inst}
use jario.Text.Atoi.{atoi, in_range}
use jario.Text.Split.{cut, trim_prefix}
use jario.Text.Decimal.{format_int}
use jario.Outcome.{Outcome-cases}
use jario.GoMap.{lookup, insert}
use jario.Store.State.{Store, Env, Upload}
use jario.Store.Objects.{create_bucket, delete_bucket, get_bucket}
use jario.Store.Multipart.Uploads
use jario.Store.Multipart.Uploads.{
  validate_upload, write_part, register_part, cleanup_upload, abort_multipart_upload,
  new_multipart_upload,
}
use jario.Store.Multipart.Complete
use jario.Store.Multipart.Complete.{CompletedPart}
use jario.Store.Multipart.Steps.{part_of, with_part, validate_upload-ok}
use jario.Store.Multipart.Kept.{
  put_object-KeepsParts, delete_object-KeepsParts, complete_multipart_upload-KeepsParts,
}
use jario.Api.Http.{Request, Platform, query_get, get}
use jario.Api.Bounds.{in_range-within}
use jario.Api.Buckets.{handle_bucket}
use jario.Api.Objects.{put_object, delete_object}
use jario.Api.Uploads.{
  part_number, upload_id, create_multipart_upload, upload_part, complete_multipart_upload,
  abort_multipart_upload_handler,
}
use jario.Api.SigV4.{verify_sigv4}
use jario.Api.Route.{Handler, handle_object, route, serve_http}
use jario.Store.Multipart.Numbers.{
  Numbered, AreNumbered, delete-Numbered, insert-Numbered, with_part-Numbered,
}

module _ (platform : Platform) (env : Env) (st : Store platform.bolt.Db) (h : AreNumbered st) where
  -- A part is registered under the number that the request has, or the uploads stay.
  stored_part-cases :
      (b k id : Text) (n : ℕ) (body : Text)
      → ((Uploads.upload_part platform.hash b k id n body env st).1.uploads ≡ st.uploads)
        ⊎ ((u : Upload) × (lookup id st.uploads ≡ some u)
            × ((Uploads.upload_part platform.hash b k id n body env st).1.uploads
                ≡ insert id (with_part u (part_of platform.hash n body env)) st.uploads))
  unfolding Uploads.upload_part write_part register_part
  stored_part-cases b k id n body = elim (Outcome-cases (validate_upload st b k id)) [
    | inr (inl (e, refused)) ↦ inl (ground (arith, refused))
    | inr (inr refused) ↦ inl (ground (arith, refused))
    | inl (_, valid) ↦
        let (u, found, _, _) = validate_upload-ok st b k id valid in
        elim (Option-cases env.read_error) [
          | inr (problem, unread) ↦ inl (ground (arith, valid, unread))
          | inl read ↦ elim (Option-cases env.mkdir_error) [
            | inr (problem, failed) ↦ inl (ground (arith, valid, read, failed))
            | inl made ↦ elim (Option-cases env.write_error) [
              | inr (problem, failed) ↦ inl (ground (arith, valid, read, made, failed))
              | inl wrote ↦ inr (u, found, ground (arith, valid, read, made, wrote, found))
            ]
          ]
        ]
  ]

  upload_part-AreNumbered :
      (r : Request) (b k : Text) → AreNumbered (upload_part platform r b k env st).1
  unfolding upload_part part_number
  upload_part-AreNumbered r b k =
      elim (Option-cases (atoi (query_get (codes "partNumber") r.query))) [
        | inl bad ↦ rw (bad, upload_part, part_number) h
        | inr (z, parsed) ↦ elim (Option-cases (in_range 1 10000 z)) [
          | inl outside ↦ rw (parsed, outside, upload_part, part_number) h
          | inr (n, inside) ↦
              let (low, high) = in_range-within 1 10000 n z inside in
              rw (parsed, inside, upload_part, part_number)
                (elim (stored_part-cases b k (upload_id r) n r.body) [
                  | inl same ↦ subst Numbered (sym same) h
                  | inr (u, found, ends) ↦ subst Numbered (sym ends) (
                      with_part-Numbered (upload_id r) (part_of platform.hash n r.body env) u
                        st.uploads low high found h)
                ])
        ]
      ]

  cleaned-Numbered :
      (i : Text) (st' : Store platform.bolt.Db)
      → Numbered st'.uploads
      → Numbered (cleanup_upload i st').uploads
  unfolding cleanup_upload
  cleaned-Numbered i st' k = delete-Numbered i st'.uploads k

  completed-Numbered :
      (b k i : Text) (parts : List CompletedPart)
      → Numbered
          (Complete.complete_multipart_upload platform.json platform.op_json platform.hash b k i
            parts env st).1.uploads
  completed-Numbered b k i parts =
      let (st', (dir, uploads, files), ends) =
        complete_multipart_upload-KeepsParts platform.json platform.op_json platform.hash b k i
          parts env st in
      let kept = subst Numbered (sym uploads) h in
      elim ends [
        | inl same ↦ subst (λ s. Numbered s.uploads) (sym same) kept
        | inr cleaned ↦ subst (λ s. Numbered s.uploads) (sym cleaned) (cleaned-Numbered i st' kept)
      ]

  complete_multipart_upload-AreNumbered :
      (r : Request) (b k : Text) → AreNumbered (complete_multipart_upload platform r b k env st).1
  unfolding complete_multipart_upload
  complete_multipart_upload-AreNumbered r b k =
      elim (Outcome-cases (platform.decode_parts r.body)) [
        | inr (inl (e, bad)) ↦ rw (bad, complete_multipart_upload) h
        | inr (inr bad) ↦ rw (bad, complete_multipart_upload) h
        | inl ([], decoded) ↦ rw (decoded, complete_multipart_upload) h
        | inl (p ∷ parts, decoded) ↦
            rw (decoded, complete_multipart_upload)
              (completed-Numbered b k (upload_id r) (p ∷ parts))
      ]

  abort_multipart_upload-AreNumbered :
      (r : Request) (b k : Text) → AreNumbered (abort_multipart_upload_handler platform r b k st).1
  unfolding abort_multipart_upload_handler abort_multipart_upload
  abort_multipart_upload-AreNumbered r b k =
      elim (Outcome-cases (validate_upload st b k (upload_id r))) [
        | inl (_, valid) ↦
            rw (valid, abort_multipart_upload_handler, abort_multipart_upload)
              (cleaned-Numbered (upload_id r) st h)
        | inr (inl (e, refused)) ↦
            rw (refused, abort_multipart_upload_handler, abort_multipart_upload) h
        | inr (inr refused) ↦ rw (refused, abort_multipart_upload_handler, abort_multipart_upload) h
      ]

  create_multipart_upload-AreNumbered :
      (b k : Text) → AreNumbered (create_multipart_upload platform b k env st).1
  unfolding create_multipart_upload new_multipart_upload
  create_multipart_upload-AreNumbered b k =
      elim (Outcome-cases (get_bucket platform.bolt platform.bucket_json st b)) [
        | inl (bucket, there) ↦
            rw (there, create_multipart_upload, new_multipart_upload)
              (insert-Numbered (format_int (Uploads.unix_nano env.now) ++ (codes "-" ++ env.random))
                (record {
                  id = format_int (Uploads.unix_nano env.now) ++ (codes "-" ++ env.random);
                  bucket = b;
                  key = k;
                  initiated = env.now;
                  parts = [];
                })
                st.uploads refl h)
        | inr (inl (e, missing)) ↦ rw (missing, create_multipart_upload, new_multipart_upload) h
        | inr (inr missing) ↦ rw (missing, create_multipart_upload, new_multipart_upload) h
      ]

  put_object-AreNumbered :
      (r : Request) (b k : Text) → AreNumbered (put_object platform r b k env st).1
  unfolding put_object
  put_object-AreNumbered r b k =
      subst Numbered
        (sym
          (put_object-KeepsParts st platform.json platform.op_json platform.hash b k r.body env).1)
        h

  delete_object-AreNumbered :
      (r : Request) (b k : Text) → AreNumbered (delete_object platform r b k env st).1
  unfolding delete_object
  delete_object-AreNumbered r b k =
      subst Numbered
        (sym
          (delete_object-KeepsParts platform.json platform.op_json b k
            (query_get (codes "versionId") r.query) env st).1)
        h

  handle_bucket-uploads :
      (r : Request) (b : Text) → (handle_bucket platform r b env st).1.uploads ≡ st.uploads
  unfolding handle_bucket create_bucket delete_bucket
  handle_bucket-uploads r b = ground arith

  -- Which handler changes the store.
  handle_object-cases :
      (r : Request) (b k : Text) (st' : Store platform.bolt.Db)
      → (handle_object platform r b k env st).1 ≡ st'
      → (st ≡ st')
        ⊎ (((create_multipart_upload platform b k env st).1 ≡ st')
            ⊎ (((upload_part platform r b k env st).1 ≡ st')
                ⊎ (((complete_multipart_upload platform r b k env st).1 ≡ st')
                    ⊎ (((abort_multipart_upload_handler platform r b k st).1 ≡ st')
                        ⊎ (((put_object platform r b k env st).1 ≡ st')
                            ⊎ ((delete_object platform r b k env st).1 ≡ st'))))))
  unfolding handle_object
  handle_object-cases r b k st' ends = ground arith

  handle_object-AreNumbered :
      (r : Request) (b k : Text) → AreNumbered (handle_object platform r b k env st).1
  handle_object-AreNumbered r b k =
      elim (handle_object-cases r b k (handle_object platform r b k env st).1 refl) [
        | inl same ↦ subst AreNumbered same h
        | inr (inl same) ↦ subst AreNumbered same (create_multipart_upload-AreNumbered b k)
        | inr (inr (inl same)) ↦ subst AreNumbered same (upload_part-AreNumbered r b k)
        | inr (inr (inr (inl same))) ↦
            subst AreNumbered same (complete_multipart_upload-AreNumbered r b k)
        | inr (inr (inr (inr (inl same)))) ↦
            subst AreNumbered same (abort_multipart_upload-AreNumbered r b k)
        | inr (inr (inr (inr (inr (inl same))))) ↦
            subst AreNumbered same (put_object-AreNumbered r b k)
        | inr (inr (inr (inr (inr (inr same))))) ↦
            subst AreNumbered same (delete_object-AreNumbered r b k)
      ]

  route-AreNumbered : (r : Request) → AreNumbered (route platform r env st).1
  unfolding route
  route-AreNumbered r =
      let path = trim_prefix r.path (codes "/") in
      elim (Bool-cases (text_eq path [] && text_eq r.method get)) [
        | inl all ↦ rw (all, route) h
        | inr some_bucket ↦ elim (Option-cases (cut b'/' path)) [
          | inl whole ↦
              rw (some_bucket, whole, route) (subst Numbered (sym (handle_bucket-uploads r path)) h)
          | inr ((b, k), split) ↦ rw (some_bucket, split, route) (handle_object-AreNumbered r b k)
        ]
      ]

-- If every registered part of every upload stands under its own number, from 1 to 10000, then so
-- it does after any request, whatever its path, its method and its parameters, whether it is
-- admitted or refused, and whether it succeeds or fails.
pub serve_http-AreNumbered :
    (platform : Platform) (handler : Handler) (r : Request) (env : Env)
    (st : Store platform.bolt.Db)
    → AreNumbered st
    → AreNumbered (serve_http platform handler r env st).1
unfolding serve_http
serve_http-AreNumbered platform handler r env st h =
    elim (Bool-cases (has_prefix r.path (codes "/internal/"))) [
      | inl internal ↦ rw (internal, serve_http) h
      | inr public ↦
          elim (Bool-cases (verify_sigv4 platform handler.access_key handler.secret_key r env)) [
            | inl passes ↦ rw (public, passes, serve_http) (route-AreNumbered platform env st h r)
            | inr fails ↦ rw (public, fails, serve_http) h
          ]
    ]
