-- ===== src/Api/Access.antt =====
-- internal/api/api.go: which requests can change the store.
use jario.Base.{◌≡◌, refl, ◌⊎◌, inl, inr, true, [], ◌∷◌, some, arith, Bool-cases, Option-cases}
use jario.Text.{Text, codes, text_eq, text_eq_iff, has_prefix, text_eq_inst}
use jario.Outcome.{ok}
use jario.Store.State.{Store, Env}
use jario.Api.Http.{Request, Platform, s3_error_body, get, head}
use jario.Api.Errors.{s3_error, error_status}
use jario.Api.SigV4.{SigV4Auth, parse_sigv4, payload_hash, compute_signature, verify_sigv4}
use jario.Api.Buckets.{handle_bucket}
use jario.Api.Route.{Handler, handle_object, route, serve_http}

-- The method of a request that only reads.
abbrev pub IsRead : Text → Type 0
IsRead m = (m ≡ get) ⊎ (m ≡ head)

module _ (platform : Platform) where
  handle_bucket-read :
      (r : Request) (bucket : Text) (env : Env) (st : Store platform.bolt.Db)
      → IsRead r.method
      → (handle_bucket platform r bucket env st).1 ≡ st
  unfolding handle_bucket text_eq
  handle_bucket-read r bucket env st (inl reads) = rw reads (ground arith)
  handle_bucket-read r bucket env st (inr reads) = rw reads (ground arith)

  handle_object-read :
      (r : Request) (bucket key : Text) (env : Env) (st : Store platform.bolt.Db)
      → IsRead r.method
      → (handle_object platform r bucket key env st).1 ≡ st
  unfolding handle_object text_eq
  handle_object-read r bucket key env st (inl reads) = rw reads (ground arith)
  handle_object-read r bucket key env st (inr reads) = rw reads (ground arith)

  -- No GET and no HEAD request, whatever its path and its parameters, changes the store.
  pub serve_http-read :
      (h : Handler) (r : Request) (env : Env) (st : Store platform.bolt.Db)
      → IsRead r.method
      → (serve_http platform h r env st).1 ≡ st
  unfolding serve_http route
  serve_http-read h r env st reads = grind (arith, handle_bucket-read, handle_object-read)

  -- The request is signed with the keys of the handler: the signature that its Authorization header
  -- states is the one that the secret key gives to the request and the hash of its payload.
  abbrev pub IsAdmitted : Handler → Request → Env → Type 0
  IsAdmitted h r env =
      (auth : SigV4Auth) × (payload : Text) × (parse_sigv4 r ≡ some auth)
      × (auth.access_key ≡ h.access_key)
      × (payload_hash platform.hash r env ≡ some payload)
      × (compute_signature platform h.secret_key auth r payload ≡ auth.signature)

  verify_sigv4-IsAdmitted :
      (h : Handler) (r : Request) (env : Env)
      → verify_sigv4 platform h.access_key h.secret_key r env ≡ true
      → IsAdmitted h r env
  unfolding verify_sigv4
  verify_sigv4-IsAdmitted h r env passes = elim (Option-cases (parse_sigv4 r)) [
    | inl bad ↦ absurd (ground (arith, bad))
    | inr (auth, parsed) ↦ elim (Option-cases (payload_hash platform.hash r env)) [
      | inl unread ↦ absurd (ground (arith, parsed, unread))
      | inr (payload, read) ↦ (
        auth,
        payload,
        parsed,
        ground (arith, parsed, read, text_eq_iff auth.access_key h.access_key),
        read,
        ground (
          arith,
          parsed,
          read,
          text_eq_iff (compute_signature platform h.secret_key auth r payload) auth.signature,
        ),
      )
    ]
  ]

  -- Every request has one of three outcomes. Its path is one of the operators' paths, and the
  -- store is as before. Or its Authorization header parses, names the access key of the handler
  -- and states the signature that the secret key gives to the request and the hash of its payload,
  -- and the request is routed. Or the store is as before and the answer has the status 403, the
  -- type application/xml and the error AccessDenied.
  pub serve_http_guarded :
      (h : Handler) (r : Request) (env : Env) (st : Store platform.bolt.Db)
      → ((has_prefix r.path (codes "/internal/") ≡ true)
          × ((serve_http platform h r env st).1 ≡ st))
        ⊎ ((IsAdmitted h r env × (serve_http platform h r env st ≡ route platform r env st))
            ⊎ (serve_http platform h r env st ≡ (
              ok (record {
                status = 403;
                headers = (codes "Content-Type", codes "application/xml") ∷ [];
                body =
                    s3_error_body
                      (record { code = codes "AccessDenied"; message = codes "access denied" });
              }),
              st,
            )))
  unfolding serve_http s3_error error_status text_eq
  serve_http_guarded h r env st = elim (Bool-cases (has_prefix r.path (codes "/internal/"))) [
    | inl internal ↦ inl (internal, ground (arith, internal))
    | inr public ↦ elim (Bool-cases (verify_sigv4 platform h.access_key h.secret_key r env)) [
      | inl passes ↦
          inr (inl (verify_sigv4-IsAdmitted h r env passes, rw (public, passes, serve_http) refl))
      | inr fails ↦ inr (inr (rw (public, fails, serve_http) refl))
    ]
  ]
