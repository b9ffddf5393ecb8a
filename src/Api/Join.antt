-- ===== src/Api/Join.antt =====
-- internal/api/join.go: the operators' endpoint, outside the signatures, and its client. `add_voter`
-- is the Joiner, `http_post` is http.Post.
use jario.Base.{
  ℕ, Bool, false, [], ◌∷◌, ◌++◌, Option, none, some, not, ◌||◌, ◌==◌, take, if◌then◌else◌,
}
use jario.Text.{Text, codes, text_eq, has_prefix}
use jario.Text.Split.{trim_space}
use jario.Outcome.{Outcome, ok, err, panic, other, not_leader, ◌>>=◌, wrap}
use jario.Api.Http.{Request, Response, Platform, JoinPayload, bytes, status_only, post}

-- (id, addr) ↦ the result of AddVoter
abbrev pub Joiner : Type 0
Joiner = Text → Text → Outcome (Unit {0})

-- http.Error
abbrev pub http_error : ℕ → Text → Response
http_error status message = record {
  status = status;
  headers =
      (codes "Content-Type", codes "text/plain; charset=utf-8")
      ∷ (codes "X-Content-Type-Options", codes "nosniff")
      ∷ [];
  body = bytes (message ++ 10 ∷ []);
}

-- What the answer of AddVoter becomes.
unfoldable pub joined : Outcome (Unit {0}) → Outcome Response
joined (ok _) = ok (status_only 200)
joined (err not_leader) = ok (http_error 503 (codes "not leader"))
joined (err _) = ok (http_error 500 (codes "join failed"))
joined panic = panic

unfoldable pub route_internal : Platform → Option Joiner → Request → Outcome Response
route_internal platform joiner r =
    if not (text_eq r.path (codes "/internal/join")) || not (text_eq r.method post)
    then ok (http_error 404 (codes "not found"))
    else elim (platform.decode_join r.body) [
      | err _ ↦ ok (http_error 400 (codes "bad request"))
      | panic ↦ panic
      | ok p ↦
          if text_eq p.id [] || text_eq p.addr []
          then ok (http_error 400 (codes "id and addr are required"))
          else elim joiner [
            | none ↦ ok (http_error 503 (codes "clustering disabled"))
            | some add_voter ↦ joined (add_voter p.id p.addr)
          ]
    ]

-- strings.Contains(s, "://")
unfoldable pub has_scheme : Text → Bool
has_scheme [] = false
has_scheme (c ∷ s) = has_prefix (c ∷ s) (codes "://") || has_scheme s

-- strings.TrimSuffix(s, "/")
unfoldable pub trim_slash : Text → Text
trim_slash [] = []
trim_slash (c ∷ []) = if c == b'/' then [] else c ∷ []
trim_slash (c ∷ d ∷ s) = c ∷ trim_slash (d ∷ s)

-- What http.Post returns: `status` is the line "503 Service Unavailable".
pub record Reply : Type 0 where
  pub status_code : ℕ
  pub status : Text
  pub body : Text

unfoldable pub join_url : Text → Text
unfolding has_scheme trim_slash
join_url leader =
    let base = if has_scheme leader then leader else codes "http://" ++ leader in
    trim_slash base ++ codes "/internal/join"

-- The first 256 bytes of the body of a refusal are in the error.
unfoldable pub request_join :
    (marshal : JoinPayload → Outcome Text) (http_post : (url body : Text) → Outcome Reply)
    (leader id addr : Text)
    → Outcome (Unit {0})
request_join marshal http_post leader id addr = do
  body ← wrap (codes "marshal join request: ") (marshal (record { id = id; addr = addr }))
  reply ← wrap (codes "post join: ") (http_post (join_url leader) body)
  if reply.status_code == 200
      then ok tt
      else err (
          other (
            codes "join rejected: "
            ++ (reply.status ++ (codes " (" ++ (trim_space (take 256 reply.body) ++ codes ")")))))
