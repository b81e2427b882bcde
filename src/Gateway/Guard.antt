-- ===== src/Gateway/Guard.antt =====
-- Who gets past authMiddleware of internal/gateway/gateway.go, and which commands the handlers admit.
use agent_ssh.Base.{◌≡◌, ◌⊎◌, inl, inr, refl, true, some, ◌++◌, Bool-cases}
use agent_ssh.Base.Text.{Text, has_prefix, trim_prefix, has_prefix-split}
use agent_ssh.Auth.Model.{Io, TokenManager, verify_token}
use agent_ssh.Auth.Rotation.{content_of}
use agent_ssh.Auth.Verify.{verify_token-Verifies}
use agent_ssh.Gateway.Types.{unauthorized, nothing, Response, Server}
use agent_ssh.Gateway.Handlers.{respond, bearer, pass_on, auth_middleware}

-- The token t is the one in memory, or the one in a file that can be read.
abbrev pub Accepted : Io → Text → TokenManager → Type 0
Accepted io t tm = (t ≡ tm.token) ⊎ ((io.read ≡ true) × (content_of tm.file ≡ some t))

-- What stands behind authMiddleware runs, on the state in which VerifyToken leaves the token
-- manager, only if the header is "Bearer " and a token that is accepted. Otherwise the answer is
-- 401 and the server is as before.
pub auth_middleware_lem :
    (io : Io) (header : Text) (next : Server → Server × Response) (s : Server)
    → ((t : Text) × (header ≡ bearer ++ t)
        × Accepted io t s.auth
        × (auth_middleware io header next s
            ≡ next (record s { auth = (verify_token io t s.auth).0 })))
      ⊎ (auth_middleware io header next s ≡ (s, respond 401 unauthorized nothing))
unfolding auth_middleware pass_on
auth_middleware_lem io header next s = elim (Bool-cases (has_prefix header bearer)) [
  | inr h ↦ inr (rw (auth_middleware, h) refl)
  | inl h ↦ elim (Bool-cases (verify_token io (trim_prefix header bearer) s.auth).1) [
    | inl a ↦
        let v = verify_token-Verifies io (trim_prefix header bearer) s.auth in
        inl (
          trim_prefix header bearer,
          has_prefix-split header bearer h,
          v.exactly.0 a,
          rw (auth_middleware, h, pass_on, a) refl,
        )
    | inr a ↦
        let v = verify_token-Verifies io (trim_prefix header bearer) s.auth in
        inr (rw (auth_middleware, h, pass_on, a, v.refused a) refl)
  ]
]
