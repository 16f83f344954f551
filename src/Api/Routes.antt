-- ===== src/Api/Routes.antt =====
-- The routes of `New` in internal/api/api.go, with the guards in front of their handlers, but for
-- /health, /ready and the event stream, which reads only.
use online_coding_judge.Prelude.{
  ℕ, Bool, not, Bytes, bytes_eq, text, Option, none, some, if◌then◌else◌,
}
use online_coding_judge.RateLimit.{Answer, passed, unavailable, too_many}
use online_coding_judge.Problems.{Problem}
use online_coding_judge.Database.Transaction.{Net, Clocks}
use online_coding_judge.Platform.Tables.{Platform}
use online_coding_judge.Auth.{Crypto}
use online_coding_judge.Api.Responses.{User, profile, Response, answer, fail, Json}
use online_coding_judge.Api.Accounts.{
  Mail, Registration, Credentials, register, login, authenticate, logout,
}
use online_coding_judge.Api.Handlers.{
  Draft, Ids, list_problems, show_problem, submit_draft, show_submission, list_submissions, save,
  inspect_problem, disable_problem,
}

pub data AdminRoute : Type 0 where
  create : Bytes → AdminRoute
  replace : ℕ → Bytes → AdminRoute
  inspect disable : ℕ → AdminRoute

pub data PrivateRoute : Type 0 where
  me log_out own_submissions : PrivateRoute
  send : Bytes → PrivateRoute
  own_submission : ℕ → PrivateRoute
  admin : AdminRoute → PrivateRoute

-- A private route comes with the header Authorization.
pub data Route : Type 0 where
  sign_up sign_in : Bytes → Route
  public_problems : Route
  public_problem : ℕ → Route
  private : Bytes → PrivateRoute → Route

-- The packages that the handlers call.
pub record Packages : Type 0 where
  pub registration : Json Registration
  pub credentials : Json Credentials
  pub draft : Json Draft
  pub problem : Json Problem
  pub mail : Mail
  pub crypto : Crypto

-- What a request meets: the calls of the guard and of the handler, the clocks, the ids that the
-- database generates, and what the limiter of the route answers.
pub record Meets : Type 0 where
  pub guard_net : Net
  pub net : Net
  pub clocks : Clocks
  pub ids : Ids
  pub limiter : Answer

-- `rateLimit` in front of a handler.
abbrev pub limited : Answer → Platform → Response × Platform → Response × Platform
limited passed t handled = handled
limited unavailable t handled = (fail 503, t)
limited too_many t handled = (fail 429, t)

-- The guard of the group /v1/admin.
abbrev pub is_admin : User → Bool
is_admin user = bytes_eq user.role (text "admin")

module _ (packages : Packages) (meets : Meets) where
  unfoldable pub serve_admin : AdminRoute → Platform → Response × Platform
  serve_admin (create body) t = save packages.problem meets.net meets.ids.row none body t
  serve_admin (replace id body) t = save packages.problem meets.net meets.ids.row (some id) body t
  serve_admin (inspect id) t = (inspect_problem meets.net id t, t)
  serve_admin (disable id) t = disable_problem meets.net id t

  unfoldable pub serve_private : Bytes → User → PrivateRoute → Platform → Response × Platform
  serve_private header user me t = (answer 200 (profile user), t)
  serve_private header user log_out t = logout packages.crypto meets.net header t
  serve_private header user own_submissions t = (list_submissions meets.net user t, t)
  serve_private header user (own_submission id) t = (show_submission meets.net user id t, t)
  serve_private header user (send body) t =
      limited meets.limiter t
        (submit_draft packages.draft meets.net meets.clocks meets.ids user body t)
  serve_private header user (admin route) t =
      if not (is_admin user) then (fail 403, t) else serve_admin route t

  abbrev pub serve_as : Bytes → Option User → PrivateRoute → Platform → Response × Platform
  serve_as header none route t = (fail 401, t)
  serve_as header (some user) route t = serve_private header user route t

  unfoldable pub serve : Route → Platform → Response × Platform
  serve (sign_up body) t =
      limited meets.limiter t (
        register packages.registration packages.mail packages.crypto meets.net meets.ids.row body t)
  serve (sign_in body) t =
      limited meets.limiter t
        (login packages.credentials packages.mail packages.crypto meets.net meets.clocks body t)
  serve public_problems t = (list_problems meets.net t, t)
  serve (public_problem id) t = (show_problem meets.net id t, t)
  serve (private header route) t =
      serve_as header (authenticate packages.crypto meets.guard_net meets.clocks header t) route t
