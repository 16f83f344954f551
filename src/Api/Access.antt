-- ===== src/Api/Access.antt =====
-- Only administrators change problems.
use online_coding_judge.Prelude.{Bool, false, Bytes, Option, none, some, ◌≡◌}
use online_coding_judge.Platform.Tables.{Platform}
use online_coding_judge.Api.Responses.{User, decode}
use online_coding_judge.Api.Accounts.{register, login, authenticate}
use online_coding_judge.Api.Handlers.{submit_draft}
use online_coding_judge.Api.Routes.{
  PrivateRoute, me, log_out, own_submissions, own_submission, send, admin, Route, sign_up, sign_in,
  public_problems, public_problem, private, Packages, Meets, is_admin, serve_private, serve_as,
  serve,
}
use online_coding_judge.Api.Frames.{
  IsSameCatalogue, same, limited_keeps, register_keeps, login_keeps, logout_keeps, submit_keeps,
}

abbrev pub is_admin_route : User → PrivateRoute → Bool
is_admin_route user (admin route) = is_admin user
is_admin_route user _ = false

abbrev pub is_admin_as : Option User → PrivateRoute → Bool
is_admin_as none route = false
is_admin_as (some user) route = is_admin_route user route

abbrev pub is_admin_call : Packages → Meets → Route → Platform → Bool
is_admin_call packages meets (private header route) t =
    is_admin_as (authenticate packages.crypto meets.guard_net meets.clocks header t) route
is_admin_call packages meets _ t = false

module _ (packages : Packages) (meets : Meets) where
  private_keeps :
      (header : Bytes) (user : User) (route : PrivateRoute) (t : Platform)
      → is_admin_route user route ≡ false
      → IsSameCatalogue t (serve_private packages meets header user route t).1
  unfolding serve_private submit_draft
  private_keeps header user me t h = same t
  private_keeps header user log_out t h = logout_keeps packages.crypto meets.net header t
  private_keeps header user own_submissions t h = same t
  private_keeps header user (own_submission id) t h = same t
  private_keeps header user (send body) t h =
      limited_keeps meets.limiter t _
        (submit_keeps meets.net meets.clocks meets.ids user (decode packages.draft 400000 body) t)
  private_keeps header user (admin route) t h = rw h (same t)

  as_keeps :
      (header : Bytes) (user : Option User) (route : PrivateRoute) (t : Platform)
      → is_admin_as user route ≡ false
      → IsSameCatalogue t (serve_as packages meets header user route t).1
  as_keeps header none route t h = same t
  as_keeps header (some user) route t h = private_keeps header user route t h

  routed_keeps :
      (route : Route) (t : Platform)
      → is_admin_call packages meets route t ≡ false
      → IsSameCatalogue t (serve packages meets route t).1
  unfolding serve register login
  routed_keeps (sign_up body) t h =
      limited_keeps meets.limiter t _
        (register_keeps packages.mail packages.crypto meets.net meets.ids.row _ t)
  routed_keeps (sign_in body) t h =
      limited_keeps meets.limiter t _
        (login_keeps packages.mail packages.crypto meets.net meets.clocks _ t)
  routed_keeps public_problems t h = same t
  routed_keeps (public_problem id) t h = same t
  routed_keeps (private header route) t h = as_keeps header _ route t h

  -- Whoever sends a request and whatever fails in it, the problems, their languages and their tests
  -- stay as they are, unless the request is an administrator's on an administrator's route.
  pub serve_keeps_problems :
      (route : Route) (t : Platform)
      → is_admin_call packages meets route t ≡ false
      → let t' = (serve packages meets route t).1 in
        (t'.problems ≡ t.problems)
        × (t'.problem_languages ≡ t.problem_languages)
        × (t'.test_cases ≡ t.test_cases)
  serve_keeps_problems route t h =
      let k = routed_keeps route t h in (k.problems, k.problem_languages, k.test_cases)
