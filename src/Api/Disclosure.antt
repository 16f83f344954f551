-- ===== src/Api/Disclosure.antt =====
-- Hidden tests are shown to administrators only.
use online_coding_judge.Prelude.{
  ℕ, false, List, [], ◌∷◌, Bytes, bytes_eq, text, Option, none, some, ◌≡◌, All, Bool-cases, inl,
  inr,
}
use online_coding_judge.Errors.{Error, Reply, ok, err, unique_violation}
use online_coding_judge.RateLimit.{Answer, passed, unavailable, too_many}
use online_coding_judge.Problems.{Problem, TestCase}
use online_coding_judge.Problems.Visibility.{public_lem}
use online_coding_judge.Database.Transaction.{Net, Clocks}
use online_coding_judge.Platform.Tables.{UserRow, Platform}
use online_coding_judge.Platform.Submitting.{Submission}
use online_coding_judge.Auth.{Crypto, hash_password, verify, token}
use online_coding_judge.Api.Responses.{User, Body, problem, Response, db_fail, decode}
use online_coding_judge.Api.Accounts
use online_coding_judge.Api.Accounts.{
  Mail, Registration, Credentials, register, login, authenticate, logout,
}
use online_coding_judge.Api.Handlers
use online_coding_judge.Api.Handlers.{
  Draft, Ids, list_problems, show_problem, show_published, show_submission, list_submissions,
  submit_draft, submit_with,
}
use online_coding_judge.Api.Routes.{
  PrivateRoute, me, log_out, own_submissions, own_submission, send, admin, Route, sign_up, sign_in,
  public_problems, public_problem, private, Packages, Meets, limited, serve_private, serve_as,
  serve,
}
use online_coding_judge.Api.Access.{is_admin_route, is_admin_as, is_admin_call}

-- No test in the body is hidden.
abbrev pub IsPublic : Body → Type 0
IsPublic (problem p) = All (λ (c : TestCase). c.hidden ≡ false) p.tests
IsPublic _ = Unit

db_fail-IsPublic : (e : Error) → IsPublic (db_fail e).body
unfolding db_fail
db_fail-IsPublic unique_violation = tt
db_fail-IsPublic _ = tt

show_published-IsPublic : (r : Reply Problem) → IsPublic (show_published r).body
show_published-IsPublic (err e) = tt
show_published-IsPublic (ok p) = elim (Bool-cases (bytes_eq p.status (text "published"))) [
  | inl shown ↦ rw shown (public_lem p).1
  | inr kept ↦ rw kept tt
]

registration-IsPublic : (r : Reply ℕ × Platform) → IsPublic (Accounts.registration_reply r).0.body
registration-IsPublic (ok id, t) = tt
registration-IsPublic (err e, t) = db_fail-IsPublic e

session-IsPublic :
    (made : Bytes) (r : Reply (Unit {0}) × Platform)
    → IsPublic (Accounts.session_reply made r).0.body
session-IsPublic made (ok x, t) = tt
session-IsPublic made (err e, t) = tt

delete-IsPublic : (r : Reply (Unit {0}) × Platform) → IsPublic (Accounts.delete_reply r).0.body
delete-IsPublic (ok x, t) = tt
delete-IsPublic (err e, t) = tt

submission-IsPublic :
    (r : Reply Submission × Platform) → IsPublic (Handlers.submission_reply r).0.body
submission-IsPublic (ok sub, t) = tt
submission-IsPublic (err e, t) = tt

show_first-IsPublic : (r : Reply (List Submission)) → IsPublic (Handlers.show_first r).body
show_first-IsPublic (err e) = tt
show_first-IsPublic (ok []) = tt
show_first-IsPublic (ok (sub ∷ subs)) = tt

show_all-IsPublic : (r : Reply (List Submission)) → IsPublic (Handlers.show_all r).body
show_all-IsPublic (err e) = tt
show_all-IsPublic (ok subs) = tt

limited-IsPublic :
    (a : Answer) (t : Platform) (r : Response × Platform)
    → IsPublic r.0.body
    → IsPublic (limited a t r).0.body
limited-IsPublic passed t r h = h
limited-IsPublic unavailable t r h = tt
limited-IsPublic too_many t r h = tt

register-IsPublic :
    (mail : Mail) (crypto : Crypto) (net : Net) (n : ℕ) (v : Option Registration) (t : Platform)
    → IsPublic (Accounts.register_with mail crypto net n v t).0.body
register-IsPublic mail crypto net n none t = tt
register-IsPublic mail crypto net n (some v) t =
    let email = mail.to_lower (mail.trim_space v.email) in
    elim (Bool-cases (Accounts.is_acceptable mail email v)) [
      | inl fine ↦ rw fine (from_hash (hash_password crypto v.password) email v.username)
      | inr refused ↦ rw refused tt
    ]
  where
    from_hash :
        (r : Reply Bytes) (email username : Bytes)
        → IsPublic (Accounts.register_as net n username email r t).0.body
    from_hash (err e) email username = tt
    from_hash (ok hash) email username = registration-IsPublic _

open_session-IsPublic :
    (crypto : Crypto) (net : Net) (clocks : Clocks) (user : ℕ) (made : Reply Bytes) (t : Platform)
    → IsPublic (Accounts.open_session crypto net clocks user made t).0.body
open_session-IsPublic crypto net clocks user (err e) t = tt
open_session-IsPublic crypto net clocks user (ok made) t = session-IsPublic made _

login_as-IsPublic :
    (crypto : Crypto) (net : Net) (clocks : Clocks) (password : Bytes) (r : Reply UserRow)
    (t : Platform)
    → IsPublic (Accounts.login_as crypto net clocks password r t).0.body
login_as-IsPublic crypto net clocks password (err e) t = tt
login_as-IsPublic crypto net clocks password (ok r) t =
    elim (Bool-cases (verify crypto r.password_hash password)) [
      | inl good ↦ rw good (open_session-IsPublic crypto net clocks r.id (token crypto) t)
      | inr bad ↦ rw bad tt
    ]

login-IsPublic :
    (mail : Mail) (crypto : Crypto) (net : Net) (clocks : Clocks) (v : Option Credentials)
    (t : Platform)
    → IsPublic (Accounts.login_with mail crypto net clocks v t).0.body
login-IsPublic mail crypto net clocks none t = tt
login-IsPublic mail crypto net clocks (some v) t =
    login_as-IsPublic crypto net clocks v.password _ t

submit-IsPublic :
    (net : Net) (clocks : Clocks) (ids : Ids) (user : User) (v : Option Draft) (t : Platform)
    → IsPublic (submit_with net clocks ids user v t).0.body
submit-IsPublic net clocks ids user none t = tt
submit-IsPublic net clocks ids user (some v) t = submission-IsPublic _

list-IsPublic : (net : Net) (t : Platform) → IsPublic (list_problems net t).body
unfolding list_problems
list-IsPublic net t = elim (Bool-cases (net.call 0)) [
  | inl answered ↦ rw answered tt
  | inr lost ↦ rw lost tt
]

module _ (packages : Packages) (meets : Meets) where
  private-IsPublic :
      (header : Bytes) (user : User) (route : PrivateRoute) (t : Platform)
      → is_admin_route user route ≡ false
      → IsPublic (serve_private packages meets header user route t).0.body
  unfolding serve_private submit_draft logout show_submission list_submissions
  private-IsPublic header user me t h = tt
  private-IsPublic header user log_out t h = delete-IsPublic _
  private-IsPublic header user own_submissions t h = show_all-IsPublic _
  private-IsPublic header user (own_submission id) t h = show_first-IsPublic _
  private-IsPublic header user (send body) t h =
      limited-IsPublic meets.limiter t _ (
        submit-IsPublic meets.net meets.clocks meets.ids user (decode packages.draft 400000 body) t)
  private-IsPublic header user (admin route) t h = rw h tt

  as-IsPublic :
      (header : Bytes) (user : Option User) (route : PrivateRoute) (t : Platform)
      → is_admin_as user route ≡ false
      → IsPublic (serve_as packages meets header user route t).0.body
  as-IsPublic header none route t h = tt
  as-IsPublic header (some user) route t h = private-IsPublic header user route t h

  -- No answer shows a hidden test, unless the request is an administrator's on an administrator's
  -- route.
  pub serve-IsPublic :
      (route : Route) (t : Platform)
      → is_admin_call packages meets route t ≡ false
      → IsPublic (serve packages meets route t).0.body
  unfolding serve register login show_problem
  serve-IsPublic (sign_up body) t h =
      limited-IsPublic meets.limiter t _
        (register-IsPublic packages.mail packages.crypto meets.net meets.ids.row _ t)
  serve-IsPublic (sign_in body) t h =
      limited-IsPublic meets.limiter t _
        (login-IsPublic packages.mail packages.crypto meets.net meets.clocks _ t)
  serve-IsPublic public_problems t h = list-IsPublic meets.net t
  serve-IsPublic (public_problem id) t h = show_published-IsPublic _
  serve-IsPublic (private header route) t h = as-IsPublic header _ route t h
