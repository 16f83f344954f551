-- ===== src/Api/Frames.antt =====
-- The requests that leave the problems, their languages and their tests as they are.
use online_coding_judge.Prelude.{
  ℕ, ◌∷◌, Bytes, text, Option, none, some, ◌≡◌, refl, sym, subst, arith, Bool-cases, Option-cases,
  inl, inr,
}
use online_coding_judge.Errors.{Reply, ok, err}
use online_coding_judge.RateLimit.{Answer, passed, unavailable, too_many}
use online_coding_judge.Database.Transaction.{Net, Clocks, settle_with, settle_with_cases}
use online_coding_judge.Platform.Tables.{UserRow, SessionRow, Platform}
use online_coding_judge.Database.Table.{insert}
use online_coding_judge.Platform.Submitting.{Submission, submit, create_submission}
use online_coding_judge.Platform.Ownership.{submit-IsSubmitted}
use online_coding_judge.Auth.{Crypto, verify, token}
use online_coding_judge.Api.Responses.{User, Response}
use online_coding_judge.Api.Accounts
use online_coding_judge.Api.Accounts.{
  Mail, Registration, Credentials, register, login, authenticate, logout,
}
use online_coding_judge.Api.Handlers
use online_coding_judge.Api.Handlers.{Draft, Ids, submit_draft, submit_with}
use online_coding_judge.Api.Routes.{limited}

-- The problems of two states of the database are the same.
pub record IsSameCatalogue (t t' : Platform) : Type 0 where
  pub problems : t'.problems ≡ t.problems
  pub problem_languages : t'.problem_languages ≡ t.problem_languages
  pub test_cases : t'.test_cases ≡ t.test_cases

pub same : (t : Platform) → IsSameCatalogue t t
same t = record { problems = refl; problem_languages = refl; test_cases = refl }

-- A transaction whose body keeps the problems keeps them.
settled :
    {A : Type 0} (net : Net) (t : Platform) (r : Reply (A × Platform))
    → ((a : A) (t' : Platform) → r ≡ ok (a, t') → IsSameCatalogue t t')
    → IsSameCatalogue t (settle_with net t r).1
settled net t r keeps = elim (settle_with_cases net t r) [
  | inl e ↦ subst (IsSameCatalogue t) (sym e) (same t)
  | inr (a, t', is, e) ↦ subst (IsSameCatalogue t) (sym e) (keeps a t' is)
]

pub limited_keeps :
    (a : Answer) (t : Platform) (r : Response × Platform)
    → IsSameCatalogue t r.1
    → IsSameCatalogue t (limited a t r).1
limited_keeps passed t r h = h
limited_keeps unavailable t r h = same t
limited_keeps too_many t r h = same t

create_submission_keeps :
    (net : Net) (clocks : Clocks) (n m user id : ℕ) (language source : Bytes) (t : Platform)
    → IsSameCatalogue t (create_submission net clocks n m user id language source t).1
unfolding create_submission
create_submission_keeps net clocks n m user id language source t =
    settled net t (submit net clocks n m user id language source t) (λ sub t' e.
      subst (IsSameCatalogue t)
        (sym (submit-IsSubmitted net clocks n m user id language source t sub t' e).leaves)
        (record { problems = refl; problem_languages = refl; test_cases = refl }))

registration_rows : (r : Reply ℕ × Platform) → (Accounts.registration_reply r).1 ≡ r.1
registration_rows (ok id, t) = refl
registration_rows (err e, t) = refl

session_rows :
    (made : Bytes) (r : Reply (Unit {0}) × Platform) → (Accounts.session_reply made r).1 ≡ r.1
session_rows made (ok x, t) = refl
session_rows made (err e, t) = refl

delete_rows : (r : Reply (Unit {0}) × Platform) → (Accounts.delete_reply r).1 ≡ r.1
delete_rows (ok x, t) = refl
delete_rows (err e, t) = refl

submission_rows : (r : Reply Submission × Platform) → (Handlers.submission_reply r).1 ≡ r.1
submission_rows (ok sub, t) = refl
submission_rows (err e, t) = refl

add_user_keeps :
    (net : Net) (n : ℕ) (username email hash : Bytes) (t : Platform) (id : ℕ) (t' : Platform)
    → Accounts.add_user net n username email hash t ≡ ok (id, t')
    → IsSameCatalogue t t'
unfolding Accounts.add_user
add_user_keeps net n username email hash t id t' e =
    let row : UserRow = record {
      id = n;
      username = username;
      email = email;
      password_hash = hash;
      role = text "user";
    } in
    elim (Option-cases (insert Accounts.user_key row t.users)) [
      | inl taken ↦ absurd (ground (arith, taken, e))
      | inr (users, added) ↦
          let is : record t { users = users } ≡ t' = ground (arith, added, e) in
          subst (IsSameCatalogue t) is
            (record { problems = refl; problem_languages = refl; test_cases = refl })
    ]

register_as_keeps :
    (net : Net) (n : ℕ) (username email : Bytes) (hash : Reply Bytes) (t : Platform)
    → IsSameCatalogue t (Accounts.register_as net n username email hash t).1
register_as_keeps net n username email (err e) t = same t
register_as_keeps net n username email (ok hash) t =
    subst (IsSameCatalogue t) (sym (registration_rows _)) (
      settled net t (Accounts.add_user net n username email hash t)
        (add_user_keeps net n username email hash t))

pub register_keeps :
    (mail : Mail) (crypto : Crypto) (net : Net) (n : ℕ) (v : Option Registration) (t : Platform)
    → IsSameCatalogue t (Accounts.register_with mail crypto net n v t).1
register_keeps mail crypto net n none t = same t
register_keeps mail crypto net n (some v) t =
    let email = mail.to_lower (mail.trim_space v.email) in
    elim (Bool-cases (Accounts.is_acceptable mail email v)) [
      | inl fine ↦ rw fine (register_as_keeps net n v.username email _ t)
      | inr refused ↦ rw refused (same t)
    ]

add_session_keeps :
    (net : Net) (s : SessionRow) (t : Platform) (x : Unit {0}) (t' : Platform)
    → Accounts.add_session net s t ≡ ok (x, t')
    → IsSameCatalogue t t'
unfolding Accounts.add_session
add_session_keeps net s t x t' e =
    let is : record t { sessions = s ∷ t.sessions } ≡ t' = ground (arith, e) in
    subst (IsSameCatalogue t) is
      (record { problems = refl; problem_languages = refl; test_cases = refl })

open_session_keeps :
    (crypto : Crypto) (net : Net) (clocks : Clocks) (user : ℕ) (made : Reply Bytes) (t : Platform)
    → IsSameCatalogue t (Accounts.open_session crypto net clocks user made t).1
open_session_keeps crypto net clocks user (err e) t = same t
open_session_keeps crypto net clocks user (ok made) t =
    subst (IsSameCatalogue t) (sym (session_rows made _))
      (settled net t _ (add_session_keeps net _ t))

login_as_keeps :
    (crypto : Crypto) (net : Net) (clocks : Clocks) (password : Bytes) (r : Reply UserRow)
    (t : Platform)
    → IsSameCatalogue t (Accounts.login_as crypto net clocks password r t).1
login_as_keeps crypto net clocks password (err e) t = same t
login_as_keeps crypto net clocks password (ok r) t =
    elim (Bool-cases (verify crypto r.password_hash password)) [
      | inl good ↦ rw good (open_session_keeps crypto net clocks r.id (token crypto) t)
      | inr bad ↦ rw bad (same t)
    ]

pub login_keeps :
    (mail : Mail) (crypto : Crypto) (net : Net) (clocks : Clocks) (v : Option Credentials)
    (t : Platform)
    → IsSameCatalogue t (Accounts.login_with mail crypto net clocks v t).1
login_keeps mail crypto net clocks none t = same t
login_keeps mail crypto net clocks (some v) t = login_as_keeps crypto net clocks v.password _ t

drop_session_keeps :
    (net : Net) (hash : Bytes) (t : Platform) (x : Unit {0}) (t' : Platform)
    → Accounts.drop_session net hash t ≡ ok (x, t')
    → IsSameCatalogue t t'
unfolding Accounts.drop_session
drop_session_keeps net hash t x t' e =
    let is : Accounts.without_session hash t ≡ t' = ground (arith, e) in
    subst (IsSameCatalogue t) is
      (record { problems = refl; problem_languages = refl; test_cases = refl })

pub logout_keeps :
    (crypto : Crypto) (net : Net) (header : Bytes) (t : Platform)
    → IsSameCatalogue t (logout crypto net header t).1
unfolding logout
logout_keeps crypto net header t =
    subst (IsSameCatalogue t) (sym (delete_rows _)) (settled net t _ (drop_session_keeps net _ t))

pub submit_keeps :
    (net : Net) (clocks : Clocks) (ids : Ids) (user : User) (v : Option Draft) (t : Platform)
    → IsSameCatalogue t (submit_with net clocks ids user v t).1
submit_keeps net clocks ids user none t = same t
submit_keeps net clocks ids user (some v) t = subst (IsSameCatalogue t) (sym (submission_rows _)) (
    create_submission_keeps net clocks ids.row ids.event user.id v.problem_id v.language v.source t)

-- Does the request pass the guards in front of an administrator's route?
