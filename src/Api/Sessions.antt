-- ===== src/Api/Sessions.antt =====
-- A token opens the private routes for its user after a login.
use online_coding_judge.Prelude.{
  ℕ, ◌+◌, ◌*◌, ◌<◌, Bool, true, false, List, [], ◌∷◌, ◌++◌, Bytes, text, some, length, ◌==◌, ◌≡◌,
  refl, sym, ◌∙◌, ap, subst, All, arith, Bool-cases, Option-cases, inl, inr, ==-refl, bytes_eq_refl,
}
use online_coding_judge.Errors.{Reply, ok, err}
use online_coding_judge.Judge.Docker.Strings.{has_prefix}
use online_coding_judge.Judge.Docker.Container.{hex}
use online_coding_judge.Database.Table.{select, select_taken}
use online_coding_judge.Database.Transaction.{Net, Clocks, settle_with, settle_with_ok}
use online_coding_judge.Platform.Tables.{UserRow, SessionRow, Platform}
use online_coding_judge.Auth.{Crypto, verify, token, digest}
use online_coding_judge.Api.Responses.{session, answer, Json, decode}
use online_coding_judge.Api.Accounts.{
  Mail, Credentials, first, has_email, find_account, day, new_session, add_session, session_reply,
  open_session, login_as, login_with, login, bearer, user_of, is_open_session, owner_of,
  option_user, authenticate,
}

length-hex : (bs : Bytes) → length (hex bs) ≡ 2 * length bs
unfolding hex
length-hex [] = refl
length-hex (b ∷ bs) = omega (arith, length-hex bs)

bearer_lem : (made : Bytes) → bearer (text "Bearer " ++ made) ≡ made
unfolding has_prefix
bearer_lem made = refl

-- No two users have one id: the primary key.
abbrev pub IsKeyed : List UserRow → Type 0
IsKeyed [] = Unit
IsKeyed (r ∷ rows) = (All (λ (x : UserRow). (r.id == x.id) ≡ false) rows) × IsKeyed rows

first_holds :
    (Q : UserRow → Type 0) (p : UserRow → Bool) (r : UserRow) (rows : List UserRow)
    → All Q rows
    → first (select p rows) ≡ some r
    → Q r
unfolding select first
first_holds Q p r [] h e = absurd (ground (arith, e))
first_holds Q p r (x ∷ rows) (h, hs) e = elim (Bool-cases (p x)) [
  | inl here ↦ let is : x ≡ r = ground (arith, here, e) in subst Q is h
  | inr other ↦ first_holds Q p r rows hs (ground (arith, other, e))
]

-- A user that is found in some way is found by the id.
first_by_id :
    (p : UserRow → Bool) (r : UserRow) (rows : List UserRow)
    → IsKeyed rows
    → first (select p rows) ≡ some r
    → first (select (λ (x : UserRow). x.id == r.id) rows) ≡ some r
unfolding select first
first_by_id p r [] h e = absurd (ground (arith, e))
first_by_id p r (x ∷ rows) (h, hs) e = elim (Bool-cases (p x)) [
  | inl here ↦ ground (arith, here, e, ==-refl r.id)
  | inr other ↦
      let later : first (select p rows) ≡ some r = ground (arith, other, e) in
      ground (
        arith,
        first_holds (λ y. (x.id == y.id) ≡ false) p r rows h later,
        first_by_id p r rows hs later,
      )
]

module _ (crypto : Crypto) where
  -- What a login that succeeds has done.
  pub record IsLoggedIn (net : Net) (clocks : Clocks) (v : Credentials) (email : Bytes)
      (made : Bytes) (t t' : Platform) : Type 0 where
    pub row : UserRow
    pub found : first (select (has_email email) t.users) ≡ some row
    pub verified : verify crypto row.password_hash v.password ≡ true
    pub made_as : token crypto ≡ ok made
    pub users : t'.users ≡ t.users
    pub sessions : t'.sessions ≡ new_session crypto clocks row.id made ∷ t.sessions

  session_ok :
      (made made' : Bytes) (n : ℕ) (r : Reply (Unit {0}) × Platform) (t' : Platform)
      → session_reply made' r ≡ (answer 200 (session made n), t')
      → (made' ≡ made) × ((x : Unit {0}) × (r.0 ≡ ok x)) × (r.1 ≡ t')
  session_ok made made' n (ok x, t) t' e = (ground (arith, e), (x, refl), ground (arith, e))
  session_ok made made' n (err x, t) t' e = absurd (ground (arith, e))

  opened_rows :
      (net : Net) (s : SessionRow) (t t' : Platform) (x : Unit {0})
      → add_session net s t ≡ ok (x, t')
      → (t'.users ≡ t.users) × (t'.sessions ≡ s ∷ t.sessions)
  unfolding add_session
  opened_rows net s t t' x e =
      let is : record t { sessions = s ∷ t.sessions } ≡ t' = ground (arith, e) in
      subst (λ y. (y.users ≡ t.users) × (y.sessions ≡ s ∷ t.sessions)) is (refl, refl)

  open_session_ok :
      (net : Net) (clocks : Clocks) (user : ℕ) (reply : Reply Bytes) (made : Bytes) (n : ℕ)
      (t t' : Platform)
      → open_session crypto net clocks user reply t ≡ (answer 200 (session made n), t')
      → (reply ≡ ok made)
        × (t'.users ≡ t.users)
        × (t'.sessions ≡ new_session crypto clocks user made ∷ t.sessions)
  open_session_ok net clocks user (err e) made n t t' h = absurd (ground (arith, h))
  open_session_ok net clocks user (ok made') made n t t' h =
      let s = new_session crypto clocks user made' in
      let (is, (x, gives), leaves) =
        session_ok made made' n (settle_with net t (add_session net s t)) t' h in
      let (t1, done, at) = settle_with_ok net t (add_session net s t) x gives in
      let (kept, added) = opened_rows net s t t1 x done in
      let same : t1 ≡ t' = sym at ∙ leaves in
      (
        ap ok is,
        ap (λ y. y.users) (sym same) ∙ kept,
        ap (λ y. y.sessions) (sym same)
            ∙ added
            ∙ ap (λ y. new_session crypto clocks user y ∷ t.sessions) is,
      )

  found_account :
      (net : Net) (email : Bytes) (t : Platform) (r : UserRow)
      → find_account net email t ≡ ok r
      → first (select (has_email email) t.users) ≡ some r
  unfolding find_account
  found_account net email t r h = elim (Option-cases (first (select (has_email email) t.users))) [
    | inl missing ↦ absurd (ground (arith, missing, h))
    | inr (x, e) ↦ e ∙ ground (arith, e, h)
  ]

  login_as-IsLoggedIn :
      (net : Net) (clocks : Clocks) (v : Credentials) (email made : Bytes) (n : ℕ) (t t' : Platform)
      (reply : Reply UserRow)
      → find_account net email t ≡ reply
      → login_as crypto net clocks v.password reply t ≡ (answer 200 (session made n), t')
      → IsLoggedIn net clocks v email made t t'
  login_as-IsLoggedIn net clocks v email made n t t' (err e) found h = absurd (ground (arith, h))
  login_as-IsLoggedIn net clocks v email made n t t' (ok r) found h =
      elim (Bool-cases (verify crypto r.password_hash v.password)) [
        | inr bad ↦ absurd (ground (arith, bad, h))
        | inl good ↦
            let opens : open_session crypto net clocks r.id (token crypto) t
                ≡ (answer 200 (session made n), t') =
              ground (arith, good, h) in
            let (made_as, users, sessions) =
              open_session_ok net clocks r.id (token crypto) made n t t' opens in
            record {
              row = r;
              found = found_account net email t r found;
              verified = good;
              made_as = made_as;
              users = users;
              sessions = sessions;
            }
      ]

  length-token :
      (made : Bytes)
      → ((bs : Bytes) → crypto.random 32 ≡ some bs → length bs ≡ 32)
      → token crypto ≡ ok made
      → length made ≡ 64
  unfolding token
  length-token made random h = elim (Option-cases (crypto.random 32)) [
    | inl dry ↦ absurd (ground (arith, dry, h))
    | inr (bs, e) ↦ ground (arith, e, h, length-hex bs, random bs e)
  ]

  -- The newest session with a hash is the one that the guard finds.
  guard_passes :
      (net : Net) (clocks clocks' : Clocks) (made : Bytes) (row : UserRow) (t : Platform)
      (rest : List SessionRow)
      → net.call 0 ≡ true
      → length made ≡ 64
      → clocks'.db_now < clocks.now + day
      → t.sessions ≡ new_session crypto clocks row.id made ∷ rest
      → first (select (λ (r : UserRow). r.id == row.id) t.users) ≡ some row
      → authenticate crypto net clocks' (text "Bearer " ++ made) t ≡ some (user_of row)
  unfolding authenticate first has_prefix
  guard_passes net clocks clocks' made row t rest answered long early is found =
      let s = new_session crypto clocks row.id made in
      let p = is_open_session clocks' (digest crypto made) in
      let valid : p s ≡ true = ground (arith, bytes_eq_refl (digest crypto made), early) in
      let opens : first (select p t.sessions) ≡ some s =
        ap (λ l. first (select p l)) is ∙ ap first (select_taken p s rest valid) in
      let owner : option_user (owner_of t.users (first (select p t.sessions)))
          ≡ some (user_of row) =
        ap (λ o. option_user (owner_of t.users o)) opens ∙ ap option_user found in
      ground (arith, answered, long, owner)

  -- A login that succeeds is the login of a user with that email address and that password, and its
  -- token opens the private routes for that user, for one day, where no two users have one id, the
  -- random source gives as many bytes as it is asked for and the database answers.
  pub authenticate-login :
      (json : Json Credentials) (mail : Mail) (net net' : Net) (clocks clocks' : Clocks)
      (body made : Bytes) (n : ℕ) (t t' : Platform)
      → login json mail crypto net clocks body t ≡ (answer 200 (session made n), t')
      → IsKeyed t.users
      → ((bs : Bytes) → crypto.random 32 ≡ some bs → length bs ≡ 32)
      → net'.call 0 ≡ true
      → clocks'.db_now < clocks.now + day
      → (v : Credentials) × (row : UserRow) × (decode json 4096 body ≡ some v)
        × (first (select (has_email (mail.to_lower (mail.trim_space v.email))) t.users) ≡ some row)
        × (verify crypto row.password_hash v.password ≡ true)
        × (authenticate crypto net' clocks' (text "Bearer " ++ made) t' ≡ some (user_of row))
  unfolding login
  authenticate-login json mail net net' clocks clocks' body made n t t' h keyed random answered
        early =
      elim (Option-cases (decode json 4096 body)) [
        | inl garbled ↦ absurd (ground (arith, garbled, h))
        | inr (v, e) ↦
            let email = mail.to_lower (mail.trim_space v.email) in
            let logs : login_as crypto net clocks v.password (find_account net email t) t
                ≡ (answer 200 (session made n), t') =
              subst (λ o. login_with mail crypto net clocks o t ≡ (answer 200 (session made n), t'))
                e h in
            let done =
              login_as-IsLoggedIn net clocks v email made n t t' (find_account net email t) refl
                logs in
            (
              v,
              done.row,
              e,
              done.found,
              done.verified,
              guard_passes net' clocks clocks' made done.row t' t.sessions answered
                  (length-token made random done.made_as) early done.sessions
                  (ap (λ us. first (select (λ (r : UserRow). r.id == done.row.id) us)) done.users
                    ∙ first_by_id (has_email email) done.row t.users keyed done.found),
            )
      ]
