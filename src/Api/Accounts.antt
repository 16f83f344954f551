-- ===== src/Api/Accounts.antt =====
-- Registration, login, the guard of the private routes and logout of internal/api/api.go.
use online_coding_judge.Prelude.{
  ℕ, ◌+◌, ◌*◌, Bool, false, not, List, [], ◌∷◌, Bytes, bytes_eq, text, Option, none, some, length,
  ltb, ◌==◌, ◌&&◌, ◌||◌, if◌then◌else◌,
}
use online_coding_judge.Errors.{
  Reply, ok, err, ◌>>=◌, ◌>>◌, guard, or_fail, no_rows, unique_violation,
}
use online_coding_judge.Judge.Retry.{second}
use online_coding_judge.Judge.Docker.Strings.{trim_prefix}
use online_coding_judge.Database.Table.{insert, select, exists}
use online_coding_judge.Database.Transaction.{Net, Clocks, disconnected, settle_with}
use online_coding_judge.Platform.Tables.{UserRow, SessionRow, Platform}
use online_coding_judge.Auth.{Crypto, hash_password, verify, token, digest}
use online_coding_judge.Api.Responses.{
  User, nothing, registered, session, Response, answer, fail, db_fail, Json, decode,
}

-- What the handlers use of the packages strings and net/mail.
pub record Mail : Type 0 where
  pub to_lower : Bytes → Bytes
  pub trim_space : Bytes → Bytes
  pub parse_address : Bytes → Option Bytes

pub record Registration : Type 0 where
  pub username : Bytes
  pub email : Bytes
  pub password : Bytes

pub record Credentials : Type 0 where
  pub email : Bytes
  pub password : Bytes

-- `e != nil || address.Address != v.Email`, negated.
abbrev pub is_address : Option Bytes → Bytes → Bool
is_address none email = false
is_address (some address) email = bytes_eq address email

abbrev pub is_acceptable : Mail → Bytes → Registration → Bool
is_acceptable mail email v =
    is_address (mail.parse_address email) email
    && not (ltb 254 (length email) || (ltb (length v.username) 3 || ltb 40 (length v.username)))

abbrev pub user_key : UserRow → ℕ
user_key r = r.id

abbrev pub has_name_or_email : Bytes → Bytes → UserRow → Bool
has_name_or_email username email r = bytes_eq r.username username || bytes_eq r.email email

-- INSERT INTO users …; `n` is the id that the database generates.
unfoldable pub add_user : Net → ℕ → Bytes → Bytes → Bytes → Platform → Reply (ℕ × Platform)
add_user net n username email hash t = do
  guard (net.call 0) disconnected
  guard (not (exists (has_name_or_email username email) t.users)) unique_violation
  users ←
      or_fail
        (insert user_key
          (record {
            id = n;
            username = username;
            email = email;
            password_hash = hash;
            role = text "user";
          })
          t.users)
        unique_violation
  ok (n, record t { users = users })

abbrev pub registration_reply : Reply ℕ × Platform → Response × Platform
registration_reply (ok id, t) = (answer 201 (registered id), t)
registration_reply (err e, t) = (db_fail e, t)

abbrev pub register_as : Net → ℕ → Bytes → Bytes → Reply Bytes → Platform → Response × Platform
register_as net n username email (err e) t = (fail 400, t)
register_as net n username email (ok hash) t =
    registration_reply (settle_with net t (add_user net n username email hash t))

abbrev pub register_with :
    Mail → Crypto → Net → ℕ → Option Registration → Platform → Response × Platform
register_with mail crypto net n none t = (fail 400, t)
register_with mail crypto net n (some v) t =
    let email = mail.to_lower (mail.trim_space v.email) in
    if not (is_acceptable mail email v)
    then (fail 400, t)
    else register_as net n v.username email (hash_password crypto v.password) t

-- POST /v1/auth/register
unfoldable pub register :
    Json Registration → Mail → Crypto → Net → ℕ → Bytes → Platform → Response × Platform
register json mail crypto net n body t = register_with mail crypto net n (decode json 4096 body) t

unfoldable pub first : {A : Type 0} → List A → Option A
first [] = none
first (x ∷ xs) = some x

abbrev pub has_email : Bytes → UserRow → Bool
has_email email r = bytes_eq r.email email

-- SELECT id,password_hash FROM users WHERE email=$1
unfoldable pub find_account : Net → Bytes → Platform → Reply UserRow
find_account net email t = do
  guard (net.call 0) disconnected
  or_fail (first (select (has_email email) t.users)) no_rows

abbrev pub has_token_hash : Bytes → SessionRow → Bool
has_token_hash hash s = bytes_eq s.token_hash hash

abbrev pub day : ℕ
day = 86400 * second

-- INSERT INTO sessions …
unfoldable pub add_session : Net → SessionRow → Platform → Reply (Unit {0} × Platform)
add_session net s t = do
  guard (net.call 1) disconnected
  guard (not (exists (has_token_hash s.token_hash) t.sessions)) unique_violation
  ok (tt, record t { sessions = s ∷ t.sessions })

abbrev pub session_reply : Bytes → Reply (Unit {0}) × Platform → Response × Platform
session_reply made (ok x, t) = (answer 200 (session made 86400), t)
session_reply made (err e, t) = (fail 500, t)

abbrev pub new_session : Crypto → Clocks → ℕ → Bytes → SessionRow
new_session crypto clocks user made = record {
  token_hash = digest crypto made;
  user_id = user;
  expires_at = clocks.now + day;
}

abbrev pub open_session : Crypto → Net → Clocks → ℕ → Reply Bytes → Platform → Response × Platform
open_session crypto net clocks user (err e) t = (fail 500, t)
open_session crypto net clocks user (ok made) t =
    session_reply made (settle_with net t (add_session net (new_session crypto clocks user made) t))

abbrev pub login_as : Crypto → Net → Clocks → Bytes → Reply UserRow → Platform → Response × Platform
login_as crypto net clocks password (err e) t = (fail 401, t)
login_as crypto net clocks password (ok r) t =
    if not (verify crypto r.password_hash password)
    then (fail 401, t)
    else open_session crypto net clocks r.id (token crypto) t

abbrev pub login_with :
    Mail → Crypto → Net → Clocks → Option Credentials → Platform → Response × Platform
login_with mail crypto net clocks none t = (fail 400, t)
login_with mail crypto net clocks (some v) t =
    login_as crypto net clocks v.password
      (find_account net (mail.to_lower (mail.trim_space v.email)) t) t

-- POST /v1/auth/login
unfoldable pub login :
    Json Credentials → Mail → Crypto → Net → Clocks → Bytes → Platform → Response × Platform
login json mail crypto net clocks body t =
    login_with mail crypto net clocks (decode json 4096 body) t

abbrev pub bearer : Bytes → Bytes
bearer header = trim_prefix (text "Bearer ") header

abbrev pub user_of : UserRow → User
user_of r = record { id = r.id; username = r.username; email = r.email; role = r.role }

abbrev pub is_open_session : Clocks → Bytes → SessionRow → Bool
is_open_session clocks hash s = has_token_hash hash s && ltb clocks.db_now s.expires_at

abbrev pub owner_of : List UserRow → Option SessionRow → Option UserRow
owner_of users none = none
owner_of users (some s) = first (select (λ (r : UserRow). r.id == s.user_id) users)

abbrev pub option_user : Option UserRow → Option User
option_user none = none
option_user (some r) = some (user_of r)

-- `authenticate`: the user for whom the private routes then work, or `none` for status 401.
unfoldable pub authenticate : Crypto → Net → Clocks → Bytes → Platform → Option User
authenticate crypto net clocks header t =
    let hash = digest crypto (bearer header) in
    let found = owner_of t.users (first (select (is_open_session clocks hash) t.sessions)) in
    if not (length (bearer header) == 64) || not (net.call 0) then none else option_user found

abbrev pub delete_reply : Reply (Unit {0}) × Platform → Response × Platform
delete_reply (ok x, t) = (answer 204 nothing, t)
delete_reply (err e, t) = (fail 500, t)

abbrev pub without_session : Bytes → Platform → Platform
without_session hash t = record t {
  sessions = select (λ (s : SessionRow). not (has_token_hash hash s)) t.sessions;
}

-- DELETE FROM sessions …
unfoldable pub drop_session : Net → Bytes → Platform → Reply (Unit {0} × Platform)
drop_session net hash t = do guard (net.call 0) disconnected; ok (tt, without_session hash t)

-- POST /v1/auth/logout
unfoldable pub logout : Crypto → Net → Bytes → Platform → Response × Platform
logout crypto net header t =
    delete_reply (settle_with net t (drop_session net (digest crypto (bearer header)) t))
