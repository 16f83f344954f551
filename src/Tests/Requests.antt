-- ===== src/Tests/Requests.antt =====
-- Requests at a concrete database.
use online_coding_judge.Prelude.{
  ◌++◌, [], ◌∷◌, text, Bytes, true, false, none, some, ◌≡◌, refl, subst, arith, length, bytes_eq,
}
use online_coding_judge.Errors.{ok}
use online_coding_judge.RateLimit.{passed}
use online_coding_judge.Database.Table.{select, exists, sort_by, place}
use online_coding_judge.Judge.Docker.Container.{hex}
use online_coding_judge.Judge.Docker.Strings.{has_prefix}
use online_coding_judge.Platform.Tables.{UserRow, SessionRow, Platform}
use online_coding_judge.Auth.{Crypto, verify, token, digest}
use online_coding_judge.Api.Responses.{decode}
use online_coding_judge.Api.Accounts.{
  Mail, Credentials, first, has_email, find_account, add_session, login, user_of, authenticate,
  drop_session, logout,
}
use online_coding_judge.Api.Routes.{private, admin, disable, public_problem, Packages, Meets, serve}
use online_coding_judge.Api.Access.{serve_keeps_problems}
use online_coding_judge.Api.Disclosure.{IsPublic, serve-IsPublic}
use online_coding_judge.Api.Sessions.{authenticate-login}
use online_coding_judge.Api.Logout.{authenticate-logout}
use online_coding_judge.Submissions.{final, is_same}
use online_coding_judge.Database.Tables.{SubmissionRow}
use online_coding_judge.Platform.Submitting.{Submission, submission_of, history}
use online_coding_judge.Api.Streaming.{Poll, stream_events}
use online_coding_judge.Api.Streaming.Delivery.{newest, Changes, stream_delivers}
use online_coding_judge.Tests.Data.{adding, waiting_row, waiting, online, at_100}
use online_coding_judge.Tests.Platforms.{platform}

abbrev entropy : Bytes
entropy = text "0123456789abcdef0123456789abcdef"

-- A hash is the text itself.
abbrev plain : Crypto
plain = record {
  generate_from_password = λ password. ok password;
  compare_hash_and_password = λ hash password. bytes_eq hash password;
  random = λ n. some entropy;
  sha256 = λ bytes. bytes;
}

abbrev ascii : Mail
ascii = record { to_lower = λ s. s; trim_space = λ s. s; parse_address = λ s. some s }

abbrev anns : Credentials
anns = record { email = text "ann@x"; password = text "long enough" }

abbrev packages : Packages
packages = record {
  registration = λ body. none;
  credentials = λ body. some anns;
  draft = λ body. none;
  problem = λ body. some adding;
  mail = ascii;
  crypto = plain;
}

abbrev meets : Meets
meets = record {
  guard_net = online;
  net = online;
  clocks = at_100;
  ids = record { row = 20; event = 21 };
  limiter = passed;
}

abbrev anns_token : Bytes
unfolding hex
anns_token = hex entropy

abbrev anns_session : SessionRow
unfolding digest
anns_session = record {
  token_hash = digest plain anns_token;
  user_id = 5;
  expires_at = 86400000000100;
}

abbrev logged_in : Platform
logged_in = record platform { sessions = anns_session ∷ [] }

abbrev header : Bytes
header = text "Bearer " ++ anns_token

serve_keeps_problems_example :
    let t' = (serve packages meets (private header (admin (disable 6))) logged_in).1 in
    (t'.problems ≡ logged_in.problems)
    × (t'.problem_languages ≡ logged_in.problem_languages)
    × (t'.test_cases ≡ logged_in.test_cases)
unfolding authenticate first select has_prefix bytes_eq digest hex
serve_keeps_problems_example =
    serve_keeps_problems packages meets (private header (admin (disable 6))) logged_in refl

serve-IsPublic_example : IsPublic (serve packages meets (public_problem 6) logged_in).0.body
serve-IsPublic_example = serve-IsPublic packages meets (public_problem 6) logged_in refl

thirty_two : (bs : Bytes) → some entropy ≡ some bs → length bs ≡ 32
thirty_two bs h = subst (λ x. length x ≡ 32) (some-inj entropy bs h) refl
  where
    some-inj : (a b : Bytes) → some a ≡ some b → a ≡ b
    some-inj a b e = ground (arith, e)

authenticate-login_example :
    (v : Credentials) × (row : UserRow) × (decode packages.credentials 4096 (text "{}") ≡ some v)
    × (first (select (has_email v.email) logged_in.users) ≡ some row)
    × (verify plain row.password_hash v.password ≡ true)
    × (authenticate plain online at_100 (text "Bearer " ++ anns_token) logged_in
        ≡ some (user_of row))
unfolding login decode find_account first select exists verify token hex digest add_session bytes_eq
authenticate-login_example =
    authenticate-login plain packages.credentials ascii online online at_100 at_100 (text "{}")
      anns_token 86400 platform logged_in refl (tt, tt) thirty_two refl (omega arith)

authenticate-logout_example :
    authenticate plain online at_100 header (logout plain online header logged_in).1 ≡ none
unfolding logout drop_session
authenticate-logout_example = authenticate-logout plain online online at_100 header logged_in refl

-- The queued submission, seen twice, and its end.
abbrev done_row : SubmissionRow
done_row = record waiting_row { status = final }

abbrev seen : Poll
seen = record { net = online; platform = platform; closed = false }

abbrev ended : Poll
ended = record seen {
  platform = record platform { judging = record waiting { submissions = done_row ∷ [] } };
}

abbrev tests_only : Submission → Bytes
tests_only sub = sub.tests_total ∷ []

stream_delivers_example :
    let payloads = (stream_events tests_only 5 1 (text "") (seen ∷ seen ∷ ended ∷ [])).0 in
    (newest (text "") payloads ≡ tests_only (submission_of done_row)) × Changes (text "") payloads
unfolding history select sort_by place is_same
stream_delivers_example =
    stream_delivers tests_only 5 1 (text "") (seen ∷ seen ∷ []) ended (submission_of done_row) []
      (
        (submission_of waiting_row, [], refl, refl),
        ((submission_of waiting_row, [], refl, refl), tt),
      )
      refl
