-- ===== src/Platform/Submitting.antt =====
-- `CreateSubmission` and `History` of internal/database/store.go.
use online_coding_judge.Prelude.{
  ℕ, Bool, true, false, not, List, [], ◌∷◌, Bytes, bytes_eq, text, Option, none, some, is_some,
  length, map, take, ltb, leb, ◌==◌, ◌&&◌, ◌||◌, if◌then◌else◌,
}
use online_coding_judge.Errors.{
  Error, Reply, ok, err, ◌>>=◌, ◌>>◌, guard, or_fail, failure, no_rows, unique_violation,
}
use online_coding_judge.Problems.{Problem}
use online_coding_judge.Submissions.{Status, queued}
use online_coding_judge.Judge.Types.{Verdict}
use online_coding_judge.Database.Table.{find, insert, select, exists, sort_by}
use online_coding_judge.Database.Tables.{SubmissionRow, EventRow, submission_key, event_key}
use online_coding_judge.Database.Transaction.{Net, Clocks, disconnected, settle_with}
use online_coding_judge.Database.Attempts.{new_event}
use online_coding_judge.Platform.Tables.{UserRow, Platform, problem_key, foreign_key_violation}
use online_coding_judge.Platform.Authoring.{load_problem}

pub record Submission : Type 0 where
  pub id : ℕ
  pub problem_id : ℕ
  pub language : Bytes
  pub status : Status
  pub verdict : Option Verdict
  pub runtime_ms : ℕ
  pub memory_kb : ℕ
  pub tests_passed : ℕ
  pub tests_total : ℕ
  pub created_at : ℕ

abbrev pub invalid_source : Error
invalid_source = failure 31

abbrev pub unavailable_problem : Error
unavailable_problem = failure 32

abbrev pub is_valid_source : Bytes → Bool
is_valid_source source = not (ltb (length source) 1 || ltb 65536 (length source))

-- The loop over `p.Languages`.
unfoldable pub is_offered : Bool → Bytes → List Bytes → Bool
is_offered valid language [] = valid
is_offered valid language (l ∷ ls) = is_offered (valid || bytes_eq l language) language ls

abbrev pub is_user : ℕ → UserRow → Bool
is_user id r = r.id == id

-- The row of the INSERT, with the defaults of its other columns.
abbrev pub new_submission : Clocks → ℕ → ℕ → ℕ → Bytes → Bytes → Problem → SubmissionRow
new_submission clocks n user id language source p = record {
  id = n;
  user_id = user;
  problem_id = id;
  language_id = language;
  source_code = source;
  problem_snapshot = some p;
  status = queued;
  verdict = none;
  runtime_ms = 0;
  memory_kb = 0;
  tests_passed = 0;
  tests_total = length p.tests;
  created_at = clocks.db_now;
  finished_at = none;
  current_attempt_id = none;
  lease_until = none;
  retry_after = none;
  attempt_count = 0;
}

abbrev pub submission_of : SubmissionRow → Submission
submission_of r = record {
  id = r.id;
  problem_id = r.problem_id;
  language = r.language_id;
  status = r.status;
  verdict = r.verdict;
  runtime_ms = r.runtime_ms;
  memory_kb = r.memory_kb;
  tests_passed = r.tests_passed;
  tests_total = r.tests_total;
  created_at = r.created_at;
}

abbrev pub with_submission : List SubmissionRow → List EventRow → Platform → Platform
with_submission submissions events t = record t {
  judging = record t.judging { submissions = submissions; outbox_events = events };
}

-- The transaction of `CreateSubmission` before its COMMIT; `n` and `m` are the ids that the database
-- generates for the submission and its event.
unfoldable pub submit :
    Net → Clocks → ℕ → ℕ → ℕ → ℕ → Bytes → Bytes → Platform → Reply (Submission × Platform)
submit net clocks n m user id language source t = do
  guard (is_valid_source source) invalid_source
  guard (net.call 0 && net.call 1) disconnected
  guard (is_some (find problem_key id t.problems)) no_rows
  p ← load_problem net 2 id t
  guard (bytes_eq p.status (text "published") && is_offered false language p.languages)
      unavailable_problem
  guard (net.call 5) disconnected
  guard (exists (is_user user) t.users) foreign_key_violation
  submissions ←
      or_fail
        (insert submission_key (new_submission clocks n user id language source p)
          t.judging.submissions)
        unique_violation
  guard (net.call 6) disconnected
  events ←
      or_fail (insert event_key (new_event clocks m n clocks.db_now) t.judging.outbox_events)
        unique_violation
  ok (
    submission_of (new_submission clocks n user id language source p),
    with_submission submissions events t,
  )

-- `CreateSubmission`
unfoldable pub create_submission :
    Net → Clocks → ℕ → ℕ → ℕ → ℕ → Bytes → Bytes → Platform → Reply Submission × Platform
create_submission net clocks n m user id language source t =
    settle_with net t (submit net clocks n m user id language source t)

-- The id that the path names, where it names one.
abbrev pub is_wanted : Option ℕ → ℕ → Bool
is_wanted none n = true
is_wanted (some id) n = n == id

abbrev pub is_shown : ℕ → Option ℕ → SubmissionRow → Bool
is_shown user id r = r.user_id == user && is_wanted id r.id

abbrev pub is_newer : SubmissionRow → SubmissionRow → Bool
is_newer x y = leb y.created_at x.created_at

-- `History`
unfoldable pub history : Net → ℕ → Option ℕ → Platform → Reply (List Submission)
history net user id t =
    if not (net.call 0)
    then err disconnected
    else ok (
        map submission_of
          (take 100 (sort_by is_newer (select (is_shown user id) t.judging.submissions))))
