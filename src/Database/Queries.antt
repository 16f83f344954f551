-- ===== src/Database/Queries.antt =====
-- The reads and writes that the statements of internal/database/judging.go share.
use online_coding_judge.Prelude.{ℕ, Bool, true, false, Option, none, some, ltb, ◌==◌, ◌&&◌}
use online_coding_judge.Submissions.{Status, claimed, compiling, running, final, failed_internal}
use online_coding_judge.Database.Table.{find, update}
use online_coding_judge.Database.Tables.{
  SubmissionRow, AttemptRow, Tables, submission_key, attempt_key,
}

abbrev pub find_submission : ℕ → Tables → Option SubmissionRow
find_submission i t = find submission_key i t.submissions

abbrev pub find_attempt : ℕ → Tables → Option AttemptRow
find_attempt a t = find attempt_key a t.submission_attempts

-- `status IN ('CLAIMED','COMPILING','RUNNING')`
abbrev pub is_live : Status → Bool
is_live claimed = true
is_live compiling = true
is_live running = true
is_live _ = false

abbrev pub is_terminal : Status → Bool
is_terminal final = true
is_terminal failed_internal = true
is_terminal _ = false

-- `t.After(now)` for a column that may be NULL.
abbrev pub is_after : Option ℕ → ℕ → Bool
is_after none now = false
is_after (some t) now = ltb now t

abbrev pub points_to : Option ℕ → ℕ → Bool
points_to none a = false
points_to (some b) a = b == a

abbrev pub write_attempt : ℕ → (AttemptRow → AttemptRow) → Tables → Tables
write_attempt attempt f t = record t {
  submission_attempts = update (λ r. r.id == attempt) f t.submission_attempts;
}

-- UPDATE submissions … WHERE id = $1 AND current_attempt_id = $2
abbrev pub write_owned : ℕ → ℕ → (SubmissionRow → SubmissionRow) → Tables → Tables
write_owned id attempt f t = record t {
  submissions = update (λ s. s.id == id && points_to s.current_attempt_id attempt) f t.submissions;
}

-- UPDATE submissions … WHERE id = $1
abbrev pub write_submission : ℕ → (SubmissionRow → SubmissionRow) → Tables → Tables
write_submission id f t = record t { submissions = update (λ s. s.id == id) f t.submissions }
