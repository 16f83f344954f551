-- ===== src/Database/Attempts.antt =====
-- `Transition`, `Renew`, `Finish`, `Retry` and `Fail` of internal/database/judging.go: what the
-- owner of an attempt does with it.
use online_coding_judge.Prelude.{
  ℕ, ◌+◌, ℤ, below, above, pos_part, Bool, true, false, not, Option, none, some, is_some, ◌==◌,
  ◌&&◌, ◌||◌, if◌then◌else◌,
}
use online_coding_judge.Errors.{
  Error, Reply, ok, ◌>>=◌, ◌>>◌, guard, or_fail, stale_attempt, invalid_lease, invalid_transition,
  cannot_finalize, invalid_retry_delay, no_rows, null_scan, unique_violation, check_violation,
}
use online_coding_judge.Submissions.{
  Status, queued, compiling, running, final, failed_internal, is_same, can_transition,
}
use online_coding_judge.Judge.Types.{Result, Verdict, compilation_error}
use online_coding_judge.Database.Table.{insert, update, count}
use online_coding_judge.Database.Tables.{
  SubmissionRow, AttemptRow, EventRow, Tables, ErrorCode, transient, attempts_exhausted, event_key,
}
use online_coding_judge.Database.Transaction.{Net, Clocks, settle, disconnected, commit_as}
use online_coding_judge.Database.Queries.{
  find_submission, find_attempt, is_live, points_to, write_attempt, write_owned, write_submission,
}

-- The locking read of an attempt and of its submission, and the fence: the submission must point
-- to this very attempt. A NULL pointer does not scan into a string.
unfoldable pub fenced : Net → ℕ → Tables → Reply AttemptRow
fenced net attempt t = do
  guard (net.call 0 && net.call 1) disconnected
  r ← or_fail (find_attempt attempt t) no_rows
  s ← or_fail (find_submission r.submission_id t) no_rows
  current ← or_fail s.current_attempt_id null_scan
  guard (current == attempt) stale_attempt
  ok r

abbrev pub after_transition : AttemptRow → ℕ → Status → Tables → Tables
after_transition r attempt to t =
    write_owned r.submission_id attempt (λ s. record s { status = to })
      (write_attempt attempt (λ a. record a { status = to }) t)

-- `Transition`
unfoldable pub transition : Net → ℕ → Status → Tables → Option Error × Tables
transition net attempt to t = settle net t (do
  r ← fenced net attempt t
  guard (can_transition r.status to) invalid_transition
  guard (net.call 2 && net.call 3) disconnected
  ok (after_transition r attempt to t))

-- May an attempt in this state finish with this verdict?
abbrev pub is_compilation_error : Option Verdict → Bool
is_compilation_error (some compilation_error) = true
is_compilation_error _ = false

abbrev pub can_finalize : Status → Option Verdict → Bool
can_finalize status verdict =
    is_same status running || (is_same status compiling && is_compilation_error verdict)

abbrev pub with_result : Clocks → Result → SubmissionRow → SubmissionRow
with_result clocks r s = record s {
  status = final;
  verdict = r.verdict;
  runtime_ms = r.runtime_ms;
  memory_kb = r.memory_kb;
  tests_passed = r.tests_passed;
  tests_total = r.tests_total;
  finished_at = some clocks.db_now;
  lease_until = none;
  retry_after = none;
}

abbrev pub after_finish : Clocks → AttemptRow → ℕ → Result → Tables → Tables
after_finish clocks r attempt result t =
    write_owned r.submission_id attempt (with_result clocks result)
      (write_attempt attempt (λ a. record a { status = final; finished_at = some clocks.db_now }) t)

-- `Finish`; the check of the verdict column refuses the empty verdict.
unfoldable pub finish : Net → Clocks → ℕ → Result → Tables → Option Error × Tables
finish net clocks attempt result t = settle net t (do
  r ← fenced net attempt t
  guard (can_finalize r.status result.verdict) cannot_finalize
  guard (net.call 2 && net.call 3) disconnected
  guard (is_some result.verdict) check_violation
  guard
      (count (λ s. s.id == r.submission_id && points_to s.current_attempt_id attempt) t.submissions
        == 1)
      stale_attempt
  ok (after_finish clocks r attempt result t))

abbrev pub five_minutes : ℕ
five_minutes = 300000000000

abbrev pub requeue : Clocks → ℤ → SubmissionRow → SubmissionRow
requeue clocks delay s = record s {
  status = queued;
  current_attempt_id = none;
  lease_until = none;
  retry_after = some (clocks.db_now + pos_part delay);
}

abbrev pub close_attempt : Clocks → ErrorCode → AttemptRow → AttemptRow
close_attempt clocks code a = record a {
  status = failed_internal;
  error_code = some code;
  finished_at = some clocks.db_now;
}

-- INSERT INTO outbox_events(submission_id,available_at)
abbrev pub new_event : Clocks → ℕ → ℕ → ℕ → EventRow
new_event clocks event submission available = record {
  id = event;
  submission_id = submission;
  available_at = available;
  claimed_by = none;
  claimed_until = none;
  published_at = none;
  created_at = clocks.db_now;
}

abbrev pub after_retry : Clocks → AttemptRow → ℕ → ℤ → Tables → Tables
after_retry clocks r attempt delay t =
    write_submission r.submission_id (requeue clocks delay)
      (write_attempt attempt (close_attempt clocks transient) t)

-- The transaction of `Retry`; `event` is the uuid of the new outbox row.
unfoldable pub retry_transaction : Net → Clocks → ℕ → ℕ → ℤ → Tables → Reply Tables
retry_transaction net clocks event attempt delay t = do
  r ← fenced net attempt t
  guard (net.call 2 && (net.call 3 && net.call 4)) disconnected
  events ←
      or_fail
        (insert event_key (new_event clocks event r.submission_id (clocks.db_now + pos_part delay))
          t.outbox_events)
        unique_violation
  ok (record (after_retry clocks r attempt delay t) { outbox_events = events })

-- `Retry`
unfoldable pub retry : Net → Clocks → ℕ → ℕ → ℤ → Tables → Option Error × Tables
retry net clocks event attempt delay t =
    if below delay 0 || above delay five_minutes
    then (some invalid_retry_delay, t)
    else settle net t (retry_transaction net clocks event attempt delay t)

abbrev pub give_up : Clocks → SubmissionRow → SubmissionRow
give_up clocks s = record s {
  status = failed_internal;
  finished_at = some clocks.db_now;
  lease_until = none;
  retry_after = none;
}

abbrev pub after_fail : Clocks → AttemptRow → ℕ → Tables → Tables
after_fail clocks r attempt t =
    write_owned r.submission_id attempt (give_up clocks)
      (write_attempt attempt (close_attempt clocks attempts_exhausted) t)

-- `Fail`
unfoldable pub fail : Net → Clocks → ℕ → Tables → Option Error × Tables
fail net clocks attempt t = settle net t (do
  r ← fenced net attempt t
  guard (net.call 2 && net.call 3) disconnected
  ok (after_fail clocks r attempt t))

abbrev pub holds_lease : ℕ → SubmissionRow → Bool
holds_lease attempt s = points_to s.current_attempt_id attempt && is_live s.status

abbrev pub extend : Clocks → ℤ → SubmissionRow → SubmissionRow
extend clocks lease s = record s { lease_until = some (clocks.db_now + pos_part lease) }

abbrev pub after_renew : Clocks → ℕ → ℤ → Tables → Tables
after_renew clocks attempt lease t = record t {
  submissions = update (holds_lease attempt) (extend clocks lease) t.submissions;
}

-- `Renew`: one statement, which commits by itself before its row count is read.
unfoldable pub renew : Net → Clocks → ℕ → ℤ → Tables → Option Error × Tables
renew net clocks attempt lease t =
    if not (above lease 0)
    then (some invalid_lease, t)
    else if not (net.call 0)
    then (some disconnected, t)
    else let renewed = commit_as net.commit t (after_renew clocks attempt lease t) in
      let lost_claim = not (count (holds_lease attempt) t.submissions == 1) in
      elim renewed.0 [
        | some e ↦ renewed
        | none ↦ (if lost_claim then some stale_attempt else none, renewed.1)
      ]
