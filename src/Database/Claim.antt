-- ===== src/Database/Claim.antt =====
-- `Claim` of internal/database/judging.go.
use online_coding_judge.Prelude.{
  ℕ, suc, ◌+◌, ℤ, above, pos_part, Bool, true, false, not, [], Bytes, bytes_eq, Option, none, some,
  is_some, ◌==◌, ◌&&◌, ◌||◌, if◌then◌else◌,
}
use online_coding_judge.Errors.{
  Reply, ok, err, ◌>>=◌, ◌>>◌, guard, or_fail, terminal, busy, invalid_lease, no_rows,
  unique_violation, failure,
}
use online_coding_judge.Submissions.{queued, claimed, failed_internal, is_same}
use online_coding_judge.Problems.{Problem}
use online_coding_judge.Judge.Types.{Claim, granted, refused, Job}
use online_coding_judge.Database.Table.{insert, update, count}
use online_coding_judge.Database.Tables.{
  SubmissionRow, AttemptRow, Tables, ErrorCode, lease_expired, attempts_exhausted, attempt_key,
}
use online_coding_judge.Database.Transaction.{Net, Clocks, settle, disconnected}
use online_coding_judge.Database.Queries.{
  find_submission, find_attempt, is_live, is_terminal, is_after,
}

-- The error code of the current attempt is ATTEMPTS_EXHAUSTED.
abbrev is_exhausted : Option ErrorCode → Bool
is_exhausted (some attempts_exhausted) = true
is_exhausted _ = false

unfoldable pub dead_letter_of : SubmissionRow → Tables → Bool
dead_letter_of s t = elim s.current_attempt_id [
  | none ↦ false
  | some a ↦ elim (find_attempt a t) [ none ↦ false | some r ↦ is_exhausted r.error_code ]
]

-- The checks of `Claim` on the row that it has locked.
unfoldable pub claim_checks : SubmissionRow → ℕ → Reply (Unit {0})
claim_checks s now = do
  guard (not (is_terminal s.status)) terminal
  guard (not (is_after s.retry_after now)) busy
  guard (not (not (is_same s.status queued) && is_after s.lease_until now)) busy

abbrev pub needs_expiry : SubmissionRow → Bool
needs_expiry s = not (is_same s.status queued) && is_some s.current_attempt_id

abbrev pub expire_attempt : Clocks → AttemptRow → AttemptRow
expire_attempt clocks r = record r {
  status = failed_internal;
  error_code = some lease_expired;
  finished_at = some clocks.db_now;
}

-- The current attempt, if its lease has expired, is closed.
unfoldable pub expire : Clocks → SubmissionRow → Tables → Tables
expire clocks s t = elim s.current_attempt_id [
  | none ↦ t
  | some a ↦
      if not (is_same s.status queued)
      then record t {
        submission_attempts =
            update (λ r. r.id == a && is_live r.status) (expire_attempt clocks)
              t.submission_attempts;
      }
      else t
]

-- INSERT INTO submission_attempts, with its two uniqueness constraints.
unfoldable pub insert_attempt : AttemptRow → Tables → Reply Tables
insert_attempt r t = do
  guard
      (count (λ x. x.submission_id == r.submission_id && x.attempt_number == r.attempt_number)
          t.submission_attempts
        == 0)
      unique_violation
  rows ← or_fail (insert attempt_key r t.submission_attempts) unique_violation
  ok (record t { submission_attempts = rows })

-- The submission belongs to the new attempt.
abbrev pub assign : Clocks → ℕ → ℤ → SubmissionRow → SubmissionRow
assign clocks attempt lease s = record s {
  status = claimed;
  current_attempt_id = some attempt;
  lease_until = some (clocks.db_now + pos_part lease);
  retry_after = none;
  attempt_count = suc s.attempt_count;
}

abbrev pub new_attempt : Clocks → ℕ → SubmissionRow → Bytes → AttemptRow
new_attempt clocks attempt s worker = record {
  id = attempt;
  submission_id = s.id;
  attempt_number = suc s.attempt_count;
  worker_id = worker;
  status = claimed;
  error_code = none;
  started_at = clocks.db_now;
  finished_at = none;
}

-- The writes of `Claim`; `attempt` is the uuid that the database generates.
unfoldable pub claim_writes : Net → Clocks → ℕ → Bytes → ℤ → SubmissionRow → Tables → Reply Tables
claim_writes net clocks attempt worker lease s t = do
  guard (not (needs_expiry s) || net.call 2) disconnected
  let t1 = expire clocks s t
  guard (net.call 3) disconnected
  t2 ← insert_attempt (new_attempt clocks attempt s worker) t1
  guard (net.call 4) disconnected
  guard (is_some s.problem_snapshot) (failure 1)
  ok (record t2 {
    submissions = update (λ x. x.id == s.id) (assign clocks attempt lease) t2.submissions;
  })

-- What `Claim` scans, and the job it returns on success.
unfoldable pub job_of : SubmissionRow → Problem → ℕ → Job
job_of s p attempt = record {
  id = s.id;
  attempt_id = attempt;
  attempt_number = suc s.attempt_count;
  dead_letter = false;
  language = s.language_id;
  source = s.source_code;
  problem = p;
}

unfoldable pub claim_transaction :
    Net → Clocks → ℕ → SubmissionRow → Bytes → ℤ → Tables → Claim × Tables
claim_transaction net clocks attempt s worker lease t = elim (claim_checks s clocks.now) [
  | err e ↦ (refused e (dead_letter_of s t && is_terminal s.status), t)
  | ok _ ↦
      let (e, t') = settle net t (claim_writes net clocks attempt worker lease s t) in
      (
        elim e [
          | some x ↦ refused x false
          | none ↦ elim s.problem_snapshot [
            | none ↦ refused (failure 1) false
            | some p ↦ granted (job_of s p attempt)
          ]
        ],
        t',
      )
]

-- `Claim`
unfoldable pub claim : Net → Clocks → ℕ → ℕ → Bytes → ℤ → Tables → Claim × Tables
claim net clocks attempt id worker lease t =
    if bytes_eq worker [] || not (above lease 0)
    then (refused invalid_lease false, t)
    else if not (net.call 0 && net.call 1)
    then (refused disconnected false, t)
    else elim (find_submission id t) [
      | none ↦ (refused no_rows false, t)
      | some s ↦ claim_transaction net clocks attempt s worker lease t
    ]
