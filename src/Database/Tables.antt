-- ===== src/Database/Tables.antt =====
-- The rows of db/migrations that the judging lifecycle reads and writes. A uuid is its number and
-- a time is a number of nanoseconds; a snapshot that does not decode is `none`.
use online_coding_judge.Prelude.{ℕ, Bytes, Option, List}
use online_coding_judge.Problems.{Problem}
use online_coding_judge.Submissions.{Status}
use online_coding_judge.Judge.Types.{Verdict}

pub record SubmissionRow : Type 0 where
  pub id : ℕ
  pub user_id : ℕ
  pub problem_id : ℕ
  pub language_id : Bytes
  pub source_code : Bytes
  pub problem_snapshot : Option Problem
  pub status : Status
  pub verdict : Option Verdict
  pub runtime_ms : ℕ
  pub memory_kb : ℕ
  pub tests_passed : ℕ
  pub tests_total : ℕ
  pub created_at : ℕ
  pub finished_at : Option ℕ
  pub current_attempt_id : Option ℕ
  pub lease_until : Option ℕ
  pub retry_after : Option ℕ
  pub attempt_count : ℕ

pub data ErrorCode : Type 0 where
  lease_expired transient attempts_exhausted : ErrorCode

pub record AttemptRow : Type 0 where
  pub id : ℕ
  pub submission_id : ℕ
  pub attempt_number : ℕ
  pub worker_id : Bytes
  pub status : Status
  pub error_code : Option ErrorCode
  pub started_at : ℕ
  pub finished_at : Option ℕ

pub record EventRow : Type 0 where
  pub id : ℕ
  pub submission_id : ℕ
  pub available_at : ℕ
  pub claimed_by : Option Bytes
  pub claimed_until : Option ℕ
  pub published_at : Option ℕ
  pub created_at : ℕ

pub record Tables : Type 0 where
  pub submissions : List SubmissionRow
  pub submission_attempts : List AttemptRow
  pub outbox_events : List EventRow

abbrev pub submission_key : SubmissionRow → ℕ
submission_key r = r.id

abbrev pub attempt_key : AttemptRow → ℕ
attempt_key r = r.id

abbrev pub event_key : EventRow → ℕ
event_key r = r.id
