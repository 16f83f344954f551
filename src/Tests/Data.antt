-- ===== src/Tests/Data.antt =====
-- A problem with two tests, one submission of it, and tables before and after it is claimed.
use online_coding_judge.Prelude.{pos, [], ◌∷◌, Bytes, text, none, some, true, false}
use online_coding_judge.Problems.{TestCase, Problem}
use online_coding_judge.Submissions.{queued, running, final, failed_internal}
use online_coding_judge.Judge.Types.{Job, Outcome, Result, accepted, Delivery}
use online_coding_judge.Database.Tables.{SubmissionRow, AttemptRow, Tables, lease_expired}
use online_coding_judge.Database.Transaction.{Net, committed, Clocks}

abbrev pub sample : TestCase
sample = record { input = text "1 2"; expected = text "3"; hidden = false }

abbrev pub secret : TestCase
secret = record { input = text "2 2"; expected = text "4"; hidden = true }

abbrev pub adding : Problem
adding = record {
  id = none;
  slug = text "a-b";
  title = text "Add";
  statement = text "Add two numbers.";
  difficulty = text "easy";
  time_limit_ms = pos 1000;
  memory_limit_mb = pos 64;
  status = text "published";
  languages = text "cpp" ∷ [];
  tests = sample ∷ secret ∷ [];
}

abbrev pub waiting_row : SubmissionRow
waiting_row = record {
  id = 1;
  user_id = 5;
  problem_id = 6;
  language_id = text "cpp";
  source_code = text "x";
  problem_snapshot = some adding;
  status = queued;
  verdict = none;
  runtime_ms = 0;
  memory_kb = 0;
  tests_passed = 0;
  tests_total = 0;
  created_at = 50;
  finished_at = none;
  current_attempt_id = none;
  lease_until = none;
  retry_after = none;
  attempt_count = 0;
}

abbrev pub running_row : SubmissionRow
running_row = record waiting_row {
  status = running;
  current_attempt_id = some 10;
  lease_until = some 900;
  attempt_count = 1;
}

abbrev pub final_row : SubmissionRow
final_row = record running_row { status = final; lease_until = none; finished_at = some 200 }

abbrev pub attempt_row : AttemptRow
attempt_row = record {
  id = 10;
  submission_id = 1;
  attempt_number = 1;
  worker_id = text "w1";
  status = running;
  error_code = none;
  started_at = 60;
  finished_at = none;
}

abbrev pub final_attempt : AttemptRow
final_attempt = record attempt_row { status = final; finished_at = some 200 }

abbrev pub waiting : Tables
waiting = record { submissions = waiting_row ∷ []; submission_attempts = []; outbox_events = [] }

abbrev pub judged : Tables
judged = record {
  submissions = final_row ∷ [];
  submission_attempts = final_attempt ∷ [];
  outbox_events = [];
}

abbrev pub at_work : Tables
at_work = record {
  submissions = running_row ∷ [];
  submission_attempts = attempt_row ∷ [];
  outbox_events = [];
}

-- The attempt 10 has lost its lease to the attempt 11.
abbrev pub taken_over : Tables
taken_over = record {
  submissions = (record running_row { current_attempt_id = some 11; attempt_count = 2 }) ∷ [];
  submission_attempts =
      (record attempt_row { status = failed_internal; error_code = some lease_expired })
      ∷ (record attempt_row { id = 11; attempt_number = 2; worker_id = text "w2" })
      ∷ [];
  outbox_events = [];
}

-- The attempt 10 has failed and its submission waits for the next.
abbrev pub requeued : Tables
requeued = record {
  submissions = (record waiting_row { attempt_count = 1; retry_after = some 300 }) ∷ [];
  submission_attempts = (record attempt_row { status = failed_internal }) ∷ [];
  outbox_events = [];
}

abbrev pub online : Net
online = record { call = λ k. true; commit = committed }

abbrev pub at_100 : Clocks
at_100 = record { now = 100; db_now = 100 }

abbrev pub passed_both : Result
passed_both = record {
  verdict = some accepted;
  runtime_ms = 7;
  memory_kb = 9;
  tests_passed = 2;
  tests_total = 2;
}

abbrev pub addition : Job
addition = record {
  id = 1;
  attempt_id = 10;
  attempt_number = 1;
  dead_letter = false;
  language = text "cpp";
  source = text "x";
  problem = adding;
}

abbrev pub printing : Bytes → Outcome
printing output = record {
  output = output;
  exit_code = pos 0;
  runtime_ms = 3;
  memory_kb = 4;
  timed_out = false;
  oom = false;
  output_limited = false;
}

abbrev pub delivered : Delivery
delivered = record { id = 70; submission_id = 1; deliveries = 1 }
