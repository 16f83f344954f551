-- ===== src/Tests/Platforms.antt =====
-- Problems and submissions at a concrete database.
use online_coding_judge.Prelude.{
  take, pos, List, [], ◌∷◌, text, true, false, none, some, ◌≡◌, refl, ◌⊎◌, map, bytes_eq,
  if◌then◌else◌, ◌==◌, ◌&&◌,
}
use online_coding_judge.Errors.{ok}
use online_coding_judge.Problems.{
  Problem, validate, exceeds_budgets, is_slug, all_slug_parts, check_languages, is_seen,
  check_tests,
}
use online_coding_judge.Database.Table.{find, insert, select, exists, place, sort_by}
use online_coding_judge.Database.Tables.{SubmissionRow}
use online_coding_judge.Platform.Tables.{UserRow, ProblemRow, CaseRow, Platform}
use online_coding_judge.Platform.Authoring.{
  bytes_le, languages_of, tests_of, load_problem, write_row, add_languages, add_cases,
  replace_problem, save_problem,
}
use online_coding_judge.Platform.RoundTrip.{load_problem-save_problem}
use online_coding_judge.Platform.Accepting.{named, save_problem_accepts}
use online_coding_judge.Platform.Submitting.{
  is_wanted, Submission, is_offered, new_submission, submission_of, submit, create_submission,
  history,
}
use online_coding_judge.Platform.Ownership.{
  IsCreated, create_submission_atomic, history-create_submission,
}
use online_coding_judge.Platform.Listing.{IsReordering, IsNewestFirst, history_lem}
use online_coding_judge.Database.Transaction.{Net, Clocks}
use online_coding_judge.Database.Invariant.{IsWellFormed}
use online_coding_judge.Database.History.{claims}
use online_coding_judge.Platform.Lifetime.{
  Use, judges, submits, authors, leases, marks, reconciles, live, fresh, live_lem,
}
use online_coding_judge.Tests.Data.{adding, waiting_row, waiting, online, at_100}

abbrev pub ann : UserRow
ann = record {
  id = 5;
  username = text "ann";
  email = text "ann@x";
  password_hash = text "long enough";
  role = text "user";
}

abbrev adding_row : ProblemRow
adding_row = record {
  id = 6;
  slug = text "a-b";
  title = text "Add";
  statement = text "Add two numbers.";
  difficulty = text "easy";
  time_limit_ms = pos 1000;
  memory_limit_mb = pos 64;
  status = text "published";
}

abbrev first_case : CaseRow
first_case = record {
  problem_id = 6;
  ordinal = 0;
  input = text "1 2";
  expected = text "3";
  hidden = false;
}

abbrev second_case : CaseRow
second_case = record {
  problem_id = 6;
  ordinal = 1;
  input = text "2 2";
  expected = text "4";
  hidden = true;
}

abbrev pub platform : Platform
platform = record {
  users = ann ∷ [];
  sessions = [];
  problems = adding_row ∷ [];
  problem_languages = (record { problem_id = 6; language_id = text "cpp" }) ∷ [];
  test_cases = second_case ∷ first_case ∷ [];
  judging = waiting;
}

abbrev both : Problem
both = record adding { slug = text "c-d"; languages = text "python" ∷ text "cpp" ∷ [] }

abbrev both_9 : Problem
both_9 = record both { id = some 9 }

load_problem-save_problem_example :
    (both_9 ≡ record both { id = some 9 })
    × (load_problem online 0 9 (save_problem online 9 both platform).1
        ≡ ok (record both_9 { languages = sort_by bytes_le both.languages }))
unfolding save_problem replace_problem write_row add_languages add_cases find insert select exists
    bytes_eq
load_problem-save_problem_example =
    load_problem-save_problem online online 9 0 9 both both_9 platform refl refl refl

save_problem_accepts_example :
    (save_problem online 9 both platform).0 ≡ ok (record both { id = some (named 9 both.id) })
unfolding validate exceeds_budgets is_slug all_slug_parts check_languages is_seen check_tests find
    exists bytes_eq
save_problem_accepts_example =
    save_problem_accepts online 9 both platform (λ k. refl) refl refl refl

create_submission_atomic_example :
    let t' = (create_submission online at_100 2 4 5 6 (text "cpp") (text "x") platform).1 in
    (t' ≡ platform) ⊎ IsCreated online at_100 2 4 5 6 (text "cpp") (text "x") platform t'
create_submission_atomic_example =
    create_submission_atomic online at_100 2 4 5 6 (text "cpp") (text "x") platform

abbrev sent : Submission
sent = submission_of (new_submission at_100 2 5 6 (text "cpp") (text "x") adding)

history-create_submission_example :
    history online 8
      (some 2)
      (create_submission online at_100 2 4 5 6 (text "cpp") (text "x") platform).1
    ≡ ok (if 5 == 8 then sent ∷ [] else [])
unfolding create_submission submit load_problem languages_of tests_of is_offered find insert select
    exists place sort_by bytes_eq
history-create_submission_example =
    history-create_submission online online at_100 2 4 5 6 8 (text "cpp") (text "x") platform sent
      refl refl

history_lem_example :
    (sorted : List SubmissionRow) × ((submission_of waiting_row ∷ [])
      ≡ map submission_of (take 100 sorted))
    × IsReordering sorted (λ r. r.user_id == 5 && is_wanted none r.id) platform.judging.submissions
    × IsNewestFirst sorted
unfolding history select place sort_by
history_lem_example = history_lem online 5 none platform (submission_of waiting_row ∷ []) refl

-- A submission is made, published and claimed while its problem is rewritten.
abbrev some_uses : List (Net × Clocks × Use)
some_uses =
    (online, at_100, submits 2 4 5 6 (text "cpp") (text "x"))
    ∷ (online, at_100, leases (λ k. false) (text "api") (pos 50) (pos 30))
    ∷ (online, at_100, authors 9 both)
    ∷ (online, at_100, marks 4)
    ∷ (online, at_100, judges (claims 10 2 (text "w1") (pos 900)))
    ∷ (online, at_100, reconciles (λ k. 7))
    ∷ []

live_lem_example : IsWellFormed (live some_uses (fresh platform)).judging
live_lem_example = live_lem some_uses platform
