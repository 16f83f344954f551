-- ===== src/Platform/Tables.antt =====
-- The rows of db/migrations that the accounts and the authored problems stand in. A uuid is its
-- number, a time a number of nanoseconds.
use online_coding_judge.Prelude.{ℕ, ℤ, Bool, Bytes, List}
use online_coding_judge.Errors.{Error, failure}
use online_coding_judge.Database.Tables.{Tables}

pub record UserRow : Type 0 where
  pub id : ℕ
  pub username : Bytes
  pub email : Bytes
  pub password_hash : Bytes
  pub role : Bytes

pub record SessionRow : Type 0 where
  pub token_hash : Bytes
  pub user_id : ℕ
  pub expires_at : ℕ

pub record ProblemRow : Type 0 where
  pub id : ℕ
  pub slug : Bytes
  pub title : Bytes
  pub statement : Bytes
  pub difficulty : Bytes
  pub time_limit_ms : ℤ
  pub memory_limit_mb : ℤ
  pub status : Bytes

pub record LanguageRow : Type 0 where
  pub problem_id : ℕ
  pub language_id : Bytes

pub record CaseRow : Type 0 where
  pub problem_id : ℕ
  pub ordinal : ℕ
  pub input : Bytes
  pub expected : Bytes
  pub hidden : Bool

-- Every table of the database; `judging` has those of the judging lifecycle.
pub record Platform : Type 0 where
  pub users : List UserRow
  pub sessions : List SessionRow
  pub problems : List ProblemRow
  pub problem_languages : List LanguageRow
  pub test_cases : List CaseRow
  pub judging : Tables

abbrev pub problem_key : ProblemRow → ℕ
problem_key r = r.id

abbrev pub foreign_key_violation : Error
foreign_key_violation = failure 30
