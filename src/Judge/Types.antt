-- ===== src/Judge/Types.antt =====
-- `Job`, `Outcome`, `Result` and `Delivery` of internal/judge/engine.go. Identifiers are uuids and
-- stream entries, by number; a verdict not yet given is `none`.
use online_coding_judge.Prelude.{ℕ, ℤ, Bool, Bytes, Option, ◌≡◌, refl, ◌⊎◌, inl, inr}
use online_coding_judge.Errors.{Error}
use online_coding_judge.Problems.{Problem}

pub record Job : Type 0 where
  pub id : ℕ
  pub attempt_id : ℕ
  pub attempt_number : ℕ
  pub dead_letter : Bool
  pub language : Bytes
  pub source : Bytes
  pub problem : Problem

pub record Outcome : Type 0 where
  pub output : Bytes
  pub exit_code : ℤ
  pub runtime_ms : ℕ
  pub memory_kb : ℕ
  pub timed_out : Bool
  pub oom : Bool
  pub output_limited : Bool

pub data Verdict : Type 0 where
  accepted wrong_answer time_limit_exceeded memory_limit_exceeded runtime_error : Verdict
  compilation_error output_limit_exceeded : Verdict

pub record Result : Type 0 where
  pub verdict : Option Verdict
  pub runtime_ms : ℕ
  pub memory_kb : ℕ
  pub tests_passed : ℕ
  pub tests_total : ℕ

pub record Delivery : Type 0 where
  pub id : ℕ
  pub submission_id : ℕ
  pub deliveries : ℕ

-- The reply of `Claim`: the job, or an error with the `DeadLetter` mark of the job beside it, the
-- only field that is read then.
pub data Claim : Type 0 where
  granted : Job → Claim
  refused : Error → Bool → Claim

pub Claim-cases :
    (c : Claim)
    → ((job : Job) × (c ≡ granted job)) ⊎ ((e : Error) × (dead : Bool) × (c ≡ refused e dead))
Claim-cases (granted job) = inl (job, refl)
Claim-cases (refused e dead) = inr (e, dead, refl)
