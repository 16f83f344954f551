-- ===== src/Judge/Engine.antt =====
-- `Engine.Evaluate` of internal/judge/engine.go. The sandbox and the lifecycle callback are the
-- operations of a record over a state `S` and a type of open sandboxes `H`.
pub mod Steps
pub mod Trace
pub mod Contract
pub mod Agreement
pub mod Results
pub mod Frame
use online_coding_judge.Prelude.{
  ℕ, suc, Bool, true, false, not, List, [], ◌∷◌, ◌++◌, Bytes, Option, none, some, length, max,
  is_nonzero, ◌==◌, ◌||◌, if◌then◌else◌,
}
use online_coding_judge.Errors.{Error, Reply, ok, err, no_tests}
use online_coding_judge.Problems.{Problem, TestCase}
use online_coding_judge.Submissions.{Status, compiling, running}
use online_coding_judge.Judge.Types.{
  Job, Outcome, Result, Verdict, accepted, wrong_answer, time_limit_exceeded, memory_limit_exceeded,
  runtime_error, compilation_error, output_limit_exceeded,
}
use online_coding_judge.Judge.Compare.{compare}

-- `Factory`, `Sandbox` and the argument `transition` of `Evaluate`.
pub record Sandbox (S H : Type 0) : Type 0 where
  pub opens : Job → S → Reply H × S
  pub compile : H → S → Reply Outcome × S
  pub run : H → Bytes → S → Reply Outcome × S
  pub close : H → S → Option Error × S
  pub transition : Status → S → Option Error × S

-- The copy of the job that the factory gets.
unfoldable pub execution_of : Job → Job
execution_of job = record job { problem = record (job.problem) { tests = [] } }

-- Did the compiler fail or exceed a limit?
unfoldable pub rejects : Outcome → Bool
rejects o = is_nonzero o.exit_code || (o.timed_out || (o.oom || o.output_limited))

-- The `switch` of the loop over the tests.
unfoldable pub verdict_of : Outcome → Bytes → Verdict
verdict_of out expected =
    if out.oom
    then memory_limit_exceeded
    else if out.output_limited
    then output_limit_exceeded
    else if out.timed_out
    then time_limit_exceeded
    else if is_nonzero out.exit_code
    then runtime_error
    else if not (compare out.output expected)
    then wrong_answer
    else accepted

abbrev pub is_accepted : Verdict → Bool
is_accepted accepted = true
is_accepted _ = false

-- The deferred function: the error of closing counts if there is no other.
abbrev pub first_error : Option Error → Option Error → Option Error
first_error none closing = closing
first_error (some e) closing = some e

module _ {S H : Type 0} (sandbox : Sandbox S H) where
  -- The loop over the tests, from the result so far.
  unfoldable pub run_tests : H → Result → List TestCase → S → (Result × Option Error) × S
  run_tests h r [] s = ((r, none), s)
  run_tests h r (t ∷ ts) s =
      let (reply, s') = sandbox.run h t.input s in
      elim reply [
        | err e ↦ ((r, some e), s')
        | ok out ↦
            let v = verdict_of out t.expected in
            let r' = record r {
              verdict = some v;
              runtime_ms = max r.runtime_ms out.runtime_ms;
              memory_kb = max r.memory_kb out.memory_kb;
            } in
            let rest = run_tests h (record r' { tests_passed = suc r.tests_passed }) ts s' in
            if is_accepted v then rest else ((r', none), s')
      ]

  -- From the second transition on.
  unfoldable pub judge_tests : H → Job → Result → S → (Result × Option Error) × S
  judge_tests h job r s =
      let (refused, s') = sandbox.transition running s in
      elim refused [
        | some e ↦ ((r, some e), s')
        | none ↦ run_tests h (record r { verdict = some accepted }) job.problem.tests s'
      ]

  unfoldable pub compile_first : H → Job → Result → S → (Result × Option Error) × S
  compile_first h job r s =
      let (reply, s') = sandbox.compile h s in
      elim reply [
        | err e ↦ ((r, some e), s')
        | ok compiled ↦
            if rejects compiled
            then ((record r { verdict = some compilation_error }, none), s')
            else judge_tests h job r s'
      ]

  -- What stands between opening and closing the sandbox.
  unfoldable pub body : H → Job → Result → S → (Result × Option Error) × S
  body h job r s =
      let (refused, s') = sandbox.transition compiling s in
      elim refused [ some e ↦ ((r, some e), s') | none ↦ compile_first h job r s' ]

  unfoldable pub evaluate : Job → S → (Result × Option Error) × S
  evaluate job s =
      let r : Result = record {
        verdict = none;
        runtime_ms = 0;
        memory_kb = 0;
        tests_passed = 0;
        tests_total = length job.problem.tests;
      } in
      if r.tests_total == 0
      then ((r, some no_tests), s)
      else let (reply, s1) = sandbox.opens (execution_of job) s in
        elim reply [
          | err e ↦ ((r, some e), s1)
          | ok h ↦
              let ((r', e), s2) = body h job r s1 in
              let (closing, s3) = sandbox.close h s2 in ((r', first_error e closing), s3)
        ]
