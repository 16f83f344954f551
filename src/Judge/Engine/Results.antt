-- ===== src/Judge/Engine/Results.antt =====
-- What the result of an evaluation says, over any sandbox. Recording the calls changes nothing, so
-- the recorded protocol speaks of the evaluation itself.
use online_coding_judge.Prelude.{
  ℕ, ◌≤◌, ◌<◌, ◌≡◌, ◌≢◌, ◌↔◌, refl, subst, true, List, [], ◌∷◌, Option, none, some, is_some, length,
  arith,
}
use online_coding_judge.Errors.{Error}
use online_coding_judge.Problems.{TestCase}
use online_coding_judge.Judge.Types.{Job, Outcome, Result, Verdict, accepted}
use online_coding_judge.Judge.Engine.{Sandbox, first_error, evaluate}
use online_coding_judge.Judge.Engine.Steps.{fresh}
use online_coding_judge.Judge.Engine.Trace.{
  Event, TestRun, FirstFailure, PassedUpTo, judged, broken, at, after, all_passed, failed, passed,
}
use online_coding_judge.Judge.Engine.Contract.{
  Evaluation, without_tests, not_opened, opened_and_closed, Body, refused_compiling,
  compiling_first, Compiling, compiler_broken, rejected, compiles, Judging, refused_running, tested,
  evaluate-Evaluation,
}
use online_coding_judge.Judge.Engine.Agreement.{evaluate-Agree}

-- The outcomes judge all the tests exactly when the verdict is ACCEPTED.
FirstFailure-bounds :
    {ts : List TestCase} {outs : List Outcome} {v : Verdict} {n : ℕ}
    → FirstFailure ts outs v n
    → (n ≤ length ts) × ((v ≡ accepted) ↔ (n ≡ length ts))
FirstFailure-bounds all_passed = (omega arith, (λ _. refl, λ _. refl))
FirstFailure-bounds (failed e bad) = (omega arith, (λ x. ground arith, λ x. absurd (omega arith)))
FirstFailure-bounds (passed e f) = let ih = FirstFailure-bounds f in ground arith

PassedUpTo-bounds :
    {ts : List TestCase} {outs : List Outcome} {next : TestCase}
    → PassedUpTo ts outs next
    → length outs < length ts
PassedUpTo-bounds at = omega arith
PassedUpTo-bounds (after e p) = omega (arith, PassedUpTo-bounds p)

-- What a result says of itself.
pub record IsConsistent (job : Job) (r : Result) (e : Option Error) : Type 0 where
  pub total : r.tests_total ≡ length job.problem.tests
  pub within : r.tests_passed ≤ r.tests_total
  pub decided : e ≡ none → is_some r.verdict ≡ true
  pub all_or_not : e ≡ none → (r.verdict ≡ some accepted) ↔ (r.tests_passed ≡ r.tests_total)

TestRun-IsConsistent :
    (job : Job) (evs : List Event) (r : Result) (e : Option Error)
    → TestRun job.problem.tests (record (fresh job) { verdict = some accepted }) evs r e
    → IsConsistent job r e
TestRun-IsConsistent job evs r e (judged outs v n f x y z) =
    let bounds = FirstFailure-bounds f in ground (arith, bounds)
TestRun-IsConsistent job evs r e (broken outs next b f x y z) =
    let bounds = PassedUpTo-bounds f in ground (arith, bounds)

Judging-IsConsistent :
    (job : Job) (evs : List Event) (r : Result) (e : Option Error)
    → Judging job evs r e
    → IsConsistent job r e
Judging-IsConsistent job evs r e (refused_running x y z w) = ground arith
Judging-IsConsistent job evs r e (tested rest y run) = TestRun-IsConsistent job rest r e run

Compiling-IsConsistent :
    (job : Job) (evs : List Event) (r : Result) (e : Option Error)
    → 1 ≤ length job.problem.tests
    → Compiling job evs r e
    → IsConsistent job r e
Compiling-IsConsistent job evs r e h (compiler_broken x y z w) = ground arith
Compiling-IsConsistent job evs r e h (rejected o x y z w) = ground arith
Compiling-IsConsistent job evs r e h (compiles o rest x y j) = Judging-IsConsistent job rest r e j

Body-IsConsistent :
    (job : Job) (evs : List Event) (r : Result) (e : Option Error)
    → 1 ≤ length job.problem.tests
    → Body job evs r e
    → IsConsistent job r e
Body-IsConsistent job evs r e h (refused_compiling x y z w) = ground arith
Body-IsConsistent job evs r e h (compiling_first rest y c) = Compiling-IsConsistent job rest r e h c

length_pos : (ts : List TestCase) → ts ≢ [] → 1 ≤ length ts
length_pos [] h = absurd (h refl)
length_pos (t ∷ ts) h = omega arith

IsConsistent-closing :
    (job : Job) (r : Result) (x closing : Option Error)
    → IsConsistent job r x
    → IsConsistent job r (first_error x closing)
IsConsistent-closing job r none closing h = ground arith
IsConsistent-closing job r (some x) closing h = ground arith

Evaluation-IsConsistent :
    (job : Job) (evs : List Event) (r : Result) (e : Option Error)
    → Evaluation job evs r e
    → IsConsistent job r e
Evaluation-IsConsistent job evs r e (without_tests x y z w) = ground arith
Evaluation-IsConsistent job evs r e (not_opened x y z w) = ground arith
Evaluation-IsConsistent job evs r e (opened_and_closed middle x closing nonempty b y z) = rw z (
    IsConsistent-closing job r x closing
      (Body-IsConsistent job middle r x (length_pos _ nonempty) b))

-- Whatever the sandbox does: the result counts all the tests of the job, no more tests passed than
-- there are, an evaluation without an error gives a verdict, and that verdict is ACCEPTED exactly
-- when every test passed.
pub evaluate-IsConsistent :
    {S H : Type 0} (sb : Sandbox S H) (job : Job) (s : S)
    → let ((r, e), s') = evaluate sb job s in IsConsistent job r e
evaluate-IsConsistent sb job s =
    subst (λ x. IsConsistent job x.0 x.1) (evaluate-Agree sb job s).0
      (Evaluation-IsConsistent job _ _ _ (evaluate-Evaluation sb job s))
