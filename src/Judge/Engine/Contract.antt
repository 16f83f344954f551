-- ===== src/Judge/Engine/Contract.antt =====
-- What `Evaluate` promises, over any sandbox: which calls it makes, in which order, and what its
-- result says of them.
use online_coding_judge.Prelude.{
  ◌≡◌, ◌⊎◌, ◌≢◌, refl, ap, ◌∙◌, inl, inr, true, false, List, [], ◌∷◌, ◌++◌, Option, none, some,
  Bool-cases, Option-cases, append_assoc,
}
use online_coding_judge.Errors.{Error, no_tests, ok, err, Reply-cases}
use online_coding_judge.Problems.{TestCase}
use online_coding_judge.Submissions.{compiling, running}
use online_coding_judge.Judge.Types.{Job, Outcome, Result, accepted, compilation_error}
use online_coding_judge.Judge.Engine.{
  Sandbox, execution_of, rejects, judge_tests, compile_first, body, first_error, evaluate,
}
use online_coding_judge.Judge.Engine.Steps.{
  fresh, judge_tests_err, judge_tests_ok, compile_first_err, compile_first_reject, compile_first_ok,
  body_err, body_ok, evaluate_without_tests, evaluate_err, evaluate_ok,
}
use online_coding_judge.Judge.Engine.Trace.{
  Event, opened, transitioned, compiled, closed, recorded, TestRun, run_tests-TestRun,
}

-- From the second transition on.
pub data Judging (job : Job) (evs : List Event) (r : Result) (e : Option Error) : Type 0 where
  refused_running :
      (x : Error)
      → evs ≡ transitioned running (some x) ∷ []
      → r ≡ fresh job
      → e ≡ some x
      → Judging job evs r e
  tested :
      (rest : List Event)
      → evs ≡ transitioned running none ∷ rest
      → TestRun job.problem.tests (record (fresh job) { verdict = some accepted }) rest r e
      → Judging job evs r e

-- From the compilation on.
pub data Compiling (job : Job) (evs : List Event) (r : Result) (e : Option Error) : Type 0 where
  compiler_broken :
      (x : Error) → evs ≡ compiled (err x) ∷ [] → r ≡ fresh job → e ≡ some x → Compiling job evs r e
  rejected :
      (o : Outcome)
      → rejects o ≡ true
      → evs ≡ compiled (ok o) ∷ []
      → r ≡ record (fresh job) { verdict = some compilation_error }
      → e ≡ none
      → Compiling job evs r e
  compiles :
      (o : Outcome) (rest : List Event)
      → rejects o ≡ false
      → evs ≡ compiled (ok o) ∷ rest
      → Judging job rest r e
      → Compiling job evs r e

-- Between opening and closing the sandbox.
pub data Body (job : Job) (evs : List Event) (r : Result) (e : Option Error) : Type 0 where
  refused_compiling :
      (x : Error)
      → evs ≡ transitioned compiling (some x) ∷ []
      → r ≡ fresh job
      → e ≡ some x
      → Body job evs r e
  compiling_first :
      (rest : List Event)
      → evs ≡ transitioned compiling none ∷ rest
      → Compiling job rest r e
      → Body job evs r e

-- The whole evaluation. An opened sandbox is closed once, last; it is opened on the job without
-- its tests.
pub data Evaluation (job : Job) (evs : List Event) (r : Result) (e : Option Error) : Type 0 where
  without_tests :
      job.problem.tests ≡ [] → evs ≡ [] → r ≡ fresh job → e ≡ some no_tests → Evaluation job evs r e
  not_opened :
      (x : Error)
      → evs ≡ opened (execution_of job) (some x) ∷ []
      → r ≡ fresh job
      → e ≡ some x
      → Evaluation job evs r e
  opened_and_closed :
      (middle : List Event) (x closing : Option Error)
      → job.problem.tests ≢ []
      → Body job middle r x
      → evs ≡ opened (execution_of job) none ∷ (middle ++ (closed closing ∷ []))
      → e ≡ first_error x closing
      → Evaluation job evs r e

module _ {S H : Type 0} (sb : Sandbox S H) (h : H) (job : Job) where
  abbrev rsb : Sandbox (List Event × S) H
  rsb = recorded sb

  judge_tests-Judging :
      (log : List Event) (s : S)
      → let ((r, e), (log', s')) = judge_tests (recorded sb) h job (fresh job) (log, s) in
        (evs : List Event) × (log' ≡ log ++ evs) × Judging job evs r e
  judge_tests-Judging log s = elim (Option-cases (sb.transition running s).0) [
    | inr (x, refused) ↦
        rw (judge_tests_err rsb h job (fresh job) (log, s) x refused, refused)
          (transitioned running (some x) ∷ [], refl, refused_running x refl refl refl)
    | inl admitted ↦
        let (evs, added, run) =
          run_tests-TestRun sb h (record (fresh job) { verdict = some accepted }) job.problem.tests
            (log ++ (transitioned running none ∷ [])) (sb.transition running s).1 refl in
        rw (judge_tests_ok rsb h job (fresh job) (log, s) admitted, admitted)
          (
            transitioned running none ∷ evs,
            added ∙ append_assoc log (transitioned running none ∷ []) evs,
            tested evs refl run,
          )
  ]

  compile_first-Compiling :
      (log : List Event) (s : S)
      → let ((r, e), (log', s')) = compile_first (recorded sb) h job (fresh job) (log, s) in
        (evs : List Event) × (log' ≡ log ++ evs) × Compiling job evs r e
  compile_first-Compiling log s = elim (Reply-cases (sb.compile h s).0) [
    | inr (x, broke) ↦
        rw (compile_first_err rsb h job (fresh job) (log, s) x broke, broke)
          (compiled (err x) ∷ [], refl, compiler_broken x refl refl refl)
    | inl (o, replied) ↦ elim (Bool-cases (rejects o)) [
      | inl bad ↦
          rw (compile_first_reject rsb h job (fresh job) (log, s) o replied bad, replied)
            (compiled (ok o) ∷ [], refl, rejected o bad refl refl refl)
      | inr good ↦
          let (evs, added, run) =
            judge_tests-Judging (log ++ (compiled (ok o) ∷ [])) (sb.compile h s).1 in
          rw (compile_first_ok rsb h job (fresh job) (log, s) o replied good, replied)
            (
              compiled (ok o) ∷ evs,
              added ∙ append_assoc log (compiled (ok o) ∷ []) evs,
              compiles o evs good refl run,
            )
    ]
  ]

  body-Body :
      (log : List Event) (s : S)
      → let ((r, e), (log', s')) = body (recorded sb) h job (fresh job) (log, s) in
        (evs : List Event) × (log' ≡ log ++ evs) × Body job evs r e
  body-Body log s = elim (Option-cases (sb.transition compiling s).0) [
    | inr (x, refused) ↦
        rw (body_err rsb h job (fresh job) (log, s) x refused, refused)
          (transitioned compiling (some x) ∷ [], refl, refused_compiling x refl refl refl)
    | inl admitted ↦
        let (evs, added, run) =
          compile_first-Compiling (log ++ (transitioned compiling none ∷ []))
            (sb.transition compiling s).1 in
        rw (body_ok rsb h job (fresh job) (log, s) admitted, admitted)
          (
            transitioned compiling none ∷ evs,
            added ∙ append_assoc log (transitioned compiling none ∷ []) evs,
            compiling_first evs refl run,
          )
  ]

pub tests_cases : (ts : List TestCase) → (ts ≡ []) ⊎ (ts ≢ [])
tests_cases [] = inl refl
tests_cases (t ∷ ts) = inr (λ e. cc)

-- Whatever the sandbox does, an evaluation makes its calls in the order of the protocol: it opens
-- the sandbox on a job without tests, moves to COMPILING, compiles, moves to RUNNING, runs the
-- tests in order up to the first that is not accepted, stops at the first error, and closes an
-- opened sandbox once and last; its result and error are the ones that these replies give.
pub evaluate-Evaluation :
    {S H : Type 0} (sb : Sandbox S H) (job : Job) (s : S)
    → let ((r, e), (log, s')) = evaluate (recorded sb) job ([], s) in Evaluation job log r e
evaluate-Evaluation sb job s = elim (tests_cases job.problem.tests) [
  | inl nothing ↦
      rw (evaluate_without_tests (recorded sb) job ([], s) nothing)
        (without_tests nothing refl refl refl)
  | inr nonempty ↦ elim (Reply-cases (sb.opens (execution_of job) s).0) [
    | inr (x, failed) ↦
        rw (evaluate_err (recorded sb) job ([], s) x nonempty failed, failed)
          (not_opened x refl refl refl)
    | inl (h, started) ↦
        let (middle, added, run) =
          body-Body sb h job (opened (execution_of job) none ∷ [])
            (sb.opens (execution_of job) s).1 in
        let ended =
          body (recorded sb) h job (fresh job)
            (opened (execution_of job) none ∷ [], (sb.opens (execution_of job) s).1) in
        rw (evaluate_ok (recorded sb) job ([], s) h nonempty started, started)
          (opened_and_closed middle _ (sb.close h (ended.1.1)).0 nonempty run
            (ap (λ l. l ++ (closed (sb.close h (ended.1.1)).0 ∷ [])) added) refl)
  ]
]
