-- ===== src/Judge/Engine/Agreement.antt =====
-- An evaluation that is recorded gives the result, and leaves the state, of one that is not.
use online_coding_judge.Prelude.{
  suc, ◌≡◌, refl, inl, inr, List, [], ◌∷◌, Option, Bool-cases, Option-cases,
}
use online_coding_judge.Errors.{Error, Reply-cases}
use online_coding_judge.Problems.{TestCase}
use online_coding_judge.Submissions.{compiling, running}
use online_coding_judge.Judge.Types.{Job, Result}
use online_coding_judge.Judge.Engine.{
  Sandbox, execution_of, rejects, verdict_of, is_accepted, run_tests, judge_tests, compile_first,
  body, first_error, evaluate,
}
use online_coding_judge.Judge.Engine.Steps.{
  fresh, counted, run_tests_err, run_tests_fail, run_tests_pass, judge_tests_err, judge_tests_ok,
  compile_first_err, compile_first_reject, compile_first_ok, body_err, body_ok,
  evaluate_without_tests, evaluate_err, evaluate_ok,
}
use online_coding_judge.Judge.Engine.Trace.{Event, recorded}
use online_coding_judge.Judge.Engine.Contract.{tests_cases}

-- The same result, and the same state next to the record.
abbrev pub Agree :
    {S : Type 0} → (Result × Option Error) × (List Event × S) → (Result × Option Error) × S → Type 0
Agree x y = (x.0 ≡ y.0) × (x.1.1 ≡ y.1)

module _ {S H : Type 0} (sb : Sandbox S H) (h : H) where
  run_tests-Agree :
      (r : Result) (ts : List TestCase) (log : List Event) (s : S)
      → Agree (run_tests (recorded sb) h r ts (log, s)) (run_tests sb h r ts s)
  unfolding run_tests
  run_tests-Agree r [] log s = (refl, refl)
  run_tests-Agree r (t ∷ ts) log s = elim (Reply-cases (sb.run h t.input s).0) [
    | inr (e, x) ↦
        rw (run_tests_err (recorded sb) h r t ts (log, s) e x, run_tests_err sb h r t ts s e x)
          (refl, refl)
    | inl (o, x) ↦ elim (Bool-cases (is_accepted (verdict_of o t.expected))) [
      | inr bad ↦
          rw
            (
              run_tests_fail (recorded sb) h r t ts (log, s) o x bad,
              run_tests_fail sb h r t ts s o x bad,
            )
            (refl, refl)
      | inl good ↦
          rw
            (
              run_tests_pass (recorded sb) h r t ts (log, s) o x good,
              run_tests_pass sb h r t ts s o x good,
            )
            (run_tests-Agree (record (counted r t o) { tests_passed = suc r.tests_passed }) ts _
              (sb.run h t.input s).1)
    ]
  ]

  judge_tests-Agree :
      (job : Job) (r : Result) (log : List Event) (s : S)
      → Agree (judge_tests (recorded sb) h job r (log, s)) (judge_tests sb h job r s)
  judge_tests-Agree job r log s = elim (Option-cases (sb.transition running s).0) [
    | inr (x, e) ↦
        rw (judge_tests_err (recorded sb) h job r (log, s) x e, judge_tests_err sb h job r s x e)
          (refl, refl)
    | inl e ↦
        rw (judge_tests_ok (recorded sb) h job r (log, s) e, judge_tests_ok sb h job r s e)
          (run_tests-Agree _ job.problem.tests _ _)
  ]

  compile_first-Agree :
      (job : Job) (r : Result) (log : List Event) (s : S)
      → Agree (compile_first (recorded sb) h job r (log, s)) (compile_first sb h job r s)
  compile_first-Agree job r log s = elim (Reply-cases (sb.compile h s).0) [
    | inr (x, e) ↦
        rw
          (compile_first_err (recorded sb) h job r (log, s) x e, compile_first_err sb h job r s x e)
          (refl, refl)
    | inl (o, e) ↦ elim (Bool-cases (rejects o)) [
      | inl bad ↦
          rw
            (
              compile_first_reject (recorded sb) h job r (log, s) o e bad,
              compile_first_reject sb h job r s o e bad,
            )
            (refl, refl)
      | inr good ↦
          rw
            (
              compile_first_ok (recorded sb) h job r (log, s) o e good,
              compile_first_ok sb h job r s o e good,
            )
            (judge_tests-Agree job r _ _)
    ]
  ]

  body-Agree :
      (job : Job) (r : Result) (log : List Event) (s : S)
      → Agree (body (recorded sb) h job r (log, s)) (body sb h job r s)
  body-Agree job r log s = elim (Option-cases (sb.transition compiling s).0) [
    | inr (x, e) ↦
        rw (body_err (recorded sb) h job r (log, s) x e, body_err sb h job r s x e) (refl, refl)
    | inl e ↦
        rw (body_ok (recorded sb) h job r (log, s) e, body_ok sb h job r s e)
          (compile_first-Agree job r _ _)
  ]

-- The end of an evaluation: the sandbox is closed.
abbrev finish :
    {S H : Type 0} → Sandbox S H → H → (Result × Option Error) × S → (Result × Option Error) × S
finish sb h b = let c = sb.close h b.1 in ((b.0.0, first_error b.0.1 c.0), c.1)

finish-Agree :
    {S H : Type 0} (sb : Sandbox S H) (h : H) (a : (Result × Option Error) × (List Event × S))
    (b : (Result × Option Error) × S)
    → Agree a b
    → Agree (finish (recorded sb) h a) (finish sb h b)
finish-Agree sb h ((r, e), (log, s)) b (same, state) = rw (← same, ← state) (refl, refl)

module _ {S H : Type 0} (sb : Sandbox S H) (job : Job) (s : S) where
  pub evaluate-Agree : Agree (evaluate (recorded sb) job ([], s)) (evaluate sb job s)
  evaluate-Agree = elim (tests_cases job.problem.tests) [
    | inl none_given ↦
        rw
          (
            evaluate_without_tests (recorded sb) job ([], s) none_given,
            evaluate_without_tests sb job s none_given,
          )
          (refl, refl)
    | inr given ↦ elim (Reply-cases (sb.opens (execution_of job) s).0) [
      | inr (x, e) ↦
          rw (evaluate_err (recorded sb) job ([], s) x given e, evaluate_err sb job s x given e)
            (refl, refl)
      | inl (h, e) ↦
          let log = ((recorded sb).opens (execution_of job) ([], s)).1.0 in
          let start = (sb.opens (execution_of job) s).1 in
          rw (evaluate_ok (recorded sb) job ([], s) h given e, evaluate_ok sb job s h given e)
            (finish-Agree sb h (body (recorded sb) h job (fresh job) (log, start)) _
              (body-Agree sb h job (fresh job) log start))
    ]
  ]
