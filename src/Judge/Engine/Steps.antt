-- ===== src/Judge/Engine/Steps.antt =====
-- One step of the evaluation for each reply of the sandbox.
use online_coding_judge.Prelude.{
  suc, ◌≡◌, ◌≢◌, refl, true, false, List, [], ◌∷◌, none, some, length, max, arith, ◌==◌,
}
use online_coding_judge.Errors.{Error, no_tests, ok, err}
use online_coding_judge.Problems.{TestCase}
use online_coding_judge.Submissions.{compiling, running}
use online_coding_judge.Judge.Types.{Job, Outcome, Result, Verdict, accepted, compilation_error}
use online_coding_judge.Judge.Engine.{
  Sandbox, execution_of, rejects, verdict_of, is_accepted, run_tests, judge_tests, compile_first,
  body, first_error, evaluate,
}

pub is_accepted_eq : (v : Verdict) → is_accepted v ≡ true → v ≡ accepted
is_accepted_eq v h = ground arith

-- The result with the outcome counted.
abbrev pub counted : Result → TestCase → Outcome → Result
counted r t o = record r {
  verdict = some (verdict_of o t.expected);
  runtime_ms = max r.runtime_ms o.runtime_ms;
  memory_kb = max r.memory_kb o.memory_kb;
}

module _ {S H : Type 0} (sb : Sandbox S H) (h : H) (r : Result) (t : TestCase) (ts : List TestCase)
    (s : S) where
  pub run_tests_err :
      (e : Error)
      → (sb.run h t.input s).0 ≡ err e
      → run_tests sb h r (t ∷ ts) s ≡ ((r, some e), (sb.run h t.input s).1)
  unfolding run_tests
  run_tests_err e x = rw (x, run_tests)

  pub run_tests_fail :
      (o : Outcome)
      → (sb.run h t.input s).0 ≡ ok o
      → is_accepted (verdict_of o t.expected) ≡ false
      → run_tests sb h r (t ∷ ts) s ≡ ((counted r t o, none), (sb.run h t.input s).1)
  unfolding run_tests
  run_tests_fail o x y = rw (x, run_tests) (rw y)

  pub run_tests_pass :
      (o : Outcome)
      → (sb.run h t.input s).0 ≡ ok o
      → is_accepted (verdict_of o t.expected) ≡ true
      → run_tests sb h r (t ∷ ts) s
        ≡ run_tests sb h
            (record (counted r t o) { tests_passed = suc r.tests_passed })
            ts
            (sb.run h t.input s).1
  unfolding run_tests
  run_tests_pass o x y = rw (x, run_tests) (rw y)

module _ {S H : Type 0} (sb : Sandbox S H) (h : H) (job : Job) (r : Result) (s : S) where
  pub judge_tests_err :
      (x : Error)
      → (sb.transition running s).0 ≡ some x
      → judge_tests sb h job r s ≡ ((r, some x), (sb.transition running s).1)
  unfolding judge_tests
  judge_tests_err x e = rw (e, judge_tests)

  pub judge_tests_ok :
      (sb.transition running s).0 ≡ none
      → judge_tests sb h job r s
        ≡ run_tests sb h
            (record r { verdict = some accepted })
            job.problem.tests
            (sb.transition running s).1
  unfolding judge_tests
  judge_tests_ok e = rw (e, judge_tests)

  pub compile_first_err :
      (x : Error)
      → (sb.compile h s).0 ≡ err x
      → compile_first sb h job r s ≡ ((r, some x), (sb.compile h s).1)
  unfolding compile_first
  compile_first_err x e = rw (e, compile_first)

  pub compile_first_reject :
      (o : Outcome)
      → (sb.compile h s).0 ≡ ok o
      → rejects o ≡ true
      → compile_first sb h job r s
        ≡ ((record r { verdict = some compilation_error }, none), (sb.compile h s).1)
  unfolding compile_first
  compile_first_reject o e bad = rw (e, compile_first) (rw bad)

  pub compile_first_ok :
      (o : Outcome)
      → (sb.compile h s).0 ≡ ok o
      → rejects o ≡ false
      → compile_first sb h job r s ≡ judge_tests sb h job r (sb.compile h s).1
  unfolding compile_first
  compile_first_ok o e good = rw (e, compile_first) (rw good)

  pub body_err :
      (x : Error)
      → (sb.transition compiling s).0 ≡ some x
      → body sb h job r s ≡ ((r, some x), (sb.transition compiling s).1)
  unfolding body
  body_err x e = rw (e, body)

  pub body_ok :
      (sb.transition compiling s).0 ≡ none
      → body sb h job r s ≡ compile_first sb h job r (sb.transition compiling s).1
  unfolding body
  body_ok e = rw (e, body)

-- The result before the first test.
abbrev pub fresh : Job → Result
fresh job = record {
  verdict = none;
  runtime_ms = 0;
  memory_kb = 0;
  tests_passed = 0;
  tests_total = length job.problem.tests;
}

length_test : (ts : List TestCase) → ts ≢ [] → (length ts == 0) ≡ false
length_test [] h = absurd (h refl)
length_test (t ∷ ts) h = ground arith

module _ {S H : Type 0} (sb : Sandbox S H) (job : Job) (s : S) where
  pub evaluate_without_tests :
      job.problem.tests ≡ [] → evaluate sb job s ≡ ((fresh job, some no_tests), s)
  unfolding evaluate
  evaluate_without_tests e = rw (e, evaluate)

  pub evaluate_err :
      (x : Error)
      → job.problem.tests ≢ []
      → (sb.opens (execution_of job) s).0 ≡ err x
      → evaluate sb job s ≡ ((fresh job, some x), (sb.opens (execution_of job) s).1)
  unfolding evaluate
  evaluate_err x nonempty e = rw (length_test _ nonempty, evaluate) (rw e)

  pub evaluate_ok :
      (h : H)
      → job.problem.tests ≢ []
      → (sb.opens (execution_of job) s).0 ≡ ok h
      → evaluate sb job s ≡ (
          let b = body sb h job (fresh job) (sb.opens (execution_of job) s).1 in
          let c = sb.close h b.1 in ((b.0.0, first_error b.0.1 c.0), c.1))
  unfolding evaluate
  evaluate_ok h nonempty e = rw (length_test _ nonempty, evaluate) (rw e)
