-- ===== src/Judge/Engine/Frame.antt =====
-- What every operation of the sandbox keeps, an evaluation keeps.
use online_coding_judge.Prelude.{◌≡◌, suc, inl, inr, List, [], ◌∷◌, Bytes, Bool-cases, Option-cases}
use online_coding_judge.Errors.{Error, ok, err, Reply-cases}
use online_coding_judge.Problems.{TestCase}
use online_coding_judge.Submissions.{Status, compiling, running}
use online_coding_judge.Judge.Types.{Job, Result}
use online_coding_judge.Judge.Engine.{
  Sandbox, execution_of, rejects, verdict_of, is_accepted, run_tests, judge_tests, compile_first,
  body, evaluate,
}
use online_coding_judge.Judge.Engine.Steps.{
  fresh, counted, run_tests_err, run_tests_fail, run_tests_pass, judge_tests_err, judge_tests_ok,
  compile_first_err, compile_first_reject, compile_first_ok, body_err, body_ok,
  evaluate_without_tests, evaluate_err, evaluate_ok,
}
use online_coding_judge.Judge.Engine.Contract.{tests_cases}

-- The operations between opening and closing the sandbox keep `P`.
pub record KeepsInside {S H : Type 0} (P : S → Type 0) (sb : Sandbox S H) : Type 0 where
  pub compile : (h : H) (s : S) → P s → P (sb.compile h s).1
  pub run : (h : H) (i : Bytes) (s : S) → P s → P (sb.run h i s).1
  pub transition : (to : Status) (s : S) → P s → P (sb.transition to s).1

pub record Keeps {S H : Type 0} (P : S → Type 0) (sb : Sandbox S H) : Type 0 where
  pub opens : (job : Job) (s : S) → P s → P (sb.opens job s).1
  pub inside : KeepsInside P sb
  pub close : (h : H) (s : S) → P s → P (sb.close h s).1

-- Opening the sandbox leads from `Q` to `P` or fails within `Q`, and closing it leads back.
pub record Spans {S H : Type 0} (P Q : S → Type 0) (sb : Sandbox S H) : Type 0 where
  pub opening :
      (job : Job) (s : S) → Q s → (h : H) → (sb.opens job s).0 ≡ ok h → P (sb.opens job s).1
  pub refused :
      (job : Job) (s : S) → Q s → (e : Error) → (sb.opens job s).0 ≡ err e → Q (sb.opens job s).1
  pub inside : KeepsInside P sb
  pub closing : (h : H) (s : S) → P s → Q (sb.close h s).1

module _ {S H : Type 0} (P : S → Type 0) (sb : Sandbox S H) (keeps : KeepsInside P sb) where
  run_tests_keeps :
      (h : H) (r : Result) (ts : List TestCase) (s : S) → P s → P (run_tests sb h r ts s).1
  unfolding run_tests
  run_tests_keeps h r [] s p = p
  run_tests_keeps h r (t ∷ ts) s p = elim (Reply-cases (sb.run h t.input s).0) [
    | inr (e, x) ↦ rw (run_tests_err sb h r t ts s e x) (keeps.run h t.input s p)
    | inl (o, x) ↦ elim (Bool-cases (is_accepted (verdict_of o t.expected))) [
      | inr bad ↦ rw (run_tests_fail sb h r t ts s o x bad) (keeps.run h t.input s p)
      | inl good ↦ rw (run_tests_pass sb h r t ts s o x good) (
          run_tests_keeps h (record (counted r t o) { tests_passed = suc r.tests_passed }) ts
            (sb.run h t.input s).1 (keeps.run h t.input s p))
    ]
  ]

  judge_tests_keeps :
      (h : H) (job : Job) (r : Result) (s : S) → P s → P (judge_tests sb h job r s).1
  judge_tests_keeps h job r s p = elim (Option-cases (sb.transition running s).0) [
    | inr (x, e) ↦ rw (judge_tests_err sb h job r s x e) (keeps.transition running s p)
    | inl e ↦
        rw (judge_tests_ok sb h job r s e)
          (run_tests_keeps h _ job.problem.tests _ (keeps.transition running s p))
  ]

  compile_first_keeps :
      (h : H) (job : Job) (r : Result) (s : S) → P s → P (compile_first sb h job r s).1
  compile_first_keeps h job r s p = elim (Reply-cases (sb.compile h s).0) [
    | inr (x, e) ↦ rw (compile_first_err sb h job r s x e) (keeps.compile h s p)
    | inl (o, e) ↦ elim (Bool-cases (rejects o)) [
      | inl bad ↦ rw (compile_first_reject sb h job r s o e bad) (keeps.compile h s p)
      | inr good ↦
          rw (compile_first_ok sb h job r s o e good)
            (judge_tests_keeps h job r _ (keeps.compile h s p))
    ]
  ]

  pub body_keeps : (h : H) (job : Job) (r : Result) (s : S) → P s → P (body sb h job r s).1
  body_keeps h job r s p = elim (Option-cases (sb.transition compiling s).0) [
    | inr (x, e) ↦ rw (body_err sb h job r s x e) (keeps.transition compiling s p)
    | inl e ↦
        rw (body_ok sb h job r s e) (compile_first_keeps h job r _ (keeps.transition compiling s p))
  ]

module _ {S H : Type 0} (P Q : S → Type 0) (sb : Sandbox S H) (spans : Spans P Q sb) where
  pub evaluate_spans : (job : Job) (s : S) → Q s → Q (evaluate sb job s).1
  evaluate_spans job s q = elim (tests_cases job.problem.tests) [
    | inl nothing ↦ rw (evaluate_without_tests sb job s nothing) q
    | inr given ↦ elim (Reply-cases (sb.opens (execution_of job) s).0) [
      | inr (x, e) ↦ rw (evaluate_err sb job s x given e) (spans.refused _ s q x e)
      | inl (h, e) ↦ rw (evaluate_ok sb job s h given e) (
          spans.closing h _
            (body_keeps P sb spans.inside h job (fresh job) _ (spans.opening _ s q h e)))
    ]
  ]

module _ {S H : Type 0} (P : S → Type 0) (sb : Sandbox S H) (keeps : Keeps P sb) where
  pub evaluate_keeps : (job : Job) (s : S) → P s → P (evaluate sb job s).1
  evaluate_keeps job s p =
      evaluate_spans P P sb
        (record {
          opening = λ j t q h e. keeps.opens j t q;
          refused = λ j t q x e. keeps.opens j t q;
          inside = keeps.inside;
          closing = keeps.close;
        })
        job s p
