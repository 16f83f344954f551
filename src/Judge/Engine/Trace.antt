-- ===== src/Judge/Engine/Trace.antt =====
-- The calls that `Evaluate` makes, recorded, and what its loop over the tests does.
use online_coding_judge.Prelude.{
  ℕ, suc, ◌+◌, ◌≡◌, refl, ap, ◌∙◌, inl, inr, false, List, [], ◌∷◌, ◌++◌, Bytes, Option, none, some,
  length, max, arith, Bool-cases, append_assoc, append-nil,
}
use online_coding_judge.Errors.{Error, Reply, ok, err, Reply-cases}
use online_coding_judge.Problems.{TestCase}
use online_coding_judge.Submissions.{Status}
use online_coding_judge.Judge.Types.{Job, Outcome, Result, Verdict, accepted}
use online_coding_judge.Judge.Engine.{Sandbox, verdict_of, is_accepted, run_tests}
use online_coding_judge.Judge.Engine.Steps.{
  is_accepted_eq, counted, run_tests_err, run_tests_fail, run_tests_pass,
}

pub data Event : Type 0 where
  opened : Job → Option Error → Event
  transitioned : Status → Option Error → Event
  compiled : Reply Outcome → Event
  ran : Bytes → Reply Outcome → Event
  closed : Option Error → Event

abbrev error_of {ℓ} : {A : Type ℓ} → Reply A → Option Error
error_of (ok a) = none
error_of (err e) = some e

-- The sandbox that also keeps a record of the calls and of their replies.
abbrev pub recorded : {S H : Type 0} → Sandbox S H → Sandbox (List Event × S) H
recorded sb = record {
  opens = λ job (log, s).
      let (reply, s') = sb.opens job s in (reply, (log ++ (opened job (error_of reply) ∷ []), s'));
  compile =
      λ h (log, s). let (reply, s') = sb.compile h s in (reply, (log ++ (compiled reply ∷ []), s'));
  run = λ h i (log, s). let (reply, s') = sb.run h i s in (reply, (log ++ (ran i reply ∷ []), s'));
  close = λ h (log, s). let (reply, s') = sb.close h s in (reply, (log ++ (closed reply ∷ []), s'));
  transition = λ to (log, s).
      let (reply, s') = sb.transition to s in (reply, (log ++ (transitioned to reply ∷ []), s'));
}

-- The outcomes of the tests that ran, up to the first that is not accepted: the verdict, and the
-- number of tests accepted before it.
pub data FirstFailure : List TestCase → List Outcome → Verdict → ℕ → Type 0 where
  all_passed : FirstFailure [] [] accepted 0
  failed :
      {t : TestCase} {ts : List TestCase} {o : Outcome} {v : Verdict}
      → verdict_of o t.expected ≡ v
      → is_accepted v ≡ false
      → FirstFailure (t ∷ ts) (o ∷ []) v 0
  passed :
      {t : TestCase} {ts : List TestCase} {o : Outcome} {outs : List Outcome} {v : Verdict} {n : ℕ}
      → verdict_of o t.expected ≡ accepted
      → FirstFailure ts outs v n
      → FirstFailure (t ∷ ts) (o ∷ outs) v (suc n)

-- The tests of all the outcomes were accepted, and `next` is the test after them.
pub data PassedUpTo : List TestCase → List Outcome → TestCase → Type 0 where
  at : {t : TestCase} {ts : List TestCase} → PassedUpTo (t ∷ ts) [] t
  after :
      {t next : TestCase} {ts : List TestCase} {o : Outcome} {outs : List Outcome}
      → verdict_of o t.expected ≡ accepted
      → PassedUpTo ts outs next
      → PassedUpTo (t ∷ ts) (o ∷ outs) next

-- One run for each outcome, on the inputs of the tests in order.
abbrev pub runs : List TestCase → List Outcome → List Event
runs ts [] = []
runs [] (o ∷ outs) = []
runs (t ∷ ts) (o ∷ outs) = ran t.input (ok o) ∷ runs ts outs

abbrev pub longest : ℕ → List Outcome → ℕ
longest m [] = m
longest m (o ∷ outs) = longest (max m o.runtime_ms) outs

abbrev pub largest : ℕ → List Outcome → ℕ
largest m [] = m
largest m (o ∷ outs) = largest (max m o.memory_kb) outs

-- The result `r` after the outcomes, `n` more of them accepted.
abbrev pub tally : Result → Verdict → ℕ → List Outcome → Result
tally r v n outs = record r {
  verdict = some v;
  runtime_ms = longest r.runtime_ms outs;
  memory_kb = largest r.memory_kb outs;
  tests_passed = r.tests_passed + n;
}

-- A run over the tests: to the first failing test or the end, or to an error of the sandbox.
pub data TestRun (ts : List TestCase) (r : Result) (evs : List Event) (r' : Result)
    (e : Option Error) : Type 0 where
  judged :
      (outs : List Outcome) (v : Verdict) (n : ℕ)
      → FirstFailure ts outs v n
      → e ≡ none
      → evs ≡ runs ts outs
      → r' ≡ tally r v n outs
      → TestRun ts r evs r' e
  broken :
      (outs : List Outcome) (next : TestCase) (x : Error)
      → PassedUpTo ts outs next
      → e ≡ some x
      → evs ≡ runs ts outs ++ (ran next.input (err x) ∷ [])
      → r' ≡ tally r accepted (length outs) outs
      → TestRun ts r evs r' e

-- One more accepted outcome in front.
TestRun_after :
    (t : TestCase) (ts : List TestCase) (o : Outcome) (r : Result) (evs : List Event) (r' : Result)
    (e : Option Error)
    → verdict_of o t.expected ≡ accepted
    → TestRun ts
        (record r {
          verdict = some (verdict_of o t.expected);
          runtime_ms = max r.runtime_ms o.runtime_ms;
          memory_kb = max r.memory_kb o.memory_kb;
          tests_passed = suc r.tests_passed;
        })
        evs
        r'
        e
    → TestRun (t ∷ ts) r (ran t.input (ok o) ∷ evs) r' e
TestRun_after t ts o r evs r' e h (judged outs v n f x y z) =
    judged (o ∷ outs) v (suc n) (passed h f) x (rw y) (ground arith)
TestRun_after t ts o r evs r' e h (broken outs next b f x y z) =
    broken (o ∷ outs) next b (after h f) x (rw y) (ground arith)

module _ {S H : Type 0} (sb : Sandbox S H) where
  -- The events that a run over the tests adds to the record.
  abbrev Adds : H → Result → List TestCase → List Event → S → Type 0
  Adds h r ts log s =
      let ((r', e), (log', s')) = run_tests (recorded sb) h r ts (log, s) in
      (evs : List Event) × (log' ≡ log ++ evs) × TestRun ts r evs r' e

  pub run_tests-TestRun :
      (h : H) (r : Result) (ts : List TestCase) (log : List Event) (s : S)
      → r.verdict ≡ some accepted
      → Adds h r ts log s
  unfolding run_tests
  run_tests-TestRun h r [] log s a =
      ([], rw append-nil, judged [] accepted 0 all_passed refl refl (ground arith))
  run_tests-TestRun h r (t ∷ ts) log s a = elim (Reply-cases (sb.run h t.input s).0) [
    | inr (e, broke) ↦
        rw (run_tests_err (recorded sb) h r t ts (log, s) e broke, broke)
          (ran t.input (err e) ∷ [], refl, broken [] t e at refl refl (ground (arith, a)))
    | inl (o, replied) ↦ elim (Bool-cases (is_accepted (verdict_of o t.expected))) [
      | inr bad ↦
          rw (run_tests_fail (recorded sb) h r t ts (log, s) o replied bad, replied)
            (
              ran t.input (ok o) ∷ [],
              refl,
              judged (o ∷ []) _ 0 (failed refl bad) refl refl (ground arith),
            )
      | inl good ↦
          let g = is_accepted_eq _ good in
          let r1 = record (counted r t o) { tests_passed = suc r.tests_passed } in
          let (evs, added, run) =
            run_tests-TestRun h r1 ts (log ++ (ran t.input (ok o) ∷ [])) (sb.run h t.input s).1
              (ap some g) in
          rw (run_tests_pass (recorded sb) h r t ts (log, s) o replied good, replied)
            (
              ran t.input (ok o) ∷ evs,
              added ∙ append_assoc log (ran t.input (ok o) ∷ []) evs,
              TestRun_after t ts o r evs _ _ g run,
            )
    ]
  ]
