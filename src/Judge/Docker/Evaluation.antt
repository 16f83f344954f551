-- ===== src/Judge/Docker/Evaluation.antt =====
-- What an evaluation leaves of its containers.
use online_coding_judge.Prelude.{
  Bool, true, List, [], Bytes, Option, none, some, ◌≡◌, refl, sym, subst, ◌⊎◌, inl, inr,
}
use online_coding_judge.Errors.{Error, Reply, ok, err, Reply-cases}
use online_coding_judge.Submissions.{Status}
use online_coding_judge.Judge.Types.{Job}
use online_coding_judge.Judge.Engine.{Sandbox, execution_of, body, evaluate}
use online_coding_judge.Judge.Engine.Steps.{fresh, evaluate_err, evaluate_ok}
use online_coding_judge.Judge.Engine.Contract.{tests_cases}
use online_coding_judge.Judge.Engine.Frame.{KeepsInside, Spans, body_keeps, evaluate_spans}
use online_coding_judge.Judge.Docker.Host.{Host}
use online_coding_judge.Judge.Docker.Session.{DockerSandbox, open_sandbox, begin, docker_sandbox}
use online_coding_judge.Judge.Docker.Pending.{tracked, Within}
use online_coding_judge.Judge.Docker.Removal.{
  noted, is_gone, compile-IsKept, run-IsKept, close-IsKept,
}
use online_coding_judge.Judge.Docker.Cleanup.{
  compiler_of, Opened, open_lem, compile_lem, run_lem, close_lem, none_left,
}

module _ {W : Type 0} (host : Host W) where
  abbrev m : Host (W × List Bytes)
  m = tracked host

  -- The caller's own work leaves the containers alone.
  abbrev pub beside :
      (Status → W → Option Error × W) → Status → W × List Bytes → Option Error × (W × List Bytes)
  beside transition to (w, pending) = let (e, w') = transition to w in (e, (w', pending))

  module _ (images : Bytes → Bytes) (done : W → Bool)
      (transition : Status → W → Option Error × W) where
    abbrev sb : Sandbox ((W × List Bytes) × Option DockerSandbox) (Unit {0})
    sb = docker_sandbox m images (λ s. done s.0) (beside transition)

    abbrev session_name : Option DockerSandbox → Option Bytes
    session_name none = none
    session_name (some d) = compiler_of d

    abbrev Clean : (W × List Bytes) × Option DockerSandbox → Type 0
    Clean (s, d) = s.1 ≡ []

    abbrev Tidy : (W × List Bytes) × Option DockerSandbox → Type 0
    Tidy (s, d) = Within (session_name d) s.1

    begin_ok :
        (r : Reply DockerSandbox) (s : W × List Bytes) (h : Unit {0})
        → Opened host r s.1
        → (begin r s).0 ≡ ok h
        → Tidy (begin r s).1
    begin_ok (ok d) s h opened e = opened
    begin_ok (err x) s h opened e = cc

    begin_err :
        (r : Reply DockerSandbox) (s : W × List Bytes) (x : Error)
        → Opened host r s.1
        → (begin r s).0 ≡ err x
        → Clean (begin r s).1
    begin_err (ok d) s x opened e = cc
    begin_err (err y) s x opened e = opened

    compile_keeps :
        (s : W × List Bytes) (d : Option DockerSandbox)
        → Tidy (s, d)
        → Tidy (sb.compile tt (s, d)).1
    compile_keeps s none h = h
    compile_keeps s (some d) h = compile_lem host (done s.0) d s h

    run_keeps :
        (input : Bytes) (s : W × List Bytes) (d : Option DockerSandbox)
        → Tidy (s, d)
        → Tidy (sb.run tt input (s, d)).1
    run_keeps input s none h = h
    run_keeps input s (some d) h = run_lem host (compiler_of d) (done s.0) d input s h

    close_cleans :
        (s : W × List Bytes) (d : Option DockerSandbox) → Tidy (s, d) → Clean (sb.close tt (s, d)).1
    close_cleans s none h = none_left host s.1 h
    close_cleans s (some d) h = close_lem host d s h

    sb-Spans : Spans Tidy Clean sb
    sb-Spans = record {
      opening = λ job (s, d) q h e. begin_ok _ _ h (open_lem host images (done s.0) job s q) e;
      refused = λ job (s, d) q x e. begin_err _ _ x (open_lem host images (done s.0) job s q) e;
      inside = record {
        compile = λ h (s, d) p. compile_keeps s d p;
        run = λ h input (s, d) p. run_keeps input s d p;
        transition = λ to (s, d) p. p;
      };
      closing = λ h (s, d) p. close_cleans s d p;
    }

  -- Every container that was asked for, also by a creation that failed, has been asked to be removed
  -- when `Evaluate` returns.
  evaluate_asks :
      (images : Bytes → Bytes) (done : W → Bool) (transition : Status → W → Option Error × W)
      (job : Job) (w : W)
      → let (reply, ((w', pending), session)) =
          evaluate
            (docker_sandbox m images (λ s. done s.0) (beside transition))
            job
            ((w, []), none) in
        pending ≡ []
  evaluate_asks images done transition job w =
      evaluate_spans _ _ (sb images done transition) (sb-Spans images done transition) job
        ((w, []), none) refl

-- The container of this name is reported to be removed, or still held.
abbrev pub Removed : Option Bytes → List Bytes → Option Bytes → Type 0
Removed none gone held = Unit
Removed (some n) gone held = (is_gone n gone ≡ true) ⊎ (held ≡ some n)

abbrev pub compiler_name : Option DockerSandbox → Option Bytes
compiler_name none = none
compiler_name (some d) = compiler_of d

module _ {W : Type 0} (host : Host W) (images : Bytes → Bytes) (done : W → Bool)
    (transition : Status → W → Option Error × W) where
  -- The docker sandbox over the two monitors.
  abbrev pub watched : Sandbox (((W × List Bytes) × List Bytes) × Option DockerSandbox) (Unit {0})
  watched =
      docker_sandbox (tracked (noted host)) images (λ s. done s.0.0)
        (beside (noted host) (beside host transition))

  abbrev Kept : Bytes → ((W × List Bytes) × List Bytes) × Option DockerSandbox → Type 0
  Kept n (s, d) = (is_gone n s.0.1 ≡ true) ⊎ (compiler_name d ≡ some n)

  Kept-compile :
      (n : Bytes) (s : (W × List Bytes) × List Bytes) (d : Option DockerSandbox)
      → Kept n (s, d)
      → Kept n (watched.compile tt (s, d)).1
  Kept-compile n s none h = h
  Kept-compile n s (some d) h = compile-IsKept host n (done s.0.0) d s h

  Kept-run :
      (n input : Bytes) (s : (W × List Bytes) × List Bytes) (d : Option DockerSandbox)
      → Kept n (s, d)
      → Kept n (watched.run tt input (s, d)).1
  Kept-run n input s none h = h
  Kept-run n input s (some d) h = run-IsKept host n (done s.0.0) d input s h

  Kept-close :
      (n : Bytes) (s : (W × List Bytes) × List Bytes) (d : Option DockerSandbox)
      → Kept n (s, d)
      → Kept n (watched.close tt (s, d)).1
  Kept-close n s none h = h
  Kept-close n s (some d) h = close-IsKept host n d s h

  Kept-KeepsInside : (n : Bytes) → KeepsInside (Kept n) watched
  Kept-KeepsInside n = record {
    compile = λ h (s, d) p. Kept-compile n s d p;
    run = λ h input (s, d) p. Kept-run n input s d p;
    transition = λ to (s, d) p. p;
  }

  -- From an opened session on.
  finished :
      (job : Job) (o : Option Bytes) (h : Unit {0})
      (s : ((W × List Bytes) × List Bytes) × Option DockerSandbox)
      → compiler_name s.1 ≡ o
      → let end = (watched.close h (body watched h job (fresh job) s).1).1 in
        Removed o end.0.0.1 (compiler_name end.1)
  finished job none h s e = tt
  finished job (some n) h s e =
      Kept-close n _ _
        (body_keeps (Kept n) watched (Kept-KeepsInside n) h job (fresh job) s (inr e))

  refused_name :
      (job : Job) (s : (W × List Bytes) × List Bytes) (x : Error)
      → (watched.opens job (s, none)).0 ≡ err x
      → compiler_name (watched.opens job (s, none)).1.1 ≡ none
  refused_name job s x e =
      begun_name (open_sandbox (tracked (noted host)) images (done s.0.0) job s).0 _ e
    where
      begun_name :
          (r : Reply DockerSandbox) (t : (W × List Bytes) × List Bytes)
          → (begin r t).0 ≡ err x
          → compiler_name (begin r t).1.1 ≡ none
      begun_name (ok d) t e' = cc
      begun_name (err y) t e' = refl

  unopened :
      (job : Job) (x : Error) (s : (W × List Bytes) × List Bytes)
      → (watched.opens (execution_of job) (s, none)).0 ≡ err x
      → let (t, d) = (watched.opens (execution_of job) (s, none)).1 in
        Removed (compiler_name d) t.0.1 (compiler_name d)
  unopened job x s e =
      let (t, d) = (watched.opens (execution_of job) (s, none)).1 in
      subst (λ o. Removed o t.0.1 (compiler_name d)) (sym (refused_name (execution_of job) s x e))
        tt

  -- Whatever the docker client, the files of the host and the random source reply, whenever the
  -- context ends and whatever the transitions do: when `Evaluate` over the docker sandbox returns,
  -- with a result or with an error, every container that was asked for, also by a creation that
  -- failed, has been asked to be removed. The compiler's container that `Open` gave is not forgotten
  -- when its removal fails: the client has reported one of its removals to have worked, or the
  -- session, which `Close` has left, still holds it.
  pub evaluate_cleans :
      (job : Job) (w : W)
      → let start : ((W × List Bytes) × List Bytes) × Option DockerSandbox =
          (((w, []), []), none) in
        let (reply, (((w', gone), pending), session)) = evaluate watched job start in
        let opened = (watched.opens (execution_of job) start).1.1 in
        (pending ≡ [])
        × ((job.problem.tests ≡ []) ⊎ Removed (compiler_name opened) gone (compiler_name session))
  evaluate_cleans job w = (
    evaluate_asks (noted host) images (λ s. done s.0) (beside host transition) job (w, []),
    elim (tests_cases job.problem.tests) [
      | inl nothing ↦ inl nothing
      | inr given ↦ inr (elim (Reply-cases (watched.opens (execution_of job) start).0) [
        | inr (x, e) ↦
            rw (evaluate_err watched job start x given e) (unopened job x ((w, []), []) e)
        | inl (h, e) ↦
            rw (evaluate_ok watched job start h given e)
              (finished job _ h (watched.opens (execution_of job) start).1 refl)
      ])
    ],
  )
    where
      start : ((W × List Bytes) × List Bytes) × Option DockerSandbox
      start = (((w, []), []), none)
