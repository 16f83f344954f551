-- ===== src/Judge/Worker/Beating.antt =====
-- While a job is evaluated, the heartbeat and the calls of the evaluation leave it in that phase.
use online_coding_judge.Prelude.{
  ℕ, zero, suc, ◌≡◌, refl, ◌⊎◌, inl, inr, Option, none, some, Bool-cases, Option-cases, ◌∙◌, ◌&&◌,
  arith, ==-refl,
}
use online_coding_judge.Errors.{Error}
use online_coding_judge.Judge.Types.{Job, Delivery}
use online_coding_judge.Judge.Engine.Frame.{Keeps}
use online_coding_judge.Judge.Worker.{
  Worker, Schedule, Heartbeat, beating, ended, lost, Running, is_beating, tick, beat, sandbox_of,
  drain,
}
use online_coding_judge.Judge.Worker.Monitor.{Phase, judging, within, noted_renew, monitored}

-- The job is being evaluated, and a lease that is lost is lost by the error that was noted.
abbrev pub IsJudging : {W : Type 0} → Job → Running (W × Phase) → Type 0
IsJudging job r =
    (l : Option Error) × (r.world.1 ≡ judging job l)
    × ((x : Error) → r.heartbeat ≡ lost x → l ≡ some x)

within-judging :
    (job : Job) (l : Option Error) (p : Phase)
    → p ≡ judging job l
    → within job.attempt_id p ≡ judging job l
within-judging job l p h = rw (h, ==-refl job.attempt_id) refl

renewed-judging :
    (job : Job) (l f : Option Error) (p : Phase)
    → f ≡ none
    → p ≡ judging job l
    → noted_renew job.attempt_id f p ≡ judging job l
renewed-judging job l f p fine h = rw (fine, h, ==-refl job.attempt_id) refl

unrenewed-judging :
    (job : Job) (l f : Option Error) (e : Error) (p : Phase)
    → f ≡ some e
    → p ≡ judging job l
    → noted_renew job.attempt_id f p ≡ judging job (some e)
unrenewed-judging job l f e p failed h = rw (failed, h, ==-refl job.attempt_id) refl

pub Heartbeat-cases :
    (hb : Heartbeat) → (hb ≡ beating) ⊎ (hb ≡ ended) ⊎ ((x : Error) × (hb ≡ lost x))
Heartbeat-cases beating = inl refl
Heartbeat-cases ended = inr (inl refl)
Heartbeat-cases (lost x) = inr (inr (x, refl))

module _ {W H : Type 0} (w : Worker W H) (schedule : Schedule) (delivery : Delivery) where
  abbrev m : Worker (W × Phase) H
  m = monitored delivery w

  tick_keeps :
      (job : Job) (r : Running (W × Phase))
      → IsJudging job r
      → IsJudging job (tick m schedule job.attempt_id r)
  unfolding tick
  tick_keeps job r (l, at, since) =
      let renewed = w.repo.renew job.attempt_id w.lease r.world.0 in
      elim (Heartbeat-cases r.heartbeat) [
        | inr (inl e) ↦ rw e (l, at, λ x q. since x (e ∙ q))
        | inr (inr (y, e)) ↦ rw e (l, at, λ x q. since x (e ∙ q))
        | inl e ↦ elim (Option-cases renewed.0) [
          | inl fine ↦ rw (e, tick, fine) (l, renewed-judging job l _ _ fine at, since)
          | inr (y, failed) ↦
              rw (e, tick, failed)
                (some y, unrenewed-judging job l _ y _ failed at, λ x q. ground (arith, q))
        ]
      ]

  pub beat_keeps :
      (n : ℕ) (job : Job) (r : Running (W × Phase))
      → IsJudging job r
      → IsJudging job (beat m schedule n job.attempt_id r)
  unfolding beat
  beat_keeps zero job r h = h
  beat_keeps (suc n) job r h = beat_keeps n job _ (tick_keeps job r h)

  pub sandbox-Keeps : (job : Job) → Keeps (IsJudging job) (sandbox_of m schedule job.attempt_id)
  sandbox-Keeps job = record {
    opens = λ j s h. beat_keeps (schedule.ticks s.calls) job s h;
    inside = record {
      compile = λ x s h. beat_keeps (schedule.ticks s.calls) job s h;
      run = λ x i s h. beat_keeps (schedule.ticks s.calls) job s h;
      transition = λ to s h.
          let (l, at, since) = beat_keeps (schedule.ticks s.calls) job s h in
          (l, within-judging job l _ at, since);
    };
    close = λ x s h. beat_keeps (schedule.ticks s.calls) job s h;
  }

  pub drain_keeps :
      (job : Job) (r : Running (W × Phase))
      → IsJudging job r
      → IsJudging job (drain m schedule job.attempt_id r)
  unfolding drain
  drain_keeps job r (l, at, since) =
      let renewed = w.repo.renew job.attempt_id w.lease r.world.0 in
      elim (Bool-cases (schedule.late && is_beating r.heartbeat)) [
        | inr quiet ↦ rw quiet (l, at, since)
        | inl late ↦ elim (Option-cases renewed.0) [
          | inl fine ↦ rw (late, drain, fine) (l, renewed-judging job l none _ refl at, λ x q. cc)
          | inr (y, failed) ↦
              rw (late, drain, failed)
                (some y, unrenewed-judging job l (some y) y _ refl at, λ x q. cc)
        ]
      ]
