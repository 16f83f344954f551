-- ===== src/Judge/Worker.antt =====
-- `Worker.Handle` of internal/judge/engine.go, over any repository, queue and sandbox. The world
-- `W` is what they share: the database, the queue and the containers.
pub mod Monitor
pub mod Beating
pub mod Protocol
use online_coding_judge.Prelude.{
  ℕ, zero, suc, ℤ, pos, Bool, true, false, not, List, [], ◌∷◌, Bytes, text, Option, none, some,
  is_some, ltb, leb, ◌&&◌, ◌||◌, if◌then◌else◌,
}
use online_coding_judge.Errors.{Error, Reply, ok, err, terminal}
use online_coding_judge.Submissions.{Status}
use online_coding_judge.Judge.Types.{Job, Outcome, Result, Delivery, Claim, granted, refused}
use online_coding_judge.Judge.Engine.{Sandbox, evaluate}
use online_coding_judge.Judge.Retry.{retry_delay}

-- `Repository`. `transition` is told whether its context is cancelled.
pub record Repository (W : Type 0) : Type 0 where
  pub claim : ℕ → Bytes → ℤ → W → Claim × W
  pub transition : Bool → ℕ → Status → W → Option Error × W
  pub finish : ℕ → Result → W → Option Error × W
  pub fail : ℕ → W → Option Error × W
  pub retry : ℕ → ℤ → W → Option Error × W
  pub renew : ℕ → ℤ → W → Option Error × W

-- `Acknowledger`
pub record Acknowledger (W : Type 0) : Type 0 where
  pub ack : ℕ → W → Option Error × W
  pub dead_letter : Delivery → Bytes → W → Option Error × W

-- `Factory` and the sandboxes that it opens. Each operation is told whether its context is
-- cancelled.
pub record Factory (W H : Type 0) : Type 0 where
  pub opens : Bool → Job → W → Reply H × W
  pub compile : Bool → H → W → Reply Outcome × W
  pub run : Bool → H → Bytes → W → Reply Outcome × W
  pub close : H → W → Option Error × W

pub record Worker (W H : Type 0) : Type 0 where
  pub id : Bytes
  pub lease : ℤ
  pub max_deliveries : ℕ
  pub repo : Repository W
  pub factory : Factory W H
  pub queue : Acknowledger W

-- What the scheduler and the caller do meanwhile: how often the heartbeat's ticker fires before the
-- n-th blocking call of the evaluation and after the last, whether the caller's context is done by then, and whether a
-- renewal is still in flight when the evaluation has ended.
pub record Schedule : Type 0 where
  pub ticks : ℕ → ℕ
  pub done : ℕ → Bool
  pub late : Bool

-- The heartbeat goroutine: it renews, has ended with a cancelled context, or has failed.
pub data Heartbeat : Type 0 where
  beating ended : Heartbeat
  lost : Error → Heartbeat

-- The evaluation and the heartbeat together.
pub record Running (W : Type 0) : Type 0 where
  pub world : W
  pub heartbeat : Heartbeat
  pub calls : ℕ

abbrev pub is_lost : Heartbeat → Bool
is_lost (lost e) = true
is_lost _ = false

-- The attempts after which a submission is given up.
abbrev pub maximum : {W H : Type 0} → Worker W H → ℕ
maximum w = if ltb w.max_deliveries 1 then 3 else w.max_deliveries

abbrev pub is_terminal_error : Error → Bool
is_terminal_error terminal = true
is_terminal_error _ = false

abbrev pub is_beating : Heartbeat → Bool
is_beating beating = true
is_beating _ = false

module _ {W H : Type 0} (w : Worker W H) (schedule : Schedule) where
  -- One tick: the lease is renewed, and a failure cancels the evaluation unless the caller has.
  unfoldable pub tick : ℕ → Running W → Running W
  tick attempt r = elim r.heartbeat [
    | ended ↦ r
    | lost e ↦ r
    | beating ↦
        let (failed, world') = w.repo.renew attempt w.lease r.world in
        elim failed [
          | none ↦ record r { world = world' }
          | some e ↦ record r {
            world = world';
            heartbeat = if schedule.done r.calls then ended else lost e;
          }
        ]
  ]

  unfoldable pub beat : ℕ → ℕ → Running W → Running W
  beat zero attempt r = r
  beat (suc n) attempt r = beat n attempt (tick attempt r)

  -- A blocking call of the evaluation, after the ticks before it.
  abbrev pub blocking {ℓ} : {A : Type ℓ} → ℕ → (Bool → W → A × W) → Running W → A × Running W
  blocking attempt op r =
      let r' = beat (schedule.ticks r.calls) attempt r in
      let (a, world') = op (schedule.done r.calls || is_lost r'.heartbeat) r'.world in
      (a, record r' { world = world'; calls = suc r.calls })

  -- The sandbox that `Evaluate` sees, its calls interleaved with the heartbeat.
  abbrev pub sandbox_of : ℕ → Sandbox (Running W) H
  sandbox_of attempt = record {
    opens = λ job. blocking attempt (λ cancelled. w.factory.opens cancelled job);
    compile = λ h. blocking attempt (λ cancelled. w.factory.compile cancelled h);
    run = λ h input. blocking attempt (λ cancelled. w.factory.run cancelled h input);
    close = λ h. blocking attempt (λ cancelled. w.factory.close h);
    transition = λ to. blocking attempt (λ cancelled. w.repo.transition cancelled attempt to);
  }

  abbrev pub exhausted : Bytes
  exhausted = text "attempts_exhausted"

  -- The last attempt has failed.
  unfoldable pub fail_job : Job → Delivery → W → Option Error × W
  fail_job job delivery world =
      let (persist, world') = w.repo.fail job.attempt_id world in
      let counted = record delivery {
        deliveries =
            if ltb delivery.deliveries job.attempt_number
            then job.attempt_number
            else delivery.deliveries;
      } in
      elim persist [
        | some e ↦ (some e, world')
        | none ↦ w.queue.dead_letter counted exhausted world'
      ]

  -- An earlier attempt has failed.
  unfoldable pub retry_job : Job → Delivery → W → Option Error × W
  retry_job job delivery world =
      let delay = pos (retry_delay job.attempt_number) in
      let (persist, world') = w.repo.retry job.attempt_id delay world in
      elim persist [ some e ↦ (some e, world') | none ↦ w.queue.ack delivery.id world' ]

  -- A failed evaluation: the last attempt fails for good, an earlier one is retried.
  unfoldable pub recover : Job → Delivery → W → Option Error × W
  recover job delivery world =
      if leb (maximum w) job.attempt_number
      then fail_job job delivery world
      else retry_job job delivery world

  -- The evaluation gave a verdict.
  unfoldable pub finish_job : Job → Delivery → Result → W → Option Error × W
  finish_job job delivery r world =
      let (persist, world') = w.repo.finish job.attempt_id r world in
      elim persist [ some e ↦ (some e, world') | none ↦ w.queue.ack delivery.id world' ]

  -- The evaluation failed, perhaps because the caller's context is done.
  unfoldable pub dispatch : Job → Delivery → Result → Option Error → Bool → W → Option Error × W
  dispatch job delivery r none done world = finish_job job delivery r world
  dispatch job delivery r (some x) done world =
      if done then (some x, world) else recover job delivery world

  -- After `cancel()`: the heartbeat's error counts first, then that of the evaluation.
  unfoldable pub conclude :
      Job → Delivery → Result → Option Error → Heartbeat → Bool → W → Option Error × W
  conclude job delivery r e (lost x) done world = (some x, world)
  conclude job delivery r e beating done world = dispatch job delivery r e done world
  conclude job delivery r e ended done world = dispatch job delivery r e done world

  -- A renewal that is in flight at `cancel()` may still take effect; its error is dropped.
  unfoldable pub drain : ℕ → Running W → Running W
  drain attempt r =
      if schedule.late && is_beating r.heartbeat
      then record r { world = (w.repo.renew attempt w.lease r.world).1; heartbeat = ended }
      else r

  unfoldable pub judge : Job → Delivery → W → Option Error × W
  judge job delivery world =
      let start : Running W = record { world = world; heartbeat = beating; calls = 0 } in
      let ((r, e), running) = evaluate (sandbox_of job.attempt_id) job start in
      let last = beat (schedule.ticks running.calls) job.attempt_id running in
      let over = drain job.attempt_id last in
      conclude job delivery r e over.heartbeat (schedule.done running.calls) over.world

  -- No attempt was claimed.
  unfoldable pub refuse : Delivery → Error → Bool → W → Option Error × W
  refuse delivery e dead world =
      if is_terminal_error e
      then (if dead
          then w.queue.dead_letter delivery exhausted world
          else w.queue.ack delivery.id world)
      else (some e, world)

  abbrev pub proceed : Delivery → Claim → W → Option Error × W
  proceed delivery (granted job) world = judge job delivery world
  proceed delivery (refused e dead) world = refuse delivery e dead world

  -- `Handle`
  unfoldable pub handle : Delivery → W → Option Error × W
  handle delivery world =
      let (claim, world') = w.repo.claim delivery.submission_id w.id w.lease world in
      proceed delivery claim world'
