-- ===== src/Judge/Worker/Monitor.antt =====
-- A monitor beside the database and the queue that `Worker.Handle` of internal/judge/engine.go uses:
-- it follows the calls of one delivery and notes a call that the protocol forbids.
use online_coding_judge.Prelude.{
  ℕ, Bool, true, Option, none, some, is_some, ltb, leb, ◌==◌, ◌&&◌, if◌then◌else◌, ◌≡◌, ◌⊎◌,
}
use online_coding_judge.Errors.{Error, terminal}
use online_coding_judge.Judge.Types.{Job, Delivery, Claim, granted, refused}
use online_coding_judge.Judge.Worker.{Worker, Schedule, maximum}

-- Where a delivery stands: not claimed, being evaluated, with the error of the last renewal that
-- failed, to be acknowledged, to be copied to the
-- dead letters with at least this count, done, given up, or mishandled.
pub data Phase : Type 0 where
  fresh : Phase
  judging : Job → Option Error → Phase
  acking : Phase
  burying : ℕ → Phase
  settled abandoned violated : Phase

-- A call that is allowed leads on when it succeeds, and ends the work on the delivery when not.
abbrev pub checked : Bool → Phase → Option Error → Phase
checked allowed next failed =
    if allowed then (if is_some failed then abandoned else next) else violated

abbrev pub after_claim : Claim → Phase → Phase
after_claim (granted job) fresh = judging job none
after_claim (refused terminal dead) fresh = if dead then burying 0 else acking
after_claim (refused e dead) fresh = abandoned
after_claim c p = violated

-- A call on an attempt while it is evaluated.
abbrev pub within : ℕ → Phase → Phase
within attempt (judging job l) = if attempt == job.attempt_id then judging job l else violated
within attempt p = violated

-- A renewal of the attempt that is evaluated.
abbrev pub noted_renew : ℕ → Option Error → Phase → Phase
noted_renew attempt none p = within attempt p
noted_renew attempt (some e) (judging job l) = within attempt (judging job (some e))
noted_renew attempt (some e) p = violated

abbrev pub noted_finish : ℕ → Option Error → Phase → Phase
noted_finish attempt failed (judging job l) = checked (attempt == job.attempt_id) acking failed
noted_finish attempt failed p = violated

-- Only an attempt before the last is retried.
abbrev pub noted_retry : ℕ → ℕ → Option Error → Phase → Phase
noted_retry most attempt failed (judging job l) =
    checked ((attempt == job.attempt_id) && ltb job.attempt_number most) acking failed
noted_retry most attempt failed p = violated

-- Only the last attempt fails for good.
abbrev pub noted_fail : ℕ → ℕ → Option Error → Phase → Phase
noted_fail most attempt failed (judging job l) =
    checked ((attempt == job.attempt_id) && leb most job.attempt_number)
      (burying job.attempt_number) failed
noted_fail most attempt failed p = violated

abbrev pub after_ack : Delivery → ℕ → Option Error → Phase → Phase
after_ack delivery id failed acking = checked (id == delivery.id) settled failed
after_ack delivery id failed p = violated

abbrev pub after_burial : Delivery → Delivery → Option Error → Phase → Phase
after_burial delivery copy failed (burying n) =
    checked
      ((copy.id == delivery.id)
        && (copy.submission_id == delivery.submission_id)
        && leb delivery.deliveries copy.deliveries
        && leb n copy.deliveries)
      settled failed
after_burial delivery copy failed p = violated

-- A call on the world, and what the monitor makes of its reply.
abbrev pub noting {ℓ} :
    {W : Type 0} {A : Type ℓ} → (A → Phase → Phase) → (W → A × W) → W × Phase → A × (W × Phase)
noting after op (world, phase) = let (a, world') = op world in (a, (world', after a phase))

abbrev pub silent : {A : Type 0} → A → Phase → Phase
silent a p = p

-- The worker with the monitor beside its world.
abbrev pub monitored : {W H : Type 0} → Delivery → Worker W H → Worker (W × Phase) H
monitored delivery w = record {
  id = w.id;
  lease = w.lease;
  max_deliveries = w.max_deliveries;
  repo = record {
    claim = λ id owner lease. noting after_claim (w.repo.claim id owner lease);
    transition = λ cancelled id to. noting (λ e. within id) (w.repo.transition cancelled id to);
    finish = λ id r. noting (noted_finish id) (w.repo.finish id r);
    fail = λ id. noting (noted_fail (maximum w) id) (w.repo.fail id);
    retry = λ id delay. noting (noted_retry (maximum w) id) (w.repo.retry id delay);
    renew = λ id lease. noting (noted_renew id) (w.repo.renew id lease);
  };
  factory = record {
    opens = λ cancelled job. noting silent (w.factory.opens cancelled job);
    compile = λ cancelled h. noting silent (w.factory.compile cancelled h);
    run = λ cancelled h input. noting silent (w.factory.run cancelled h input);
    close = λ h. noting silent (w.factory.close h);
  };
  queue = record {
    ack = λ id. noting (after_ack delivery id) (w.queue.ack id);
    dead_letter =
        λ copy reason. noting (after_burial delivery copy) (w.queue.dead_letter copy reason);
  };
}

-- How `Handle` may leave the delivery: without an error it is settled; with one it was given up
-- after a call that failed or was refused, or it is still owned, because the caller's context was
-- done at some point, or because a renewal of the lease failed with that error.
abbrev pub IsClosed : Schedule → Option Error → Phase → Type 0
IsClosed schedule none p = p ≡ settled
IsClosed schedule (some e) p =
    (p ≡ abandoned)
    ⊎ ((job : Job) × (l : Option Error) × (p ≡ judging job l)
        × (((n : ℕ) × (schedule.done n ≡ true)) ⊎ (l ≡ some e)))
