-- ===== src/Outbox.antt =====
-- internal/outbox/publisher.go: `PublishBatch` over any event store and any queue. `W` is the world
-- that the two share; events and submissions go by number.
pub mod Calls
use online_coding_judge.Prelude.{
  ℕ, suc, ℤ, pos, ◌*◌, below, List, [], ◌∷◌, Bytes, Option, none, some, if◌then◌else◌,
}
use online_coding_judge.Errors.{Error, Reply, ok, err}
use online_coding_judge.Judge.Retry.{second}

pub record Event : Type 0 where
  pub id : ℕ
  pub submission_id : ℕ

-- `Store`
pub record Store (W : Type 0) : Type 0 where
  pub claim_outbox : Bytes → ℤ → ℤ → W → Reply (List Event) × W
  pub mark_published : ℕ → W → Option Error × W

-- `Publisher`, with the one method of `SubmissionPublisher` as its queue.
pub record Publisher (W : Type 0) : Type 0 where
  pub id : Bytes
  pub store : Store W
  pub queue : ℕ → W → Option Error × W
  pub lease : ℤ
  pub batch_size : ℤ

-- A setting that is not positive gives way to its default.
abbrev pub or_default : ℤ → ℕ → ℤ
or_default n default = if below n 1 then pos default else n

-- `if err != nil { return published, err }`
abbrev pub unless :
    {W : Type 0} → Option Error → ℕ → W → (ℕ × Option Error) × W → (ℕ × Option Error) × W
unless (some e) published world rest = ((published, some e), world)
unless none published world rest = rest

module _ {W : Type 0} (p : Publisher W) where
  -- Event by event: publish, then mark; the first error ends the batch.
  unfoldable pub publish_each : List Event → ℕ → W → (ℕ × Option Error) × W
  publish_each [] published world = ((published, none), world)
  publish_each (event ∷ events) published world =
      let (refusal, world') = p.queue event.submission_id world in
      let (failed, world'') = p.store.mark_published event.id world' in
      let rest = publish_each events (suc published) world'' in
      unless refusal published world' (unless failed published world'' rest)

  abbrev pub publish_claimed : Reply (List Event) → W → (ℕ × Option Error) × W
  publish_claimed (err e) world = ((0, some e), world)
  publish_claimed (ok events) world = publish_each events 0 world

  unfoldable pub publish_batch : W → (ℕ × Option Error) × W
  publish_batch world =
      let size = or_default p.batch_size 50 in
      let (claimed, world') =
        p.store.claim_outbox p.id size (or_default p.lease (30 * second)) world in
      publish_claimed claimed world'
