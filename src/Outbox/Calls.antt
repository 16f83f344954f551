-- ===== src/Outbox/Calls.antt =====
-- The calls that a batch makes, in order.
use online_coding_judge.Prelude.{
  ℕ, suc, ◌+◌, ℤ, List, [], ◌∷◌, ◌++◌, Option, none, some, ◌≡◌, refl, subst, sym, ◌∙◌, below, false,
  ◌*◌, ◌≤◌, append_assoc, append-nil, arith,
}
use online_coding_judge.Errors.{Error, Reply, ok, err}
use online_coding_judge.Outbox.{
  Event, Publisher, or_default, unless, publish_each, publish_claimed, publish_batch,
}
use online_coding_judge.Judge.Retry.{second}

pub data Call : Type 0 where
  published marked : ℕ → Option Error → Call

-- The publisher with a log of its calls beside its world.
abbrev pub recorded : {W : Type 0} → Publisher W → Publisher (W × List Call)
recorded p = record {
  id = p.id;
  store = record {
    claim_outbox = λ id size lease (world, log).
        let (events, world') = p.store.claim_outbox id size lease world in (events, (world', log));
    mark_published = λ id (world, log).
        let (e, world') = p.store.mark_published id world in
        (e, (world', log ++ (marked id e ∷ [])));
  };
  queue = λ id (world, log).
      let (e, world') = p.queue id world in (e, (world', log ++ (published id e ∷ [])));
  lease = p.lease;
  batch_size = p.batch_size;
}

-- The calls for a list of events, with the count and the error that the batch reports.
pub data Attempted : List Event → ℕ → Option Error → List Call → Type 0 where
  complete : Attempted [] 0 none []
  unsent :
      {v : Event} {vs : List Event} {e : Error}
      → Attempted (v ∷ vs) 0 (some e) (published v.submission_id (some e) ∷ [])
  unmarked :
      {v : Event} {vs : List Event} {e : Error}
      → Attempted (v ∷ vs) 0 (some e) (published v.submission_id none ∷ marked v.id (some e) ∷ [])
  sent :
      {v : Event} {vs : List Event} {n : ℕ} {e : Option Error} {cs : List Call}
      → Attempted vs n e cs
      → Attempted (v ∷ vs) (suc n) e (published v.submission_id none ∷ marked v.id none ∷ cs)

zero_add : (k : ℕ) → 0 + k ≡ k
zero_add k = omega arith

positive : (i : ℤ) (n : ℕ) → 1 ≤ n → below (or_default i n) 1 ≡ false
positive i n h = ground arith

module _ {W : Type 0} (p : Publisher W) where
  -- What a run of `publish_each` over these events, from this count and log, has done.
  abbrev Run : List Event → ℕ → List Call → (ℕ × Option Error) × (W × List Call) → Type 0
  Run vs n log ((m, e), (world, log')) =
      (k : ℕ) × (cs : List Call) × Attempted vs k e cs × (m ≡ n + k) × (log' ≡ log ++ cs)

  step-Run :
      (v : Event) (vs : List Event) (n : ℕ) (log : List Call) (a b : Option Error) (s t : W)
      (rest : (ℕ × Option Error) × (W × List Call))
      → let sent_log = log ++ (published v.submission_id a ∷ []) in
        let marked_log = sent_log ++ (marked v.id b ∷ []) in
        Run vs (suc n) marked_log rest
        → Run (v ∷ vs) n log (unless a n (s, sent_log) (unless b n (t, marked_log) rest))
  step-Run v vs n log (some e) b s t rest r =
      (0, published v.submission_id (some e) ∷ [], unsent, omega arith, refl)
  step-Run v vs n log none (some e) s t rest r = (
    0,
    published v.submission_id none ∷ marked v.id (some e) ∷ [],
    unmarked,
    omega arith,
    append_assoc log (published v.submission_id none ∷ []) (marked v.id (some e) ∷ []),
  )
  step-Run v vs n log none none s t rest (k, cs, a, count, grown) = (
    suc k,
    published v.submission_id none ∷ marked v.id none ∷ cs,
    sent a,
    omega arith,
    grown
        ∙ append_assoc (log ++ (published v.submission_id none ∷ [])) (marked v.id none ∷ []) cs
        ∙ append_assoc log (published v.submission_id none ∷ []) (marked v.id none ∷ cs),
  )

  publish_each-Run :
      (vs : List Event) (n : ℕ) (world : W) (log : List Call)
      → Run vs n log (publish_each (recorded p) vs n (world, log))
  unfolding publish_each
  publish_each-Run [] n world log = (0, [], complete, omega arith, sym (append-nil log))
  publish_each-Run (v ∷ vs) n world log =
      let (refusal, world') = p.queue v.submission_id world in
      let (failed, world'') = p.store.mark_published v.id world' in
      step-Run v vs n log refusal failed world' world'' _ (publish_each-Run vs (suc n) world'' _)

  -- What a batch did, after the reply of the store: nothing when it fails.
  abbrev pub Published : Reply (List Event) → (ℕ × Option Error) × (W × List Call) → Type 0
  Published (err x) ((m, e), (world, log)) = (m ≡ 0) × (e ≡ some x) × (log ≡ [])
  Published (ok vs) ((m, e), (world, log)) = Attempted vs m e log

  claimed_run :
      (claimed : Reply (List Event)) (world : W)
      → Published claimed (publish_claimed (recorded p) claimed (world, []))
  claimed_run (err x) world = (refl, refl, refl)
  claimed_run (ok vs) world =
      let (k, cs, a, count, log) = publish_each-Run vs 0 world [] in
      let e = (publish_each (recorded p) vs 0 (world, [])).0.1 in
      let counted = subst (λ m. Attempted vs m e cs) (sym (count ∙ zero_add k)) a in
      subst (λ l. Attempted vs (publish_each (recorded p) vs 0 (world, [])).0.0 e l) (sym log)
        counted

  -- A batch asks the store for a positive number of events under a positive lease, and publishes
  -- those that it gets in their order, each once, marking an event directly after its publication has succeeded and
  -- never otherwise. The first error ends the batch, and the count that is reported beside it is the
  -- number of events both published and marked. Without an error all of them are. When the store
  -- gives no events because it fails, no call follows.
  pub publish_batch_calls :
      (world : W)
      → let claimed =
          p.store.claim_outbox p.id
            (or_default p.batch_size 50)
            (or_default p.lease (30 * second))
            world in
        (below (or_default p.batch_size 50) 1 ≡ false)
        × (below (or_default p.lease (30 * second)) 1 ≡ false)
        × Published claimed.0 (publish_batch (recorded p) (world, []))
  unfolding publish_batch
  publish_batch_calls world =
      let (claimed, world') =
        p.store.claim_outbox p.id (or_default p.batch_size 50) (or_default p.lease (30 * second))
          world in
      (
        positive p.batch_size 50 (omega arith),
        positive p.lease (30 * second) (omega arith),
        claimed_run claimed world',
      )
