-- ===== src/Database/Events/Guarding.antt =====
-- What single statements on the outbox keep of rows with given ids.
use online_coding_judge.Prelude.{
  ℕ, suc, ℤ, Bool, true, false, List, [], ◌∷◌, Bytes, Option, none, some, is_some, ◌==◌, ◌≡◌, refl,
  sym, ◌∙◌, ap, subst, All, arith, Bool-cases, Option-cases, inl, inr,
}
use online_coding_judge.Errors.{Reply, ok, err}
use online_coding_judge.Database.Table.{find, insert, insert_ok, exists, update, find-update}
use online_coding_judge.Database.Tables.{SubmissionRow, EventRow, Tables, event_key}
use online_coding_judge.Database.Transaction.{
  Net, Clocks, Commit, committed, aborted, lost, commit_as,
}
use online_coding_judge.Database.Events.{
  is_ready, ready_rows, holds_id, lease_event, after_lease, claim_outbox, is_open_event,
  publish_event, mark_published, add_events, restored, reconcile_outbox,
}
use online_coding_judge.Database.Attempts.{new_event}
use online_coding_judge.Database.Events.Leases.{ready_rows-All}

-- The tables after an INSERT into the outbox, which may be refused.
abbrev pub added : Tables → Option (List EventRow) → Tables
added t none = t
added t (some events) = record t { outbox_events = events }

module _ (held : ℕ → Bool) (Good : EventRow → Type 0) where
  -- The held ids are taken, and each row with one of them is good.
  pub record Guards (events : List EventRow) : Type 0 where
    pub taken : (k : ℕ) → held k ≡ true → is_some (find event_key k events) ≡ true
    pub good : All (λ o. held o.id ≡ true → Good o) events

  update-good :
      (p : EventRow → Bool) (f : EventRow → EventRow) (events : List EventRow)
      → ((o : EventRow) → (f o).id ≡ o.id)
      → ((o : EventRow) → held o.id ≡ true → p o ≡ true → Good o → Good (f o))
      → All (λ o. held o.id ≡ true → Good o) events
      → All (λ o. held o.id ≡ true → Good o) (update p f events)
  unfolding update
  update-good p f [] same keeps h = tt
  update-good p f (o ∷ os) same keeps (h, hs) = elim (Bool-cases (p o)) [
    | inl yes_p ↦ rw yes_p (
      λ e. let e' : held o.id ≡ true = ap held (sym (same o)) ∙ e in keeps o e' yes_p (h e'),
      update-good p f os same keeps hs,
    )
    | inr no_p ↦ rw no_p (h, update-good p f os same keeps hs)
  ]

  pub Guards-update :
      (p : EventRow → Bool) (f : EventRow → EventRow) (events : List EventRow)
      → ((o : EventRow) → (f o).id ≡ o.id)
      → ((o : EventRow) → held o.id ≡ true → p o ≡ true → Good o → Good (f o))
      → Guards events
      → Guards (update p f events)
  Guards-update p f events same keeps g = record {
    taken = λ k e. ground (arith, find-update event_key p f same k events, g.taken k e);
    good = update-good p f events same keeps g.good;
  }

  Guards-insert :
      (o : EventRow) (events events' : List EventRow)
      → insert event_key o events ≡ some events'
      → Guards events
      → Guards events'
  unfolding find
  Guards-insert o events events' e g =
      let (is, unused) = insert_ok event_key o events events' e in
      subst Guards (sym is) (record {
        taken = λ k h. ground (arith, g.taken k h);
        good = (λ h. absurd (ground (arith, g.taken o.id h, unused)), g.good);
      })

  pub Guards-added :
      (o : EventRow) (t : Tables)
      → Guards t.outbox_events
      → Guards (added t (insert event_key o t.outbox_events)).outbox_events
  Guards-added o t g = elim (Option-cases (insert event_key o t.outbox_events)) [
    | inl e ↦ rw e g
    | inr (events, e) ↦ rw e (Guards-insert o t.outbox_events events e g)
  ]

  Guards-add_events :
      (clocks : Clocks) (gen : ℕ → ℕ) (k : ℕ) (ss : List SubmissionRow)
      (events events' : List EventRow)
      → add_events clocks gen k ss events ≡ ok events'
      → Guards events
      → Guards events'
  unfolding add_events
  Guards-add_events clocks gen k [] events events' e g = subst Guards (ground (arith, e)) g
  Guards-add_events clocks gen k (s ∷ ss) events events' e g =
      let o = new_event clocks (gen k) s.id clocks.db_now in
      elim (Option-cases (insert event_key o events)) [
        | inl x ↦ absurd (ground (arith, x, e))
        | inr (more, x) ↦
            Guards-add_events clocks gen (suc k) ss more events' (ground (arith, x, e))
              (Guards-insert o events more x g)
      ]

  pub Guards-commit :
      (c : Commit) (t t' : Tables)
      → Guards t.outbox_events
      → Guards t'.outbox_events
      → Guards (commit_as c t t').1.outbox_events
  Guards-commit committed t t' g g' = g'
  Guards-commit aborted t t' g g' = g
  Guards-commit lost t t' g g' = g'

  Guards-restored :
      (net : Net) (t : Tables) (n : ℕ) (r : Reply (List EventRow))
      → ((events : List EventRow) → r ≡ ok events → Guards events)
      → Guards t.outbox_events
      → Guards (restored net t n r).1.outbox_events
  Guards-restored net t n (err e) h g = g
  Guards-restored net t n (ok events) h g =
      Guards-commit net.commit t (record t { outbox_events = events }) g (h events refl)

  pub Guards-reconcile_outbox :
      (net : Net) (clocks : Clocks) (gen : ℕ → ℕ) (t : Tables)
      → Guards t.outbox_events
      → Guards (reconcile_outbox net clocks gen t).1.outbox_events
  unfolding reconcile_outbox
  Guards-reconcile_outbox net clocks gen t g = elim (Bool-cases (net.call 0)) [
    | inl answered ↦ rw answered (
        Guards-restored net t _ _
          (λ events e. Guards-add_events clocks gen 0 _ t.outbox_events events e g) g)
    | inr silent ↦ rw silent g
  ]

  pub Guards-mark_published :
      (net : Net) (clocks : Clocks) (id : ℕ) (t : Tables)
      → ((o : EventRow) → Good (publish_event clocks o))
      → Guards t.outbox_events
      → Guards (mark_published net clocks id t).1.outbox_events
  unfolding mark_published
  Guards-mark_published net clocks id t publishes g =
      let events = update (is_open_event id) (publish_event clocks) t.outbox_events in
      let kept =
        Guards-commit net.commit t (record t { outbox_events = events }) g
          (Guards-update (is_open_event id) (publish_event clocks) t.outbox_events (λ o. refl)
            (λ o h p k. publishes o) g) in
      elim (Bool-cases (net.call 0)) [ inl answered ↦ rw answered kept | inr silent ↦ rw silent g ]

  none_held :
      (rows : List EventRow) (k : ℕ)
      → All (λ r. held r.id ≡ false) rows
      → held k ≡ true
      → exists (λ (r : EventRow). r.id == k) rows ≡ false
  unfolding exists
  none_held [] k h e = refl
  none_held (r ∷ rows) k (h, hs) e = elim (Bool-cases (r.id == k)) [
    | inl same ↦ absurd (
        let is : r.id ≡ k = ground (arith, same) in
        let no : held k ≡ false = ap held (sym is) ∙ h in ground (arith, no, e))
    | inr other ↦ ground (arith, other, none_held rows k hs e)
  ]

  -- A claim either takes no row with a held id, or leaves it good.
  pub Guards-claim_outbox :
      (net : Net) (clocks : Clocks) (locked : ℕ → Bool) (publisher : Bytes) (limit lease : ℤ)
      (t : Tables)
      → ((o : EventRow)
          → held o.id ≡ true
          → holds_id (ready_rows clocks locked limit t) o ≡ true
          → Good o
          → Good (lease_event clocks publisher lease o))
      → Guards t.outbox_events
      → Guards (claim_outbox net clocks locked publisher limit lease t).1.outbox_events
  unfolding claim_outbox
  Guards-claim_outbox net clocks locked publisher limit lease t keeps g =
      let rows = ready_rows clocks locked limit t in
      let kept = Guards-commit net.commit t (after_lease clocks publisher lease rows t) g (
        Guards-update (holds_id rows) (lease_event clocks publisher lease) t.outbox_events
          (λ o. refl) keeps g) in
      ground (arith, kept, g)

  -- Rows with a held id that are good are not ready.
  pub unready-held :
      (clocks : Clocks) (locked : ℕ → Bool) (limit : ℤ) (t : Tables)
      → ((o : EventRow) → Good o → is_ready clocks locked o ≡ false)
      → Guards t.outbox_events
      → All (λ r. held r.id ≡ false) (ready_rows clocks locked limit t)
  unready-held clocks locked limit t unready g =
      ready_rows-All (λ r. held r.id ≡ false) clocks locked limit t (spared t.outbox_events g.good)
    where
      spared :
          (events : List EventRow)
          → All (λ o. held o.id ≡ true → Good o) events
          → All (λ o. is_ready clocks locked o ≡ true → held o.id ≡ false) events
      spared [] h = tt
      spared (o ∷ os) (h, hs) = (
        λ ready. elim (Bool-cases (held o.id)) [
          | inl yes_h ↦ absurd (ground (arith, ready, unready o (h yes_h)))
          | inr no_h ↦ no_h
        ],
        spared os hs,
      )

  pub untaken :
      (clocks : Clocks) (locked : ℕ → Bool) (limit : ℤ) (t : Tables)
      → ((o : EventRow) → Good o → is_ready clocks locked o ≡ false)
      → Guards t.outbox_events
      → (k : ℕ) → held k ≡ true
      → exists (λ (r : EventRow). r.id == k) (ready_rows clocks locked limit t) ≡ false
  untaken clocks locked limit t unready g k e =
      none_held _ k (unready-held clocks locked limit t unready g) e
