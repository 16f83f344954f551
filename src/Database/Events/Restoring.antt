-- ===== src/Database/Events/Restoring.antt =====
-- After a reconciliation every queued submission that is due has a publication ahead or behind it.
use online_coding_judge.Prelude.{
  ℕ, suc, Bool, true, List, [], ◌∷◌, length, ◌&&◌, ◌||◌, ◌≡◌, refl, sym, ◌∙◌, ap, subst, All, arith,
  Bool-cases, inl, inr, ==-refl, Option-cases,
}
use online_coding_judge.Errors.{Reply, ok, err}
use online_coding_judge.Submissions.{queued, is_same}
use online_coding_judge.Database.Table.{
  select, exists, insert, insert_ok, select_taken, select_left,
}
use online_coding_judge.Database.Tables.{SubmissionRow, EventRow, Tables, event_key}
use online_coding_judge.Database.Transaction.{Net, Clocks}
use online_coding_judge.Database.Attempts.{new_event}
use online_coding_judge.Database.Events.{
  is_due, is_pending_for, is_recent_for, is_forgotten, add_events, restored, reconcile_outbox,
}

-- A publication that is still to come, or one of the last five minutes.
abbrev pub is_covered : Clocks → List EventRow → SubmissionRow → Bool
is_covered clocks events s =
    exists (is_pending_for s.id) events || exists (is_recent_for clocks s.id) events

-- What is covered stays covered as events are added.
add_events-keeps :
    (clocks : Clocks) (gen : ℕ → ℕ) (k : ℕ) (ss : List SubmissionRow)
    (events events' : List EventRow) (s : SubmissionRow)
    → add_events clocks gen k ss events ≡ ok events'
    → is_covered clocks events s ≡ true
    → is_covered clocks events' s ≡ true
unfolding add_events exists
add_events-keeps clocks gen k [] events events' s e covered = ground (arith, e, covered)
add_events-keeps clocks gen k (x ∷ ss) events events' s e covered =
    elim (Option-cases (insert event_key (new_event clocks (gen k) x.id clocks.db_now) events)) [
      | inl taken ↦ absurd (ground (arith, taken, e))
      | inr (added, at) ↦
          let is = (insert_ok event_key _ events added at).0 in
          add_events-keeps clocks gen (suc k) ss added events' s (ground (arith, at, e))
            (subst (λ l. is_covered clocks l s ≡ true) (sym is) (ground (arith, covered)))
    ]

-- The submissions that get an event are covered by it.
add_events_covers :
    (clocks : Clocks) (gen : ℕ → ℕ) (k : ℕ) (ss : List SubmissionRow)
    (events events' : List EventRow)
    → add_events clocks gen k ss events ≡ ok events'
    → All (λ s. is_covered clocks events' s ≡ true) ss
unfolding add_events exists
add_events_covers clocks gen k [] events events' e = tt
add_events_covers clocks gen k (x ∷ ss) events events' e =
    elim (Option-cases (insert event_key (new_event clocks (gen k) x.id clocks.db_now) events)) [
      | inl taken ↦ absurd (ground (arith, taken, e))
      | inr (added, at) ↦
          let is = (insert_ok event_key _ events added at).0 in
          let e' : add_events clocks gen (suc k) ss added ≡ ok events' = ground (arith, at, e) in
          let now_covered : is_covered clocks added x ≡ true =
            subst (λ l. is_covered clocks l x ≡ true) (sym is) (ground (arith, ==-refl x.id)) in
          (
            add_events-keeps clocks gen (suc k) ss added events' x e' now_covered,
            add_events_covers clocks gen (suc k) ss added events' e',
          )
    ]

-- A queued submission that is due.
abbrev pub is_waiting : Clocks → SubmissionRow → Bool
is_waiting clocks s = is_same s.status queued && is_due clocks s.retry_after

covers :
    (clocks : Clocks) (events events' : List EventRow) (ss : List SubmissionRow)
    → ((s : SubmissionRow) → is_covered clocks events s ≡ true → is_covered clocks events' s ≡ true)
    → All (λ s. is_covered clocks events' s ≡ true) (select (is_forgotten clocks events) ss)
    → All (λ s. is_waiting clocks s ≡ true → is_covered clocks events' s ≡ true) ss
covers clocks events events' [] keeps h = tt
covers clocks events events' (s ∷ ss) keeps h =
    let goal = All (λ x. is_covered clocks events' x ≡ true) in
    elim (Bool-cases (is_forgotten clocks events s)) [
      | inl missing ↦
          let (now_covered, rest) =
            subst goal (select_taken (is_forgotten clocks events) s ss missing) h in
          ((λ w. now_covered), covers clocks events events' ss keeps rest)
      | inr present ↦ (
        (λ w. keeps s (ground (arith, present, w))),
        covers clocks events events' ss keeps
            (subst goal (select_left (is_forgotten clocks events) s ss present) h),
      )
    ]

-- A reconciliation that succeeds has added the events that it reports.
restored_ok :
    (net : Net) (t : Tables) (n m : ℕ) (r : Reply (List EventRow))
    → (restored net t m r).0 ≡ ok n
    → (events' : List EventRow) × (r ≡ ok events')
      × (m ≡ n)
      × ((restored net t m r).1 ≡ record t { outbox_events = events' })
restored_ok net t n m (err e) h = absurd (ground (arith, h))
restored_ok net t n m (ok events') h = (events', refl, ground (arith, h), ground (arith, h))

reconcile_connected :
    (net : Net) (clocks : Clocks) (gen : ℕ → ℕ) (t : Tables) (n : ℕ)
    → (reconcile_outbox net clocks gen t).0 ≡ ok n
    → net.call 0 ≡ true
unfolding reconcile_outbox
reconcile_connected net clocks gen t n h = ground (arith, h)

reconcile_answered :
    (net : Net) (clocks : Clocks) (gen : ℕ → ℕ) (t : Tables)
    → net.call 0 ≡ true
    → let forgotten = select (is_forgotten clocks t.outbox_events) t.submissions in
      reconcile_outbox net clocks gen t
      ≡ restored net t (length forgotten) (add_events clocks gen 0 forgotten t.outbox_events)
unfolding reconcile_outbox
reconcile_answered net clocks gen t answered = ground (arith, answered)

reconcile_ok :
    (net : Net) (clocks : Clocks) (gen : ℕ → ℕ) (t : Tables) (n : ℕ)
    → (reconcile_outbox net clocks gen t).0 ≡ ok n
    → let forgotten = select (is_forgotten clocks t.outbox_events) t.submissions in
      (events' : List EventRow) × (add_events clocks gen 0 forgotten t.outbox_events ≡ ok events')
      × (length forgotten ≡ n)
      × ((reconcile_outbox net clocks gen t).1 ≡ record t { outbox_events = events' })
reconcile_ok net clocks gen t n h =
    let forgotten = select (is_forgotten clocks t.outbox_events) t.submissions in
    let runs = reconcile_answered net clocks gen t (reconcile_connected net clocks gen t n h) in
    let added = add_events clocks gen 0 forgotten t.outbox_events in
    let (events', adds, counted, leaves) =
      restored_ok net t n (length forgotten) added (ap (λ x. x.0) (sym runs) ∙ h) in
    (events', adds, counted, ap (λ x. x.1) runs ∙ leaves)

-- A reconciliation that succeeds leaves no queued submission behind: each one that is due has a
-- publication that is still to come or one of the last five minutes, the submissions themselves are
-- unchanged, and the reply is the number of those that had none.
pub reconcile_restores :
    (net : Net) (clocks : Clocks) (gen : ℕ → ℕ) (t : Tables) (n : ℕ)
    → (reconcile_outbox net clocks gen t).0 ≡ ok n
    → let t' = (reconcile_outbox net clocks gen t).1 in
      All
        (λ s. is_waiting clocks s ≡ true → is_covered clocks t'.outbox_events s ≡ true)
        t'.submissions
      × (t'.submissions ≡ t.submissions)
      × (length (select (is_forgotten clocks t.outbox_events) t.submissions) ≡ n)
reconcile_restores net clocks gen t n h =
    let (events', adds, counted, leaves) = reconcile_ok net clocks gen t n h in
    subst
      (λ x.
        All (λ s. is_waiting clocks s ≡ true → is_covered clocks x.outbox_events s ≡ true)
          x.submissions
        × (x.submissions ≡ t.submissions)
        × (length (select (is_forgotten clocks t.outbox_events) t.submissions) ≡ n))
      (sym leaves)
      (
        covers clocks t.outbox_events events' t.submissions
            (λ s. add_events-keeps clocks gen 0 _ t.outbox_events events' s adds)
            (add_events_covers clocks gen 0 _ t.outbox_events events' adds),
        refl,
        counted,
      )
