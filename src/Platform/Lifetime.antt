-- ===== src/Platform/Lifetime.antt =====
-- The whole system over one database: the API's requests, the statements of the publishers and the
-- calls of the workers, in any order.
use online_coding_judge.Prelude.{
  ℕ, ℤ, Bool, List, [], ◌∷◌, Bytes, none, ◌≡◌, refl, sym, ◌∙◌, ap, subst, inl, inr, arith, ◌==◌,
  Bool-cases,
}
use online_coding_judge.Errors.{Reply, ok, err}
use online_coding_judge.Submissions.{queued}
use online_coding_judge.Problems.{Problem}
use online_coding_judge.Database.Table.{find, update}
use online_coding_judge.Database.Tables.{
  SubmissionRow, EventRow, Tables, submission_key, attempt_key,
}
use online_coding_judge.Database.Transaction.{
  Net, Clocks, Commit, committed, aborted, lost, commit_as, settle_with_cases,
}
use online_coding_judge.Database.Queries.{find_submission, find_attempt}
use online_coding_judge.Database.Linked.{IsLinked, CurrentOk, BelongsTo}
use online_coding_judge.Database.Invariant.{IsWellFormed}
use online_coding_judge.Database.History.{Call, after_call, after_call-IsWellFormed}
use online_coding_judge.Database.Attempts.{new_event}
use online_coding_judge.Database.Events.{
  ready_rows, after_lease, claim_outbox, is_open_event, publish_event, mark_published, restored,
  reconcile_outbox,
}
use online_coding_judge.Platform.Tables.{Platform}
use online_coding_judge.Platform.Authoring.{replace_problem, save_problem}
use online_coding_judge.Platform.Submitting.{new_submission, submit, create_submission}
use online_coding_judge.Platform.RoundTrip.{replace_problem-IsStored}
use online_coding_judge.Platform.Ownership.{submit-IsSubmitted}

-- A use of the store by some process. The ids that the database generates come first.
pub data Use : Type 0 where
  judges : Call → Use
  submits : ℕ → ℕ → ℕ → ℕ → Bytes → Bytes → Use
  authors : ℕ → Problem → Use
  leases : (ℕ → Bool) → Bytes → ℤ → ℤ → Use
  marks : ℕ → Use
  reconciles : (ℕ → ℕ) → Use

abbrev pub with_judging : Platform → Tables → Platform
with_judging t judging = record t { judging = judging }

-- The tables after a use.
unfoldable pub after_use : Net → Clocks → Use → Platform → Platform
after_use net clocks (judges call) t = with_judging t (after_call net clocks call t.judging)
after_use net clocks (submits n m user id language source) t =
    (create_submission net clocks n m user id language source t).1
after_use net clocks (authors n p) t = (save_problem net n p t).1
after_use net clocks (leases locked publisher limit lease) t =
    with_judging t (claim_outbox net clocks locked publisher limit lease t.judging).1
after_use net clocks (marks id) t = with_judging t (mark_published net clocks id t.judging).1
after_use net clocks (reconciles gen) t =
    with_judging t (reconcile_outbox net clocks gen t.judging).1

unfoldable pub live : List (Net × Clocks × Use) → Platform → Platform
live [] t = t
live ((net, clocks, use_of) ∷ rest) t = live rest (after_use net clocks use_of t)

-- Only the outbox differs.
IsSameWork : Tables → Tables → Type 0
IsSameWork t t' =
    (t'.submissions ≡ t.submissions) × (t'.submission_attempts ≡ t.submission_attempts)

IsWellFormed-IsSameWork : (t t' : Tables) → IsSameWork t t' → IsWellFormed t → IsWellFormed t'
unfolding IsSameWork
IsWellFormed-IsSameWork t t' (subs, atts) wf =
    subst
      (λ xs.
        IsLinked (λ i. find submission_key i xs) (λ a. find attempt_key a t'.submission_attempts))
      (sym subs)
      (subst
        (λ ys. IsLinked (λ i. find submission_key i t.submissions) (λ a. find attempt_key a ys))
        (sym atts) wf)

commit_as-IsSameWork :
    (c : Commit) (t t' : Tables) → IsSameWork t t' → IsSameWork t (commit_as c t t').1
unfolding IsSameWork
commit_as-IsSameWork committed t t' h = h
commit_as-IsSameWork aborted t t' h = (refl, refl)
commit_as-IsSameWork lost t t' h = h

claim_outbox-IsSameWork :
    (net : Net) (clocks : Clocks) (locked : ℕ → Bool) (publisher : Bytes) (limit lease : ℤ)
    (t : Tables)
    → IsSameWork t (claim_outbox net clocks locked publisher limit lease t).1
unfolding IsSameWork claim_outbox
claim_outbox-IsSameWork net clocks locked publisher limit lease t =
    let h =
      commit_as-IsSameWork net.commit t
        (after_lease clocks publisher lease (ready_rows clocks locked limit t) t) (refl, refl) in
    (ground (arith, h.0), ground (arith, h.1))

-- A submission that is new and has no attempt.
added-IsWellFormed :
    (r : SubmissionRow) (events : List EventRow) (t : Tables)
    → r.status ≡ queued
    → r.current_attempt_id ≡ none
    → find submission_key r.id t.submissions ≡ none
    → IsWellFormed t
    → IsWellFormed (record t { submissions = r ∷ t.submissions; outbox_events = events })
unfolding find
added-IsWellFormed r events t waits free unused wf = record {
  current = λ i s e. elim (Bool-cases (r.id == i)) [
    | inl here ↦
        let is : r ≡ s = ground (arith, here, e) in
        subst (λ y. CurrentOk (λ a. find_attempt a t) i y y.current_attempt_id) is
          (subst (CurrentOk (λ a. find_attempt a t) i r) (sym free) waits)
    | inr away ↦ wf.current i s (ground (arith, away, e))
  ];
  belongs = λ a q e. elim (Bool-cases (r.id == q.submission_id)) [
    | inl here ↦
        let gone : find_submission q.submission_id t ≡ none = ground (arith, here, unused) in
        absurd (subst (BelongsTo a q) gone (wf.belongs a q e))
    | inr away ↦
        let kept : find_submission q.submission_id t
            ≡ find submission_key q.submission_id (r ∷ t.submissions) =
          ground (arith, away) in
        subst (BelongsTo a q) kept (wf.belongs a q e)
  ];
}

mark_published-IsSameWork :
    (net : Net) (clocks : Clocks) (id : ℕ) (t : Tables)
    → IsSameWork t (mark_published net clocks id t).1
unfolding IsSameWork mark_published
mark_published-IsSameWork net clocks id t =
    let marked = record t {
      outbox_events = update (is_open_event id) (publish_event clocks) t.outbox_events;
    } in
    let h = commit_as-IsSameWork net.commit t marked (refl, refl) in
    (ground (arith, h.0), ground (arith, h.1))

restored-IsSameWork :
    (net : Net) (t : Tables) (n : ℕ) (r : Reply (List EventRow))
    → IsSameWork t (restored net t n r).1
unfolding IsSameWork
restored-IsSameWork net t n (err e) = (refl, refl)
restored-IsSameWork net t n (ok events) =
    commit_as-IsSameWork net.commit t (record t { outbox_events = events }) (refl, refl)

reconcile_outbox-IsSameWork :
    (net : Net) (clocks : Clocks) (gen : ℕ → ℕ) (t : Tables)
    → IsSameWork t (reconcile_outbox net clocks gen t).1
unfolding IsSameWork reconcile_outbox
reconcile_outbox-IsSameWork net clocks gen t = elim (Bool-cases (net.call 0)) [
  | inl answered ↦ rw answered (restored-IsSameWork net t _ _)
  | inr lost_call ↦ rw lost_call (refl, refl)
]

create_submission-IsWellFormed :
    (net : Net) (clocks : Clocks) (n m user id : ℕ) (language source : Bytes) (t : Platform)
    → IsWellFormed t.judging
    → IsWellFormed (create_submission net clocks n m user id language source t).1.judging
unfolding create_submission
create_submission-IsWellFormed net clocks n m user id language source t wf =
    elim (settle_with_cases net t (submit net clocks n m user id language source t)) [
      | inl same ↦ subst (λ x. IsWellFormed x.judging) (sym same) wf
      | inr (sub, t', done, leaves) ↦
          let s = submit-IsSubmitted net clocks n m user id language source t sub t' done in
          subst (λ x. IsWellFormed x.judging) (sym (leaves ∙ s.leaves))
            (added-IsWellFormed (new_submission clocks n user id language source s.problem)
              (new_event clocks m n clocks.db_now ∷ t.judging.outbox_events) t.judging refl refl
              s.unused wf)
    ]

save_problem-IsWellFormed :
    (net : Net) (n : ℕ) (p : Problem) (t : Platform)
    → IsWellFormed t.judging
    → IsWellFormed (save_problem net n p t).1.judging
unfolding save_problem
save_problem-IsWellFormed net n p t wf =
    elim (settle_with_cases net t (replace_problem net n p t)) [
      | inl same ↦ subst (λ x. IsWellFormed x.judging) (sym same) wf
      | inr (q, t', done, leaves) ↦
          let (id, is, stored, kept) = replace_problem-IsStored net n p q t t' done in
          subst IsWellFormed (sym (ap (λ x. x.judging) leaves ∙ kept)) wf
    ]

after_use-IsWellFormed :
    (net : Net) (clocks : Clocks) (use_of : Use) (t : Platform)
    → IsWellFormed t.judging
    → IsWellFormed (after_use net clocks use_of t).judging
unfolding after_use
after_use-IsWellFormed net clocks (judges call) t wf =
    after_call-IsWellFormed net clocks call t.judging wf
after_use-IsWellFormed net clocks (submits n m user id language source) t wf =
    create_submission-IsWellFormed net clocks n m user id language source t wf
after_use-IsWellFormed net clocks (authors n p) t wf = save_problem-IsWellFormed net n p t wf
after_use-IsWellFormed net clocks (leases locked publisher limit lease) t wf =
    IsWellFormed-IsSameWork t.judging _
      (claim_outbox-IsSameWork net clocks locked publisher limit lease t.judging) wf
after_use-IsWellFormed net clocks (marks id) t wf =
    IsWellFormed-IsSameWork t.judging _ (mark_published-IsSameWork net clocks id t.judging) wf
after_use-IsWellFormed net clocks (reconciles gen) t wf =
    IsWellFormed-IsSameWork t.judging _ (reconcile_outbox-IsSameWork net clocks gen t.judging) wf

live-IsWellFormed :
    (uses : List (Net × Clocks × Use)) (t : Platform)
    → IsWellFormed t.judging
    → IsWellFormed (live uses t).judging
unfolding live
live-IsWellFormed [] t wf = wf
live-IsWellFormed ((net, clocks, use_of) ∷ rest) t wf =
    live-IsWellFormed rest (after_use net clocks use_of t)
      (after_use-IsWellFormed net clocks use_of t wf)

-- A database of which the judging tables are empty.
abbrev pub fresh : Platform → Platform
fresh t = record t {
  judging = record { submissions = []; submission_attempts = []; outbox_events = [] };
}

fresh-IsWellFormed : (t : Platform) → IsWellFormed (fresh t).judging
unfolding find
fresh-IsWellFormed t = record {
  current = λ i s e. absurd (ground (arith, e));
  belongs = λ a r e. absurd (ground (arith, e));
}

-- From empty judging tables on, whatever the API, the publishers and the workers do with the store,
-- in whatever order, and whichever statements and commits fail: a queued submission has no current
-- attempt; any other has one, in the same state and with its attempt count for a number; and each
-- attempt belongs to a submission that has counted it and is its current attempt while it is live.
pub live_lem :
    (uses : List (Net × Clocks × Use)) (t : Platform) → IsWellFormed (live uses (fresh t)).judging
live_lem uses t = live-IsWellFormed uses (fresh t) (fresh-IsWellFormed t)
