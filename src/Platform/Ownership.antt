-- ===== src/Platform/Ownership.antt =====
-- A submission is queued with its event in one step, and only its owner sees it.
use online_coding_judge.Prelude.{
  ℕ, ◌≤◌, Bool, true, false, not, is_some, length, bytes_eq_iff, ◌||◌, ◌∙◌, List, [], ◌∷◌, Bytes,
  bytes_eq, text, none, some, ◌==◌, ◌&&◌, if◌then◌else◌, ◌≡◌, refl, sym, ap, subst, ◌⊎◌, inl, inr,
  arith, Option-cases, ==-refl,
}
use online_coding_judge.Errors.{ok, Reply-cases}
use online_coding_judge.Problems.{Problem}
use online_coding_judge.Submissions.{queued}
use online_coding_judge.Database.Table.{find, insert, insert_ok, select, exists, place, sort_by}
use online_coding_judge.Database.Tables.{SubmissionRow, EventRow, submission_key, event_key}
use online_coding_judge.Database.Transaction.{Net, Clocks, settle_with_ok, settle_with_cases}
use online_coding_judge.Database.Attempts.{new_event}
use online_coding_judge.Database.Queries.{find_submission}
use online_coding_judge.Platform.Tables.{Platform}
use online_coding_judge.Platform.Authoring.{load_problem}
use online_coding_judge.Platform.Submitting.{
  Submission, is_valid_source, is_offered, new_submission, submission_of, with_submission, submit,
  create_submission, is_shown, history,
}

module _ (net : Net) (clocks : Clocks) (n m user id : ℕ) (language source : Bytes)
    (t : Platform) where
  -- What a transaction that reaches its COMMIT has read and written.
  pub record IsSubmitted (sub : Submission) (t' : Platform) : Type 0 where
    pub problem : Problem
    pub loaded : load_problem net 2 id t ≡ ok problem
    pub open_for :
        (is_valid_source source
          && (bytes_eq problem.status (text "published")
              && is_offered false language problem.languages))
        ≡ true
    pub unused : find submission_key n t.judging.submissions ≡ none
    pub shows : sub ≡ submission_of (new_submission clocks n user id language source problem)
    pub leaves :
        t'
        ≡ with_submission
            (new_submission clocks n user id language source problem ∷ t.judging.submissions)
            (new_event clocks m n clocks.db_now ∷ t.judging.outbox_events)
            t

  pub submit-IsSubmitted :
      (sub : Submission) (t' : Platform)
      → submit net clocks n m user id language source t ≡ ok (sub, t')
      → IsSubmitted sub t'
  unfolding submit
  submit-IsSubmitted sub t' h = elim (Reply-cases (load_problem net 2 id t)) [
    | inr (e, x) ↦ absurd (ground (arith, x, h))
    | inl (p, x) ↦
        elim (Option-cases (
          insert submission_key (new_submission clocks n user id language source p)
            t.judging.submissions)) [
              | inl y ↦ absurd (ground (arith, x, y, h))
              | inr (subs, y) ↦
                  elim (Option-cases (
                    insert event_key (new_event clocks m n clocks.db_now)
                      t.judging.outbox_events)) [
                        | inl z ↦ absurd (ground (arith, x, y, z, h))
                        | inr (events, z) ↦
                            let (added, unused) =
                              insert_ok submission_key _ t.judging.submissions subs y in
                            let (noted, fresh) =
                              insert_ok event_key _ t.judging.outbox_events events z in
                            record {
                              problem = p;
                              loaded = x;
                              open_for = ground (arith, x, h);
                              unused = unused;
                              shows = ground (arith, x, y, z, h);
                              leaves = ground (arith, x, y, z, h, added, noted);
                            }
                      ]
            ]
  ]

  is_offered_iff :
      (valid : Bool) (ls : List Bytes)
      → is_offered valid language ls ≡ valid || exists (λ l. bytes_eq l language) ls
  unfolding is_offered exists
  is_offered_iff valid [] = ground arith
  is_offered_iff valid (l ∷ ls) =
      is_offered_iff (valid || bytes_eq l language) ls ∙ ground (arith, valid, bytes_eq l language)

  -- A new row of the submission, for what the caller has asked and for the problem as it was read.
  pub record IsQueuedFor (p : Problem) (r : SubmissionRow) : Type 0 where
    pub named : r.id ≡ n
    pub owned : r.user_id ≡ user
    pub asked : r.problem_id ≡ id
    pub written_in : r.language_id ≡ language
    pub sent : r.source_code ≡ source
    pub frozen : r.problem_snapshot ≡ some p
    pub waiting : r.status ≡ queued
    pub unjudged : r.verdict ≡ none
    pub unclaimed : r.current_attempt_id ≡ none
    pub untried : r.attempt_count ≡ 0
    pub planned : r.tests_total ≡ length p.tests
    pub dated : r.created_at ≡ clocks.db_now

  -- The problem as it was read may be submitted to, in the language, with that source.
  pub record IsOpen (p : Problem) : Type 0 where
    pub has_text : 1 ≤ length source
    pub short : length source ≤ 65536
    pub published : p.status ≡ text "published"
    pub offered : exists (λ l. bytes_eq l language) p.languages ≡ true

  IsOpen-valid :
      (p : Problem)
      → (is_valid_source source
          && (bytes_eq p.status (text "published") && is_offered false language p.languages))
        ≡ true
      → IsOpen p
  IsOpen-valid p h = record {
    has_text = ground (arith, h);
    short = ground (arith, h);
    published = (bytes_eq_iff p.status (text "published")).0 (ground (arith, h));
    offered = ground (arith, h, is_offered_iff false p.languages);
  }

  -- The submission `n` is in the tables with an event for it.
  abbrev pub IsCreated : Platform → Type 0
  IsCreated t' =
      (p : Problem) × (r : SubmissionRow) × (load_problem net 2 id t ≡ ok p)
      × IsOpen p
      × (find_submission n t'.judging ≡ some r)
      × IsQueuedFor p r
      × (exists (λ (e : EventRow). e.submission_id == n && not (is_some e.published_at))
            t'.judging.outbox_events
          ≡ true)

  IsCreated-submitted : (sub : Submission) (t' : Platform) → IsSubmitted sub t' → IsCreated t'
  unfolding find exists
  IsCreated-submitted sub t' s = (
    s.problem,
    new_submission clocks n user id language source s.problem,
    s.loaded,
    IsOpen-valid s.problem s.open_for,
    ground (arith, s.leaves, ==-refl n),
    record {
      named = refl;
      owned = refl;
      asked = refl;
      written_in = refl;
      sent = refl;
      frozen = refl;
      waiting = refl;
      unjudged = refl;
      unclaimed = refl;
      untried = refl;
      planned = refl;
      dated = refl;
    },
    ground (arith, s.leaves, ==-refl n),
  )

  -- Whatever call fails, and even where the reply to the COMMIT is lost, no table has changed, or the
  -- submission is created: its row has the user, the problem, the language and the source of the
  -- call, the problem as it was read for its snapshot and the number of its tests, and is QUEUED,
  -- with no verdict and no attempt; an unpublished event for it is in the outbox; and its source has
  -- 1 to 65536 bytes, and the problem as read is published and offers the language.
  pub create_submission_atomic :
      let t' = (create_submission net clocks n m user id language source t).1 in
      (t' ≡ t) ⊎ IsCreated t'
  unfolding create_submission
  create_submission_atomic =
      elim (settle_with_cases net t (submit net clocks n m user id language source t)) [
        | inl same ↦ inl same
        | inr (sub, t', done, leaves) ↦ inr (
            subst IsCreated (sym leaves)
              (IsCreated-submitted sub t' (submit-IsSubmitted sub t' done)))
      ]

none_shown :
    (user n : ℕ) (rows : List SubmissionRow)
    → find submission_key n rows ≡ none
    → select (is_shown user (some n)) rows ≡ []
unfolding find select
none_shown user n [] h = refl
none_shown user n (r ∷ rows) h = ground (arith, h, none_shown user n rows)

-- One row that is looked for, in front of rows that have another id.
one_shown :
    (user : ℕ) (r : SubmissionRow) (rows : List SubmissionRow)
    → find submission_key r.id rows ≡ none
    → select (is_shown user (some r.id)) (r ∷ rows) ≡ (if r.user_id == user then r ∷ [] else [])
unfolding select
one_shown user r rows unused = ground (arith, none_shown user r.id rows unused, ==-refl r.id)

history_one :
    (net : Net) (user : ℕ) (r : SubmissionRow) (rows : List SubmissionRow) (t : Platform)
    → net.call 0 ≡ true
    → t.judging.submissions ≡ r ∷ rows
    → find submission_key r.id rows ≡ none
    → history net user (some r.id) t ≡ ok (if r.user_id == user then submission_of r ∷ [] else [])
unfolding history sort_by place
history_one net user r rows t answered is unused =
    ground (arith, answered, is, one_shown user r rows unused)

-- A submission that was created is at once what its owner reads under its id, as the reply of its
-- creation shows it, if the database answers. Every other user reads nothing under that id.
pub history-create_submission :
    (net net' : Net) (clocks : Clocks) (n m user id reader : ℕ) (language source : Bytes)
    (t : Platform) (sub : Submission)
    → (create_submission net clocks n m user id language source t).0 ≡ ok sub
    → net'.call 0 ≡ true
    → history net' reader
        (some sub.id)
        (create_submission net clocks n m user id language source t).1
      ≡ ok (if user == reader then sub ∷ [] else [])
unfolding create_submission
history-create_submission net net' clocks n m user id reader language source t sub created
      answered =
    let (t', done, leaves) =
      settle_with_ok net t (submit net clocks n m user id language source t) sub created in
    let s = submit-IsSubmitted net clocks n m user id language source t sub t' done in
    let r = new_submission clocks n user id language source s.problem in
    subst (λ x. history net' reader (some sub.id) x ≡ ok (if user == reader then sub ∷ [] else []))
      (sym leaves)
      (subst (λ v. history net' reader (some v.id) t' ≡ ok (if user == reader then v ∷ [] else []))
        (sym s.shows)
        (history_one net' reader r t.judging.submissions t' answered
          (ap (λ x. x.judging.submissions) s.leaves) s.unused))
