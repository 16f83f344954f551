-- ===== src/Tests/Outboxes.antt =====
-- The outbox statements at concrete tables.
use online_coding_judge.Prelude.{
  ℕ, ◌+◌, List, pos, [], ◌∷◌, text, Bool, true, false, none, ◌≡◌, refl, arith, All, ◌⊎◌, length,
  bytes_eq,
}
use online_coding_judge.Submissions.{is_same}
use online_coding_judge.Database.Tables.{EventRow, Tables}
use online_coding_judge.Database.Table.{find, insert, update, select, exists, place, sort_by, count}
use online_coding_judge.Database.Events.{
  is_ready, ready_rows, claim_outbox, mark_published, is_forgotten, add_events, reconcile_outbox,
}
use online_coding_judge.Database.Events.Leases.{is_among}
use online_coding_judge.Database.Events.Turns.{Turn, marks, reconciles, turns}
use online_coding_judge.Database.Events.Exclusion.{claims_disjoint}
use online_coding_judge.Database.Transaction.{Net, Clocks}
use online_coding_judge.Database.Events.Progress.{claim_outbox_takes}
use online_coding_judge.Database.Events.Publishing.{marked_stays}
use online_coding_judge.Database.Events.Restoring.{is_covered, is_waiting, reconcile_restores}
use online_coding_judge.Outbox.{Event}
use online_coding_judge.Tests.Data.{waiting, online, at_100}

abbrev early_event : EventRow
early_event = record {
  id = 3;
  submission_id = 1;
  available_at = 60;
  claimed_by = none;
  claimed_until = none;
  published_at = none;
  created_at = 50;
}

abbrev late_event : EventRow
late_event = record early_event { id = 4; created_at = 55 }

abbrev two_events : Tables
two_events = record waiting { outbox_events = late_event ∷ early_event ∷ [] }

abbrev unlocked : ℕ → Bool
unlocked k = false

abbrev early : Event
early = record { id = 3; submission_id = 1 }

abbrev late : Event
late = record { id = 4; submission_id = 1 }

abbrev from_7 : ℕ → ℕ
from_7 k = 7 + k

-- The leased event is published, and the outbox is reconciled.
abbrev meanwhile : List (Net × Clocks × Turn)
meanwhile = (online, at_100, marks 3) ∷ (online, at_100, reconciles from_7) ∷ []

claims_disjoint_example : All (λ (v : Event). is_among (early ∷ []) v.id ≡ false) (late ∷ [])
unfolding turns claim_outbox mark_published reconcile_outbox add_events ready_rows select place
    sort_by update exists count is_same bytes_eq
claims_disjoint_example =
    claims_disjoint online online at_100 at_100 unlocked unlocked (text "a") (text "b") (pos 1)
      (pos 5) (pos 30) (pos 30) meanwhile two_events (early ∷ []) (late ∷ []) refl
      (omega arith, (omega arith, tt)) (omega arith) refl

claim_outbox_takes_example :
    (All
      (λ (o : EventRow).
        is_ready at_100 unlocked o ≡ true → is_among (early ∷ late ∷ []) o.id ≡ true)
      two_events.outbox_events)
    ⊎ (length (early ∷ late ∷ []) ≡ 5)
unfolding claim_outbox ready_rows select place sort_by update exists bytes_eq
claim_outbox_takes_example =
    claim_outbox_takes online at_100 unlocked (text "a") (pos 5) (pos 30) two_events
      (early ∷ late ∷ []) refl

abbrev afterwards : List (Net × Clocks × Turn)
afterwards = (online, at_100, reconciles from_7) ∷ (online, at_100, marks 9) ∷ []

marked_stays_example :
    (is_among (late ∷ []) 3 ≡ false)
    × ¬ (
        (mark_published online at_100 3
          (turns afterwards (mark_published online at_100 3 two_events).1)).0
        ≡ none)
unfolding turns mark_published claim_outbox reconcile_outbox add_events ready_rows select place
    sort_by update exists count is_same bytes_eq
marked_stays_example =
    marked_stays online online at_100 at_100 unlocked 3 (text "b") (pos 5) (pos 30) afterwards
      two_events (late ∷ []) refl refl

reconcile_restores_example :
    let t' = (reconcile_outbox online at_100 from_7 waiting).1 in
    All
      (λ s. is_waiting at_100 s ≡ true → is_covered at_100 t'.outbox_events s ≡ true)
      t'.submissions
    × (t'.submissions ≡ waiting.submissions)
    × (length (select (is_forgotten at_100 waiting.outbox_events) waiting.submissions) ≡ 1)
unfolding reconcile_outbox add_events select exists find insert is_same
reconcile_restores_example = reconcile_restores online at_100 from_7 waiting 1 refl
