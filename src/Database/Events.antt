-- ===== src/Database/Events.antt =====
-- `ClaimOutbox`, `MarkPublished` and `ReconcileOutbox` of internal/database/judging.go. Each is one
-- statement, which commits by itself.
pub mod Leases
pub mod Progress
pub mod Publishing
pub mod Restoring
pub mod Guarding
pub mod Turns
pub mod Exclusion
use online_coding_judge.Prelude.{
  ℕ, suc, ◌+◌, ◌≤◌, ℤ, above, below, pos_part, Bool, true, false, not, List, [], ◌∷◌, Bytes,
  bytes_eq, Option, none, some, is_some, length, take, map, ltb, leb, ◌==◌, ◌&&◌, ◌||◌,
  if◌then◌else◌,
}
use online_coding_judge.Errors.{
  Error, Reply, ok, err, ◌>>=◌, or_fail, invalid_outbox_lease, no_rows, unique_violation,
}
use online_coding_judge.Submissions.{queued, is_same}
use online_coding_judge.Database.Table.{select, exists, order_by, insert, update, count}
use online_coding_judge.Database.Tables.{SubmissionRow, EventRow, Tables, event_key}
use online_coding_judge.Database.Transaction.{Net, Clocks, commit_as, reply_to, disconnected}
use online_coding_judge.Database.Attempts.{new_event, five_minutes}
use online_coding_judge.Outbox.{Event}

-- claimed_until IS NULL OR claimed_until<now()
abbrev pub is_free : Clocks → Option ℕ → Bool
is_free clocks none = true
is_free clocks (some until) = ltb until clocks.db_now

-- A row that may be leased. `locked` tells the rows that another transaction has locked, which are
-- skipped.
abbrev pub is_ready : Clocks → (ℕ → Bool) → EventRow → Bool
is_ready clocks locked o =
    not (is_some o.published_at)
    && (leb o.available_at clocks.db_now && (is_free clocks o.claimed_until && not (locked o.id)))

-- The rows of the WITH clause.
unfoldable pub ready_rows : Clocks → (ℕ → Bool) → ℤ → Tables → List EventRow
ready_rows clocks locked limit t =
    take (pos_part limit)
      (order_by (λ (o : EventRow). o.created_at) (select (is_ready clocks locked) t.outbox_events))

abbrev pub holds_id : List EventRow → EventRow → Bool
holds_id rows o = exists (λ (r : EventRow). r.id == o.id) rows

abbrev pub lease_event : Clocks → Bytes → ℤ → EventRow → EventRow
lease_event clocks publisher lease o = record o {
  claimed_by = some publisher;
  claimed_until = some (clocks.db_now + pos_part lease);
}

abbrev pub event_of : EventRow → Event
event_of o = record { id = o.id; submission_id = o.submission_id }

abbrev pub after_lease : Clocks → Bytes → ℤ → List EventRow → Tables → Tables
after_lease clocks publisher lease rows t = record t {
  outbox_events = update (holds_id rows) (lease_event clocks publisher lease) t.outbox_events;
}

-- `ClaimOutbox`
unfoldable pub claim_outbox :
    Net → Clocks → (ℕ → Bool) → Bytes → ℤ → ℤ → Tables → Reply (List Event) × Tables
claim_outbox net clocks locked publisher limit lease t =
    let rows = ready_rows clocks locked limit t in
    let (failed, t') = commit_as net.commit t (after_lease clocks publisher lease rows t) in
    if bytes_eq publisher [] || (below limit 1 || (above limit 100 || not (above lease 0)))
    then (err invalid_outbox_lease, t)
    else if not (net.call 0)
    then (err disconnected, t)
    else (reply_to (map event_of rows) failed, t')

abbrev pub is_open_event : ℕ → EventRow → Bool
is_open_event id o = o.id == id && not (is_some o.published_at)

abbrev pub publish_event : Clocks → EventRow → EventRow
publish_event clocks o = record o { published_at = some clocks.db_now; claimed_until = none }

-- `MarkPublished`
unfoldable pub mark_published : Net → Clocks → ℕ → Tables → Option Error × Tables
mark_published net clocks id t =
    let marked = record t {
      outbox_events = update (is_open_event id) (publish_event clocks) t.outbox_events;
    } in
    let (failed, t') = commit_as net.commit t marked in
    let missing = if count (is_open_event id) t.outbox_events == 1 then none else some no_rows in
    if not (net.call 0)
    then (some disconnected, t)
    else (elim failed [ some e ↦ some e | none ↦ missing ], t')

-- retry_after IS NULL OR retry_after<=now()
abbrev pub is_due : Clocks → Option ℕ → Bool
is_due clocks none = true
is_due clocks (some after) = leb after clocks.db_now

abbrev pub is_pending_for : ℕ → EventRow → Bool
is_pending_for id o = o.submission_id == id && not (is_some o.published_at)

-- created_at>=now()-interval '5 minutes'
abbrev pub is_recent_for : Clocks → ℕ → EventRow → Bool
is_recent_for clocks id o = o.submission_id == id && leb clocks.db_now (o.created_at + five_minutes)

-- A queued submission whose publication is missing.
abbrev pub is_forgotten : Clocks → List EventRow → SubmissionRow → Bool
is_forgotten clocks events s =
    is_same s.status queued
    && (is_due clocks s.retry_after
        && (not (exists (is_pending_for s.id) events)
            && not (exists (is_recent_for clocks s.id) events)))

-- The rows of the INSERT … SELECT; `gen` gives the ids that the database generates, from `k` on.
unfoldable pub add_events :
    Clocks → (ℕ → ℕ) → ℕ → List SubmissionRow → List EventRow → Reply (List EventRow)
add_events clocks gen k [] events = ok events
add_events clocks gen k (s ∷ ss) events = do
  added ←
      or_fail (insert event_key (new_event clocks (gen k) s.id clocks.db_now) events)
        unique_violation
  add_events clocks gen (suc k) ss added

abbrev pub restored : Net → Tables → ℕ → Reply (List EventRow) → Reply ℕ × Tables
restored net t n (err e) = (err e, t)
restored net t n (ok events) =
    let (failed, t') = commit_as net.commit t (record t { outbox_events = events }) in
    (reply_to n failed, t')

-- `ReconcileOutbox`
unfoldable pub reconcile_outbox : Net → Clocks → (ℕ → ℕ) → Tables → Reply ℕ × Tables
reconcile_outbox net clocks gen t =
    let forgotten = select (is_forgotten clocks t.outbox_events) t.submissions in
    if not (net.call 0)
    then (err disconnected, t)
    else restored net t (length forgotten) (add_events clocks gen 0 forgotten t.outbox_events)
