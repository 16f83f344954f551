-- ===== src/Database/Events/Exclusion.antt =====
-- Publishers share the outbox: no event is leased to two of them at a time.
use online_coding_judge.Prelude.{
  ℕ, ◌+◌, ◌≤◌, ℤ, pos_part, Bool, true, false, List, [], ◌∷◌, Bytes, some, is_some, map, ◌==◌,
  ==-refl, ◌≡◌, refl, sym, subst, ap, ◌∙◌, All, ◌⊎◌, arith, Bool-cases, inl, inr,
}
use online_coding_judge.Errors.{ok}
use online_coding_judge.Database.Table.{find, exists, update, find-update}
use online_coding_judge.Database.Tables.{EventRow, Tables, event_key}
use online_coding_judge.Database.Transaction.{Net, Clocks}
use online_coding_judge.Database.Events.{
  is_ready, ready_rows, holds_id, lease_event, event_of, after_lease, claim_outbox,
}
use online_coding_judge.Database.Events.Leases.{ready_rows-All, is_among, events_free, claim_ok}
use online_coding_judge.Database.Events.Guarding.{Guards, unready-held}
use online_coding_judge.Database.Events.Turns.{Turn, turns, IsAt, Guards-turns}
use online_coding_judge.Outbox.{Event}

-- Is the id that of one of these rows?
abbrev is_held : List EventRow → ℕ → Bool
is_held rows k = exists (λ (r : EventRow). r.id == k) rows

-- The row is published, or leased until then.
abbrev IsBusy : ℕ → EventRow → Type 0
IsBusy end o = (is_some o.published_at ≡ true) ⊎ (o.claimed_until ≡ some end)

busy_unready :
    (end : ℕ) (clocks : Clocks) (locked : ℕ → Bool) (o : EventRow)
    → clocks.db_now ≤ end
    → IsBusy end o
    → is_ready clocks locked o ≡ false
busy_unready end clocks locked o early (inl done) = ground (arith, done)
busy_unready end clocks locked o early (inr leased) = ground (arith, leased, early)

leased_good :
    (clocks : Clocks) (publisher : Bytes) (lease : ℤ) (rows events : List EventRow)
    → All
        (λ o. is_held rows o.id ≡ true → IsBusy (clocks.db_now + pos_part lease) o)
        (update (holds_id rows) (lease_event clocks publisher lease) events)
unfolding update
leased_good clocks publisher lease rows [] = tt
leased_good clocks publisher lease rows (o ∷ os) = elim (Bool-cases (holds_id rows o)) [
  | inl held ↦ rw held (λ h. inr refl, leased_good clocks publisher lease rows os)
  | inr free ↦
      rw free (λ h. absurd (ground (arith, h, free)), leased_good clocks publisher lease rows os)
]

-- The id of each row is taken.
abbrev IsTaken : List EventRow → EventRow → Type 0
IsTaken events o = is_some (find event_key o.id events) ≡ true

IsTaken-behind :
    (x : EventRow) (events rows : List EventRow)
    → All (IsTaken events) rows
    → All (IsTaken (x ∷ events)) rows
unfolding find
IsTaken-behind x events [] h = tt
IsTaken-behind x events (o ∷ os) (h, hs) = (ground (arith, h), IsTaken-behind x events os hs)

IsTaken-All : (events : List EventRow) → All (IsTaken events) events
unfolding find
IsTaken-All [] = tt
IsTaken-All (o ∷ os) = (ground (arith, ==-refl o.id), IsTaken-behind o os os (IsTaken-All os))

if_ready :
    (p : EventRow → Bool) (events rows : List EventRow)
    → All (IsTaken events) rows
    → All (λ o. p o ≡ true → IsTaken events o) rows
if_ready p events [] h = tt
if_ready p events (o ∷ os) (h, hs) = (λ e. h, if_ready p events os hs)

held_taken :
    (rows events : List EventRow) (k : ℕ)
    → All (IsTaken events) rows
    → is_held rows k ≡ true
    → is_some (find event_key k events) ≡ true
unfolding exists
held_taken [] events k h e = cc
held_taken (r ∷ rows) events k (h, hs) e = elim (Bool-cases (r.id == k)) [
  | inl same ↦
      let is : r.id ≡ k = ground (arith, same) in
      ap (λ i. is_some (find event_key i events)) (sym is) ∙ h
  | inr other ↦ held_taken rows events k hs (ground (arith, other, e))
]

-- After a claim, the rows that it has leased are busy.
leased-Guards :
    (clocks : Clocks) (locked : ℕ → Bool) (publisher : Bytes) (limit lease : ℤ) (t : Tables)
    → let rows = ready_rows clocks locked limit t in
      Guards
        (is_held rows)
        (IsBusy (clocks.db_now + pos_part lease))
        (after_lease clocks publisher lease rows t).outbox_events
leased-Guards clocks locked publisher limit lease t =
    let rows = ready_rows clocks locked limit t in
    let events = t.outbox_events in
    let taken =
      ready_rows-All (IsTaken events) clocks locked limit t
        (if_ready (is_ready clocks locked) events events (IsTaken-All events)) in
    record {
      taken = λ k e. ground (
        arith,
        find-update event_key (holds_id rows) (lease_event clocks publisher lease) (λ o. refl) k
            events,
        held_taken rows events k taken e,
      );
      good = leased_good clocks publisher lease rows events;
    }

-- While the lease of a claim lasts, and whatever statements of any publishers and additions to the
-- outbox come in between, no later claim gets one of its events.
pub claims_disjoint :
    (net net' : Net) (clocks clocks' : Clocks) (locked locked' : ℕ → Bool)
    (publisher publisher' : Bytes) (limit limit' lease lease' : ℤ)
    (between : List (Net × Clocks × Turn)) (t : Tables) (es es' : List Event)
    → (claim_outbox net clocks locked publisher limit lease t).0 ≡ ok es
    → All (IsAt (λ now. now ≤ clocks.db_now + pos_part lease)) between
    → clocks'.db_now ≤ clocks.db_now + pos_part lease
    → (claim_outbox net' clocks' locked' publisher' limit' lease'
        (turns between (claim_outbox net clocks locked publisher limit lease t).1)).0
      ≡ ok es'
    → All (λ (v : Event). is_among es v.id ≡ false) es'
claims_disjoint net net' clocks clocks' locked locked' publisher publisher' limit limit' lease
      lease' between t es es' first early now second =
    let end = clocks.db_now + pos_part lease in
    let rows = ready_rows clocks locked limit t in
    let (gives, leases) = claim_ok net clocks locked publisher limit lease t es first in
    let guarded =
      subst (λ (x : Tables). Guards (is_held rows) (IsBusy end) x.outbox_events) (sym leases)
        (leased-Guards clocks locked publisher limit lease t) in
    let kept =
      Guards-turns (is_held rows) (IsBusy end) (λ n. n ≤ end)
        (λ c l o by busy. busy_unready end c l o by busy) (λ c o. inl refl) between _ early
        guarded in
    let t' = turns between (claim_outbox net clocks locked publisher limit lease t).1 in
    let (gives', leases') = claim_ok net' clocks' locked' publisher' limit' lease' t' es' second in
    let free =
      unready-held (is_held rows) (IsBusy end) clocks' locked' limit' t'
        (λ o busy. busy_unready end clocks' locked' o now busy) kept in
    subst (λ x. All (λ (v : Event). is_among x v.id ≡ false) es') gives
      (subst (All (λ (v : Event). is_among (map event_of rows) v.id ≡ false)) gives'
        (events_free rows _ free))
