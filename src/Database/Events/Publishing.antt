-- ===== src/Database/Events/Publishing.antt =====
-- An event that is marked published is out of the outbox for good.
use online_coding_judge.Prelude.{
  ℕ, ◌≤◌, is_some, ℤ, Bool, true, false, List, [], ◌∷◌, Bytes, none, map, ◌==◌, ◌≡◌, refl, sym,
  subst, All, arith, Bool-cases, inl, inr,
}
use online_coding_judge.Errors.{ok}
use online_coding_judge.Database.Table.{find, exists, update, count, find-update}
use online_coding_judge.Database.Tables.{EventRow, Tables, event_key}
use online_coding_judge.Database.Transaction.{Net, Clocks}
use online_coding_judge.Database.Events.{
  is_ready, event_of, claim_outbox, is_open_event, publish_event, mark_published,
}
use online_coding_judge.Outbox.{Event}
use online_coding_judge.Database.Events.Leases.{is_among, claim_ok}
use online_coding_judge.Database.Events.Guarding.{Guards, unready-held}
use online_coding_judge.Database.Events.Turns.{Turn, turns, IsAt-always, Guards-turns}

-- The rows after a mark that succeeds.
abbrev after_mark : Clocks → ℕ → Tables → Tables
after_mark clocks id t = record t {
  outbox_events = update (is_open_event id) (publish_event clocks) t.outbox_events;
}

mark_ok :
    (net : Net) (clocks : Clocks) (id : ℕ) (t : Tables)
    → (mark_published net clocks id t).0 ≡ none
    → ((mark_published net clocks id t).1 ≡ after_mark clocks id t)
      × (1 ≤ count (is_open_event id) t.outbox_events)
unfolding mark_published
mark_ok net clocks id t e = (ground (arith, e), ground (arith, e))

published_unready :
    (clocks : Clocks) (locked : ℕ → Bool) (o : EventRow)
    → is_some o.published_at ≡ true
    → is_ready clocks locked o ≡ false
published_unready clocks locked o done = ground (arith, done)

-- After the mark, the rows with the id are published.
marked_good :
    (clocks : Clocks) (id : ℕ) (events : List EventRow)
    → All
        (λ o. (o.id == id) ≡ true → is_some o.published_at ≡ true)
        (update (is_open_event id) (publish_event clocks) events)
unfolding update
marked_good clocks id [] = tt
marked_good clocks id (o ∷ os) = elim (Bool-cases (is_open_event id o)) [
  | inl held ↦ rw held (λ e. refl, marked_good clocks id os)
  | inr done ↦ rw done (λ e. ground (arith, done, e), marked_good clocks id os)
]

open_taken :
    (id : ℕ) (events : List EventRow)
    → 1 ≤ count (is_open_event id) events
    → is_some (find event_key id events) ≡ true
unfolding count find
open_taken id [] h = absurd (omega arith)
open_taken id (o ∷ os) h = ground (arith, open_taken id os, h)

-- The id is taken, and its rows are published.
abbrev IsPublished : ℕ → Tables → Type 0
IsPublished id t = Guards (λ k. k == id) (λ o. is_some o.published_at ≡ true) t.outbox_events

marked-IsPublished :
    (net : Net) (clocks : Clocks) (id : ℕ) (t : Tables)
    → (mark_published net clocks id t).0 ≡ none
    → IsPublished id (mark_published net clocks id t).1
marked-IsPublished net clocks id t e =
    let (leaves, one) = mark_ok net clocks id t e in
    subst (IsPublished id) (sym leaves) (record {
      taken = λ k h.
          let is : k ≡ id = ground (arith, h) in
          let there = open_taken id t.outbox_events one in
          ground (
            arith,
            is,
            there,
            find-update event_key (is_open_event id) (publish_event clocks) (λ o. refl) k
                t.outbox_events,
          );
      good = marked_good clocks id t.outbox_events;
    })

none_among :
    (id : ℕ) (xs : List EventRow)
    → All (λ o. (o.id == id) ≡ false) xs
    → is_among (map event_of xs) id ≡ false
unfolding exists
none_among id [] h = refl
none_among id (x ∷ xs) (h, hs) = ground (arith, h, none_among id xs hs)

none_open :
    (id : ℕ) (events : List EventRow)
    → All (λ o. (o.id == id) ≡ true → is_some o.published_at ≡ true) events
    → count (is_open_event id) events ≡ 0
unfolding count
none_open id [] h = refl
none_open id (o ∷ os) (h, hs) = elim (Bool-cases (o.id == id)) [
  | inl same ↦ ground (arith, same, h same, none_open id os hs)
  | inr other ↦ ground (arith, other, none_open id os hs)
]

mark_again :
    (net : Net) (clocks : Clocks) (id : ℕ) (t : Tables)
    → count (is_open_event id) t.outbox_events ≡ 0
    → ¬ ((mark_published net clocks id t).0 ≡ none)
unfolding mark_published
mark_again net clocks id t closed e = ground (arith, closed, e)

-- Once an event is marked published, and whatever statements of any publishers and additions to the
-- outbox follow, no later claim returns it, and it cannot be marked a second time.
pub marked_stays :
    (net net' : Net) (clocks clocks' : Clocks) (locked : ℕ → Bool) (id : ℕ) (publisher : Bytes)
    (limit lease : ℤ) (between : List (Net × Clocks × Turn)) (t : Tables) (es : List Event)
    → (mark_published net clocks id t).0 ≡ none
    → (claim_outbox net' clocks' locked publisher limit lease
        (turns between (mark_published net clocks id t).1)).0
      ≡ ok es
    → (is_among es id ≡ false)
      × ¬ (
          (mark_published net' clocks' id (turns between (mark_published net clocks id t).1)).0
          ≡ none)
marked_stays net net' clocks clocks' locked id publisher limit lease between t es marked claimed =
    let is_it : ℕ → Bool = λ k. k == id in
    let Done : EventRow → Type 0 = λ o. is_some o.published_at ≡ true in
    let kept =
      Guards-turns is_it Done (λ n. Unit) (λ c l o by done. published_unready c l o done)
        (λ c o. refl) between _ (IsAt-always between) (marked-IsPublished net clocks id t marked) in
    let t' = turns between (mark_published net clocks id t).1 in
    let (gives, leases) = claim_ok net' clocks' locked publisher limit lease t' es claimed in
    (
      subst (λ x. is_among x id ≡ false) gives
          (none_among id _ (
            unready-held is_it Done clocks' locked limit t'
              (λ o done. published_unready clocks' locked o done) kept)),
      mark_again net' clocks' id t' (none_open id t'.outbox_events kept.good),
    )
