-- ===== src/Database/Events/Leases.antt =====
-- What a claim of outbox events takes and gives.
use online_coding_judge.Prelude.{
  ℕ, zero, suc, ℤ, pos_part, Bool, true, false, List, [], ◌∷◌, Bytes, take, map, ◌==◌, ◌||◌, ◌≡◌,
  refl, ◌∙◌, ap, All, arith, Bool-cases, inl, inr,
}
use online_coding_judge.Errors.{ok}
use online_coding_judge.Database.Table.{select, exists, place, sort_by}
use online_coding_judge.Database.Tables.{EventRow, Tables}
use online_coding_judge.Database.Transaction.{Net, Clocks}
use online_coding_judge.Database.Events.{
  is_ready, ready_rows, holds_id, event_of, after_lease, claim_outbox,
}
use online_coding_judge.Outbox.{Event}

module _ {A : Type 0} (Q : A → Type 0) where
  pub select-All :
      (p : A → Bool) (xs : List A) → All (λ x. p x ≡ true → Q x) xs → All Q (select p xs)
  unfolding select
  select-All p [] h = tt
  select-All p (x ∷ xs) (h, hs) = elim (Bool-cases (p x)) [
    | inl yes_p ↦ rw yes_p (h yes_p, select-All p xs hs)
    | inr no_p ↦ rw no_p (select-All p xs hs)
  ]

  place-All : (le : A → A → Bool) (x : A) (xs : List A) → Q x → All Q xs → All Q (place le x xs)
  unfolding place
  place-All le x [] q h = (q, tt)
  place-All le x (y ∷ ys) q (h, hs) = elim (Bool-cases (le x y)) [
    | inl first ↦ rw first (q, (h, hs))
    | inr later ↦ rw later (h, place-All le x ys q hs)
  ]

  pub sort_by-All : (le : A → A → Bool) (xs : List A) → All Q xs → All Q (sort_by le xs)
  unfolding sort_by
  sort_by-All le [] h = tt
  sort_by-All le (x ∷ xs) (h, hs) = place-All le x _ h (sort_by-All le xs hs)

  pub take-All : (n : ℕ) (xs : List A) → All Q xs → All Q (take n xs)
  take-All zero xs h = tt
  take-All (suc n) [] h = tt
  take-All (suc n) (x ∷ xs) (h, hs) = (h, take-All n xs hs)

-- What holds of every row that may be leased holds of the rows that are.
pub ready_rows-All :
    (Q : EventRow → Type 0) (clocks : Clocks) (locked : ℕ → Bool) (limit : ℤ) (t : Tables)
    → All (λ o. is_ready clocks locked o ≡ true → Q o) t.outbox_events
    → All Q (ready_rows clocks locked limit t)
unfolding ready_rows
ready_rows-All Q clocks locked limit t h =
    take-All Q (pos_part limit) _ (sort_by-All Q _ _ (select-All Q _ t.outbox_events h))

-- Is the event among these?
abbrev pub is_among : List Event → ℕ → Bool
is_among vs id = exists (λ (v : Event). v.id == id) vs

pub among_rows :
    (rows : List EventRow) (o : EventRow) → is_among (map event_of rows) o.id ≡ holds_id rows o
unfolding exists
among_rows [] o = refl
among_rows (r ∷ rows) o = ap (λ b. (r.id == o.id) || b) (among_rows rows o)

pub events_free :
    (rows : List EventRow) (xs : List EventRow)
    → All (λ o. holds_id rows o ≡ false) xs
    → All (λ (v : Event). is_among (map event_of rows) v.id ≡ false) (map event_of xs)
events_free rows [] h = tt
events_free rows (x ∷ xs) (h, hs) = (among_rows rows x ∙ h, events_free rows xs hs)

-- A claim that succeeds gives the events of the rows that it has leased.
pub claim_ok :
    (net : Net) (clocks : Clocks) (locked : ℕ → Bool) (publisher : Bytes) (limit lease : ℤ)
    (t : Tables) (es : List Event)
    → (claim_outbox net clocks locked publisher limit lease t).0 ≡ ok es
    → let rows = ready_rows clocks locked limit t in
      (map event_of rows ≡ es)
      × ((claim_outbox net clocks locked publisher limit lease t).1
          ≡ after_lease clocks publisher lease rows t)
unfolding claim_outbox
claim_ok net clocks locked publisher limit lease t es e = ground (arith, e)
