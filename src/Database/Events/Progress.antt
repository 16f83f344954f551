-- ===== src/Database/Events/Progress.antt =====
-- A claim leaves a ready event out only where its batch is full.
use online_coding_judge.Prelude.{
  ℕ, zero, suc, ℤ, pos_part, Bool, true, List, [], ◌∷◌, Bytes, length, take, ◌==◌, ◌||◌, ◌≡◌, refl,
  sym, ◌∙◌, subst, ap, All, length-map, arith, Bool-cases, inl, inr, ◌⊎◌, ==-refl,
}
use online_coding_judge.Errors.{ok}
use online_coding_judge.Database.Table.{
  select, exists, place, sort_by, order_by, select_taken, select_left,
}
use online_coding_judge.Database.Tables.{EventRow, Tables}
use online_coding_judge.Database.Transaction.{Net, Clocks}
use online_coding_judge.Database.Events.{is_ready, ready_rows, holds_id, event_of, claim_outbox}
use online_coding_judge.Outbox.{Event}
use online_coding_judge.Database.Events.Leases.{is_among, among_rows, claim_ok}

module _ {A : Type 0} where
  exists-place :
      (p : A → Bool) (le : A → A → Bool) (x : A) (xs : List A)
      → exists p (place le x xs) ≡ p x || exists p xs
  unfolding exists place
  exists-place p le x [] = refl
  exists-place p le x (y ∷ ys) = ground (arith, exists-place p le x ys)

  exists-sort_by :
      (p : A → Bool) (le : A → A → Bool) (xs : List A) → exists p (sort_by le xs) ≡ exists p xs
  unfolding exists sort_by
  exists-sort_by p le [] = refl
  exists-sort_by p le (x ∷ xs) =
      exists-place p le x (sort_by le xs) ∙ ap (λ b. p x || b) (exists-sort_by p le xs)

  length-place :
      (le : A → A → Bool) (x : A) (xs : List A) → length (place le x xs) ≡ suc (length xs)
  unfolding place
  length-place le x [] = refl
  length-place le x (y ∷ ys) = ground (arith, length-place le x ys)

  pub length-sort_by : (le : A → A → Bool) (xs : List A) → length (sort_by le xs) ≡ length xs
  unfolding sort_by
  length-sort_by le [] = refl
  length-sort_by le (x ∷ xs) = length-place le x (sort_by le xs) ∙ ap suc (length-sort_by le xs)

has_id : List EventRow → ℕ → Bool
has_id rows id = exists (λ (r : EventRow). r.id == id) rows

-- What is found behind a row is found with it in front.
later_has :
    (p : EventRow → Bool) (x : EventRow) (ys xs : List EventRow)
    → All (λ o. p o ≡ true → has_id ys o.id ≡ true) xs
    → All (λ o. p o ≡ true → has_id (x ∷ ys) o.id ≡ true) xs
unfolding has_id exists
later_has p x ys [] h = tt
later_has p x ys (o ∷ os) (h, hs) = (λ r. ground (arith, h r), later_has p x ys os hs)

found : (x : EventRow) (ys : List EventRow) → has_id (x ∷ ys) x.id ≡ true
unfolding has_id exists
found x ys = ground (arith, ==-refl x.id)

select_has :
    (p : EventRow → Bool) (xs : List EventRow)
    → All (λ o. p o ≡ true → has_id (select p xs) o.id ≡ true) xs
select_has p [] = tt
select_has p (x ∷ xs) = elim (Bool-cases (p x)) [
  | inl taken ↦
      subst (λ ys. All (λ o. p o ≡ true → has_id ys o.id ≡ true) (x ∷ xs))
        (sym (select_taken p x xs taken))
        ((λ r. found x (select p xs)), later_has p x (select p xs) xs (select_has p xs))
  | inr left ↦
      subst (λ ys. All (λ o. p o ≡ true → has_id ys o.id ≡ true) (x ∷ xs))
        (sym (select_left p x xs left)) ((λ r. cc), select_has p xs)
]

-- A batch is full, or it holds all that there is.
take_cases : (n : ℕ) (xs : List EventRow) → (take n xs ≡ xs) ⊎ (length (take n xs) ≡ n)
take_cases zero xs = inr refl
take_cases (suc n) [] = inl refl
take_cases (suc n) (x ∷ xs) = elim (take_cases n xs) [
  | inl all ↦ inl (ap (◌∷◌ x) all)
  | inr full ↦ inr (ap suc full)
]

map-All :
    {P Q : EventRow → Type 0} (xs : List EventRow)
    → ((o : EventRow) → P o → Q o)
    → All P xs
    → All Q xs
map-All [] f h = tt
map-All (x ∷ xs) f (h, hs) = (f x h, map-All xs f hs)

by_time : EventRow → ℕ
by_time o = o.created_at

batch_cases :
    (clocks : Clocks) (locked : ℕ → Bool) (limit : ℤ) (t : Tables)
    → (All
        (λ o.
          is_ready clocks locked o ≡ true → holds_id (ready_rows clocks locked limit t) o ≡ true)
        t.outbox_events)
      ⊎ (length (ready_rows clocks locked limit t) ≡ pos_part limit)
unfolding ready_rows has_id by_time
batch_cases clocks locked limit t =
    let chosen = select (is_ready clocks locked) t.outbox_events in
    elim (take_cases (pos_part limit) (order_by by_time chosen)) [
      | inr full ↦ inr full
      | inl whole ↦ inl (
          map-All t.outbox_events
            (λ o has r.
              ap (exists (λ (x : EventRow). x.id == o.id)) whole
              ∙ exists-sort_by (λ (x : EventRow). x.id == o.id) _ chosen
              ∙ has r)
            (select_has (is_ready clocks locked) t.outbox_events))
    ]

-- A claim that succeeds returns every event that is due, unpublished, not leased and not locked, or
-- its batch is full.
pub claim_outbox_takes :
    (net : Net) (clocks : Clocks) (locked : ℕ → Bool) (publisher : Bytes) (limit lease : ℤ)
    (t : Tables) (es : List Event)
    → (claim_outbox net clocks locked publisher limit lease t).0 ≡ ok es
    → (All
        (λ (o : EventRow). is_ready clocks locked o ≡ true → is_among es o.id ≡ true)
        t.outbox_events)
      ⊎ (length es ≡ pos_part limit)
claim_outbox_takes net clocks locked publisher limit lease t es e =
    let rows = ready_rows clocks locked limit t in
    let (gives, leases) = claim_ok net clocks locked publisher limit lease t es e in
    elim (batch_cases clocks locked limit t) [
      | inl taken ↦ inl (
          subst
            (λ x.
              All (λ (o : EventRow). is_ready clocks locked o ≡ true → is_among x o.id ≡ true)
                t.outbox_events)
            gives (map-All t.outbox_events (λ o has r. among_rows rows o ∙ has r) taken))
      | inr full ↦ inr (ap length (sym gives) ∙ length-map event_of rows ∙ full)
    ]
