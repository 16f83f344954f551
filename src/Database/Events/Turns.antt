-- ===== src/Database/Events/Turns.antt =====
-- Any sequence of statements on the outbox, of any publishers and of the processes that add to it,
-- and what such a sequence keeps.
use online_coding_judge.Prelude.{ℕ, ℤ, Bool, false, List, [], ◌∷◌, Bytes, ◌≡◌, All, arith}
use online_coding_judge.Database.Table.{insert}
use online_coding_judge.Database.Tables.{EventRow, Tables, event_key}
use online_coding_judge.Database.Transaction.{Net, Clocks}
use online_coding_judge.Database.Events.{
  is_ready, claim_outbox, publish_event, mark_published, reconcile_outbox,
}
use online_coding_judge.Database.Events.Guarding.{
  added, Guards, Guards-added, Guards-reconcile_outbox, Guards-mark_published, Guards-claim_outbox,
  untaken,
}

-- A statement: the three of the publishers, and the INSERT of a row by a process that creates or
-- retries a submission, which is refused where the id is taken.
pub data Turn : Type 0 where
  claims : (ℕ → Bool) → Bytes → ℤ → ℤ → Turn
  marks : ℕ → Turn
  reconciles : (ℕ → ℕ) → Turn
  adds : EventRow → Turn

abbrev pub after_turn : Net → Clocks → Turn → Tables → Tables
after_turn net clocks (claims locked publisher limit lease) t =
    (claim_outbox net clocks locked publisher limit lease t).1
after_turn net clocks (marks id) t = (mark_published net clocks id t).1
after_turn net clocks (reconciles gen) t = (reconcile_outbox net clocks gen t).1
after_turn net clocks (adds o) t = added t (insert event_key o t.outbox_events)

unfoldable pub turns : List (Net × Clocks × Turn) → Tables → Tables
turns [] t = t
turns ((net, clocks, x) ∷ xs) t = turns xs (after_turn net clocks x t)

-- A statement at such a time.
abbrev pub IsAt : (ℕ → Type 0) → Net × Clocks × Turn → Type 0
IsAt IsTimely (net, clocks, x) = IsTimely clocks.db_now

pub IsAt-always : (xs : List (Net × Clocks × Turn)) → All (IsAt (λ n. Unit)) xs
IsAt-always [] = tt
IsAt-always ((net, clocks, x) ∷ xs) = (tt, IsAt-always xs)

module _ (held : ℕ → Bool) (Good : EventRow → Type 0) where
  -- Where good rows are not ready at those times and published rows are good, each statement keeps them.
  pub Guards-turns :
      (IsTimely : ℕ → Type 0)
      → ((clocks : Clocks) (locked : ℕ → Bool) (o : EventRow)
          → IsTimely clocks.db_now
          → Good o
          → is_ready clocks locked o ≡ false)
      → ((clocks : Clocks) (o : EventRow) → Good (publish_event clocks o))
      → (xs : List (Net × Clocks × Turn)) (t : Tables) → All (IsAt IsTimely) xs
      → Guards held Good t.outbox_events
      → Guards held Good (turns xs t).outbox_events
  unfolding turns
  Guards-turns timely unready publishes [] t early g = g
  Guards-turns timely unready publishes ((net, clocks, claims locked publisher limit lease) ∷ xs) t
        (now, early) g =
      Guards-turns timely unready publishes xs _ early (
        Guards-claim_outbox held Good net clocks locked publisher limit lease t
          (λ o h p k. absurd (
            ground (
              arith,
              p,
              untaken held Good clocks locked limit t (λ q. unready clocks locked q now) g o.id h,
            )))
          g)
  Guards-turns timely unready publishes ((net, clocks, marks id) ∷ xs) t (now, early) g =
      Guards-turns timely unready publishes xs _ early
        (Guards-mark_published held Good net clocks id t (publishes clocks) g)
  Guards-turns timely unready publishes ((net, clocks, reconciles gen) ∷ xs) t (now, early) g =
      Guards-turns timely unready publishes xs _ early
        (Guards-reconcile_outbox held Good net clocks gen t g)
  Guards-turns timely unready publishes ((net, clocks, adds o) ∷ xs) t (now, early) g =
      Guards-turns timely unready publishes xs _ early (Guards-added held Good o t g)
