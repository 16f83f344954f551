-- ===== src/Judge/Pool.antt =====
-- `RunPool` of internal/judge/engine.go: the goroutines of the pool as steps on the state that they
-- share. A consumer's own work is one step, with the error that its `run` returns.
pub mod Outcome
use online_coding_judge.Prelude.{
  ℕ, zero, suc, ℤ, pos, below, above, pos_part, Bool, true, false, List, [], ◌∷◌, ◌++◌, Option,
  none, some, ◌||◌, if◌then◌else◌, ◌≡◌, All,
}
use online_coding_judge.Errors.{Error, queue_closed, invalid_concurrency}

-- A consumer: at work, with an error to send, about to cancel its peers, or done.
pub data Slot : Type 0 where
  active : Slot
  failed : Error → Slot
  sent finished : Slot

-- The caller: in its `select`, waiting for the consumers with the value it is to return, or back.
pub data Caller : Type 0 where
  selecting : Caller
  waiting returned : Option Error → Caller

-- `errs`, the context of the pool (the cause of its end, where `none` is `context.Canceled`) and the
-- goroutines.
pub record Pool : Type 0 where
  pub slots : List Slot
  pub errs : List Error
  pub ended : Option (Option Error)
  pub caller : Caller

-- A `queue_closed` error is no failure.
unfoldable pub after_run : Option Error → Slot
after_run none = finished
after_run (some queue_closed) = finished
after_run (some e) = failed e

abbrev pub all_active : ℕ → List Slot
all_active zero = []
all_active (suc n) = active ∷ all_active n

-- The guard, and the start of the consumers.
unfoldable pub run_pool : ℤ → Pool
run_pool concurrency =
    if below concurrency 1 || above concurrency 64
    then record {
      slots = [];
      errs = [];
      ended = none;
      caller = returned (some invalid_concurrency);
    }
    else record {
      slots = all_active (pos_part concurrency);
      errs = [];
      ended = none;
      caller = selecting;
    }

-- `cancel()`: the first end of a context counts.
abbrev pub end : Option Error → Option (Option Error) → Option (Option Error)
end cause none = some cause
end cause (some c) = some c

abbrev pub AllFinished : List Slot → Type 0
AllFinished ss = All (λ s. s ≡ finished) ss

-- One step of any goroutine, the caller's parent context included. In the `select` any case that is
-- ready may be taken.
infix 20 ◌⟶◌
pub data ◌⟶◌ : Pool → Pool → Type 0 where
  run_returns :
      {p : Pool} (l r : List Slot) (e : Option Error)
      → p.slots ≡ l ++ (active ∷ r)
      → p ⟶ record p { slots = l ++ (after_run e ∷ r) }
  sends :
      {p : Pool} (l r : List Slot) (e : Error)
      → p.slots ≡ l ++ (failed e ∷ r)
      → p ⟶ record p { slots = l ++ (sent ∷ r); errs = p.errs ++ (e ∷ []) }
  cancels :
      {p : Pool} (l r : List Slot)
      → p.slots ≡ l ++ (sent ∷ r)
      → p ⟶ record p { slots = l ++ (finished ∷ r); ended = end none p.ended }
  parent_ends : {p : Pool} (cause : Option Error) → p ⟶ record p { ended = end cause p.ended }
  selects_done :
      {p : Pool}
      → p.caller ≡ selecting
      → AllFinished p.slots
      → p ⟶ record p { caller = returned none }
  selects_error :
      {p : Pool} (e : Error) (es : List Error)
      → p.caller ≡ selecting
      → p.errs ≡ e ∷ es
      → p ⟶ record p { errs = es; caller = waiting (some e) }
  selects_end :
      {p : Pool} (cause : Option Error)
      → p.caller ≡ selecting
      → p.ended ≡ some cause
      → p ⟶ record p { caller = waiting cause }
  returns :
      {p : Pool} (reply : Option Error)
      → p.caller ≡ waiting reply
      → AllFinished p.slots
      → p ⟶ record p { caller = returned reply }

-- Any number of steps.
infix 20 ◌⟶*◌
pub data ◌⟶*◌ : Pool → Pool → Type 0 where
  stop : {p : Pool} → p ⟶* p
  then_step : {p q r : Pool} → p ⟶* q → q ⟶ r → p ⟶* r
