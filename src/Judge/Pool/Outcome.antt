-- ===== src/Judge/Pool/Outcome.antt =====
-- How a pool ends.
use online_coding_judge.Prelude.{
  ℕ, zero, suc, ◌≤◌, ℤ, pos, List, [], ◌∷◌, ◌++◌, Option, none, some, ◌≡◌, ◌≢◌, refl, sym, subst,
  arith, append_assoc, append-nil, All-append, ◌∙◌,
}
use online_coding_judge.Errors.{Error}
use online_coding_judge.Judge.Pool.{
  Slot, active, failed, sent, finished, selecting, waiting, returned, Pool, after_run, all_active,
  run_pool, AllFinished, ◌⟶◌, run_returns, sends, cancels, parent_ends, selects_done, selects_error,
  selects_end, returns, ◌⟶*◌, stop, then_step,
}

still_open : (l r : List Slot) (s : Slot) → AllFinished (l ++ (s ∷ r)) → s ≡ finished
still_open [] r s (h, _) = h
still_open (x ∷ l) r s (_, h) = still_open l r s h

not_finished :
    (p : Pool) (l r : List Slot) (s : Slot)
    → AllFinished p.slots
    → p.slots ≡ l ++ (s ∷ r)
    → s ≡ finished
not_finished p l r s done at = still_open l r s (subst AllFinished at done)

active≢finished : active ≢ finished
active≢finished h = ground (arith, h)

sent≢finished : sent ≢ finished
sent≢finished h = ground (arith, h)

failed≢finished : (e : Error) → failed e ≢ finished
failed≢finished e h = ground (arith, h)

waiting≢returned : (a b : Option Error) → waiting a ≢ returned b
waiting≢returned a b h = ground (arith, h)

IsWaited : Pool → Type 0
IsWaited p = (e : Option Error) → p.caller ≡ returned e → AllFinished p.slots

step_waits : (p q : Pool) → p ⟶ q → IsWaited p → IsWaited q
unfolding IsWaited
step_waits p _ (run_returns l r x at) w e back =
    absurd (active≢finished (not_finished p l r active (w e back) at))
step_waits p _ (sends l r x at) w e back =
    absurd (failed≢finished x (not_finished p l r (failed x) (w e back) at))
step_waits p _ (cancels l r at) w e back =
    absurd (sent≢finished (not_finished p l r sent (w e back) at))
step_waits p _ (parent_ends cause) w e back = w e back
step_waits p _ (selects_done ready done) w e back = done
step_waits p _ (selects_error x xs ready at) w e back = absurd (waiting≢returned _ _ back)
step_waits p _ (selects_end cause ready at) w e back = absurd (waiting≢returned _ _ back)
step_waits p _ (returns reply ready done) w e back = done

run_pool_waits : (concurrency : ℤ) → IsWaited (run_pool concurrency)
unfolding IsWaited run_pool
run_pool_waits concurrency e back = ground arith

path_waits : (p q : Pool) → p ⟶* q → IsWaited p → IsWaited q
path_waits p _ stop w = w
path_waits p r (then_step {q = q} path step) w = step_waits q r step (path_waits p q path w)

-- When `RunPool` returns, every consumer has returned: none outlives the call, whichever case of the
-- `select` was taken, and also when the concurrency is refused, where none is started.
pub pool_waits :
    (concurrency : ℤ) (p : Pool)
    → run_pool concurrency ⟶* p
    → (e : Option Error) → p.caller ≡ returned e
    → AllFinished p.slots
unfolding IsWaited
pool_waits concurrency p path = path_waits _ p path (run_pool_waits concurrency)

-- The consumers that are still at work all return without an error.
finish_rest :
    (k : ℕ) (l : List Slot) (start p : Pool)
    → start ⟶* p
    → AllFinished l
    → p.slots ≡ l ++ all_active k
    → (q : Pool) × (start ⟶* q) × AllFinished q.slots × (q.errs ≡ p.errs) × (q.caller ≡ p.caller)
unfolding after_run
finish_rest zero l start p path done at =
    (p, path, subst AllFinished (sym (at ∙ append-nil l)) done, refl, refl)
finish_rest (suc k) l start p path done at =
    finish_rest k (l ++ (finished ∷ [])) start (record p { slots = l ++ (finished ∷ all_active k) })
      (then_step path (run_returns l (all_active k) none at))
      (All-append (λ s. s ≡ finished) l (finished ∷ []) done (refl, tt))
      (sym (append_assoc l (finished ∷ []) (all_active k)))

run_pool_starts :
    (n : ℕ)
    → 1 ≤ n
    → n ≤ 64
    → run_pool (pos n)
      ≡ record { slots = all_active n; errs = []; ended = none; caller = selecting }
unfolding run_pool
run_pool_starts n h k = ground arith

-- A consumer's error may be lost: for every allowed concurrency and every error that counts as a
-- failure, the pool has a run in which a consumer fails with that error and `RunPool` returns nil.
-- The consumer cancels the pool's own context, so that two cases of the `select` are ready.
pub error_lost :
    (m : ℕ) (e : Error)
    → suc m ≤ 64
    → after_run (some e) ≡ failed e
    → (q : Pool) × (run_pool (pos (suc m)) ⟶* q) × (q.caller ≡ returned none) × (q.errs ≡ e ∷ [])
error_lost m e small counts =
    let start : Pool = record {
      slots = all_active (suc m);
      errs = [];
      ended = none;
      caller = selecting;
    } in
    let failing : Pool = record start { slots = failed e ∷ all_active m } in
    let sending : Pool = record start { slots = sent ∷ all_active m; errs = e ∷ [] } in
    let cancelled : Pool = record sending { slots = finished ∷ all_active m; ended = some none } in
    let left : Pool = record cancelled { caller = waiting none } in
    let one : start ⟶ failing =
      subst (λ s. start ⟶ record start { slots = s ∷ all_active m }) counts
        (run_returns [] (all_active m) (some e) refl) in
    let two : failing ⟶ sending = sends [] (all_active m) e refl in
    let three : sending ⟶ cancelled = cancels [] (all_active m) refl in
    let four : cancelled ⟶ left = selects_end none refl refl in
    let path = then_step (then_step (then_step (then_step stop one) two) three) four in
    let (q, all, done, errs, caller) =
      finish_rest m (finished ∷ []) start left path (refl, tt) refl in
    rw (run_pool_starts (suc m) (omega arith) small)
      (record q { caller = returned none }, then_step all (returns none caller done), refl, errs)
