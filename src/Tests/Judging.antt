-- ===== src/Tests/Judging.antt =====
-- An evaluation, a worker, a pool and a publisher at concrete inputs.
use online_coding_judge.Prelude.{
  ℕ, suc, pos, [], ◌∷◌, text, none, some, false, ◌≡◌, refl, below, arith, ◌*◌,
}
use online_coding_judge.Errors.{ok, failure, queue_closed}
use online_coding_judge.Judge.Types.{granted}
use online_coding_judge.Judge.Engine.{Sandbox, evaluate}
use online_coding_judge.Judge.Engine.Trace.{recorded}
use online_coding_judge.Judge.Engine.Contract.{Evaluation, evaluate-Evaluation}
use online_coding_judge.Judge.Engine.Results.{IsConsistent, evaluate-IsConsistent}
use online_coding_judge.Judge.Worker.{Worker, Schedule}
use online_coding_judge.Judge.Pool.{
  Pool, finished, returned, after_run, run_pool, AllFinished, ◌⟶*◌, stop, then_step, run_returns,
  selects_done,
}
use online_coding_judge.Judge.Pool.Outcome.{pool_waits, error_lost}
use online_coding_judge.Judge.Retry.{second}
use online_coding_judge.Outbox.{Event, Publisher, or_default, publish_batch}
use online_coding_judge.Outbox.Calls.{Published, publish_batch_calls}
use online_coding_judge.Outbox.Calls
use online_coding_judge.Tests.Data.{addition, printing}

-- A sandbox that answers every test with 3, on a world that counts the runs.
abbrev three : Sandbox ℕ ℕ
three = record {
  opens = λ job s. (ok 0, s);
  compile = λ h s. (ok (printing []), s);
  run = λ h input s. (ok (printing (text "3")), suc s);
  close = λ h s. (none, s);
  transition = λ to s. (none, s);
}

evaluate-Evaluation_example :
    let ((r, e), (log, s')) = evaluate (recorded three) addition ([], 0) in
    Evaluation addition log r e
evaluate-Evaluation_example = evaluate-Evaluation three addition 0

evaluate-IsConsistent_example :
    let ((r, e), s') = evaluate three addition 0 in IsConsistent addition r e
evaluate-IsConsistent_example = evaluate-IsConsistent three addition 0

-- A worker whose calls all succeed, on a world that counts them.
abbrev willing : Worker ℕ ℕ
willing = record {
  id = text "w1";
  lease = pos 900;
  max_deliveries = 3;
  repo = record {
    claim = λ id owner lease w. (granted addition, suc w);
    transition = λ cancelled id to w. (none, suc w);
    finish = λ id r w. (none, suc w);
    fail = λ id w. (none, suc w);
    retry = λ id delay w. (none, suc w);
    renew = λ id lease w. (none, suc w);
  };
  factory = record {
    opens = λ cancelled job w. (ok 0, w);
    compile = λ cancelled h w. (ok (printing []), w);
    run = λ cancelled h input w. (ok (printing (text "3")), w);
    close = λ h w. (none, w);
  };
  queue = record { ack = λ id w. (none, suc w); dead_letter = λ d reason w. (none, suc w) };
}

abbrev one_tick : Schedule
one_tick = record { ticks = λ n. 1; done = λ n. false; late = false }

abbrev alone : Pool
alone = record (run_pool (pos 1)) { slots = finished ∷ []; caller = returned none }

pool_waits_example : AllFinished alone.slots
unfolding run_pool after_run
pool_waits_example =
    pool_waits (pos 1) alone
      (then_step (then_step stop (run_returns [] [] (some queue_closed) refl))
        (selects_done refl (refl, tt)))
      none refl

error_lost_example :
    (q : Pool) × (run_pool (pos 2) ⟶* q) × (q.caller ≡ returned none) × (q.errs ≡ failure 7 ∷ [])
unfolding after_run
error_lost_example = error_lost 1 (failure 7) (omega arith) refl

abbrev first_event : Event
first_event = record { id = 4; submission_id = 1 }

-- A store with one event, and a queue that takes it.
abbrev postman : Publisher ℕ
postman = record {
  id = text "p";
  store = record {
    claim_outbox = λ id size lease w. (ok (first_event ∷ []), w);
    mark_published = λ id w. (none, suc w);
  };
  queue = λ id w. (none, suc w);
  lease = pos 0;
  batch_size = pos 0;
}

publish_batch_calls_example :
    (below (or_default (pos 0) 50) 1 ≡ false)
    × (below (or_default (pos 0) (30 * second)) 1 ≡ false)
    × Published postman (ok (first_event ∷ [])) (publish_batch (Calls.recorded postman) (0, []))
publish_batch_calls_example = publish_batch_calls postman 0
