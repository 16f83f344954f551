-- ===== src/Tests/Rules.antt =====
-- The rules on problems, states and delays at concrete inputs.
use online_coding_judge.Prelude.{
  ℕ, suc, Bytes, List, bytes_eq, bytes_eq_refl, if◌then◌else◌, text, ◌-◌, min, arith, pos, ◌≤◌, ◌<◌,
  ◌*◌, [], ◌∷◌, none, false, ◌≡◌, ◌≢◌, refl, ◌↔◌, All, below, above, length,
}
use online_coding_judge.Errors.{ok}
use online_coding_judge.Problems.{validate, public}
use online_coding_judge.Problems.Limits.{IsValid, validate_iff}
use online_coding_judge.Problems.Visibility.{samples, public_lem}
use online_coding_judge.Submissions.{compiling, running, final, can_transition}
use online_coding_judge.Submissions.Lifecycle.{IsTerminal, here, edge, Chain-bounded}
use online_coding_judge.Judge.Retry.{second, retry_delay, retry_delay_bounds}
use online_coding_judge.Database.Attempts.{five_minutes}
use online_coding_judge.RateLimit.{Redis}
use online_coding_judge.RateLimit.Window.{passes, requests, Counts, passes_lem}
use online_coding_judge.Tests.Data.{adding}

validate_iff_example : (validate adding ≡ none) ↔ IsValid adding
validate_iff_example = validate_iff adding

public_lem_example :
    (public adding ≡ record adding { tests = samples adding.tests })
    × All (λ c. c.hidden ≡ false) (public adding).tests
    × (public (public adding) ≡ public adding)
public_lem_example = public_lem adding

Chain-bounded_example :
    (length (running ∷ final ∷ []) ≤ 4)
    × (1 ≤ length (running ∷ final ∷ []) → compiling ≢ final)
    × (IsTerminal compiling → length (running ∷ final ∷ []) ≡ 0)
unfolding can_transition
Chain-bounded_example =
    Chain-bounded {s = compiling} {u = final} {ts = running ∷ final ∷ []}
      (edge refl (edge refl here))

retry_delay_bounds_example :
    (second ≤ retry_delay 3)
    × (retry_delay 3 ≤ 64 * second)
    × (below (pos (retry_delay 3)) 0 ≡ false)
    × (above (pos (retry_delay 3)) five_minutes ≡ false)
    × (1 ≤ 3 → 3 < 7 → retry_delay 4 ≡ 2 * retry_delay 3)
    × (7 ≤ 3 → retry_delay 3 ≡ 64 * second)
retry_delay_bounds_example = retry_delay_bounds 3

-- A Redis whose counters are a function of the key, and whose lifetimes have not passed.
abbrev counters : Redis (Bytes → ℕ)
counters = record {
  incr = λ key f. (ok (suc (f key)), λ k. if bytes_eq key k then suc (f k) else f k);
  pexpire = λ key ms f. (none, f);
}

counters-Counts : Counts counters (λ key f. f key)
counters-Counts = record {
  replies = λ key f. refl;
  counts = λ key f. rw (bytes_eq_refl key) refl;
  spares = λ key other f e. rw e refl;
  expires = λ key ms f. refl;
  lasts = λ key other ms f. refl;
}

-- Two clients whose requests alternate.
abbrev alternating : List Bytes
alternating = text "ann" ∷ text "bob" ∷ text "ann" ∷ text "bob" ∷ text "ann" ∷ []

passes_lem_example :
    passes counters (text "auth") (pos 2) (text "ann") alternating (λ k. 0)
    ≡ min (requests (text "ann") alternating) (2 - 0)
passes_lem_example =
    passes_lem counters (λ key f. f key) counters-Counts (text "auth") (text "ann") 2 alternating
      (λ k. 0) (omega arith)
