-- ===== src/Judge/Docker/Budget.antt =====
-- The output budget of an execution, through all that its streams bring.
use online_coding_judge.Prelude.{
  ℕ, leb, ◌+◌, ◌-◌, ◌≤◌, inl, inr, Bool, true, false, List, [], ◌∷◌, ◌++◌, Bytes, some, is_some,
  take, length, arith, ltb, min, drop, bytes_eq, ◌==◌, Bool-cases,
}
use online_coding_judge.Judge.Output.{OutputBudget, output}
use online_coding_judge.Judge.Output.Accounting.{IsAccounted, write-IsAccounted}
use online_coding_judge.Judge.Launch.{
  LaunchError, LaunchClock, marker, new_launch_clock, start_time,
}
use online_coding_judge.Judge.Launch
use online_coding_judge.Judge.Docker.Execute.{feed, feed_all}

-- A budget of `limit` bytes, whatever was written.
unfoldable pub IsBudget : ℕ → OutputBudget → Type 0
IsBudget limit b = (n : ℕ) × IsAccounted limit n b

pub budget-output : (limit : ℕ) (b : OutputBudget) → IsBudget limit b → length (output b) ≤ limit
unfolding output IsBudget
budget-output limit b (n, h) = omega (arith, h.retained)

forward-IsBudget :
    (limit : ℕ) (c : LaunchClock) (n : ℕ) (p : Bytes)
    → IsBudget limit c.stderr
    → IsBudget limit (Launch.forward c n p).2.stderr
unfolding IsBudget Launch.forward
forward-IsBudget limit c n p (k, h) = elim (Bool-cases (ltb 0 (length p))) [
  | inl more ↦ rw more (k + length p, write-IsAccounted limit k false c.stderr p h)
  | inr done ↦ rw done (k, h)
]

launch-IsBudget :
    (limit now : ℕ) (c : LaunchClock) (p : Bytes)
    → IsBudget limit c.stderr
    → IsBudget limit (Launch.write now c p).2.stderr
unfolding Launch.write
launch-IsBudget limit now c p h =
    let taken = min (length marker - length c.prefix) (length p) in
    let read = c.prefix ++ take taken p in
    elim (Bool-cases (is_some c.start)) [
      | inl on ↦ rw on (forward-IsBudget limit c (length p) p h)
      | inr off ↦ rw off (elim (Bool-cases (length read == length marker)) [
        | inr short ↦
            rw short
              (forward-IsBudget limit (record c { prefix = read }) (length p) (drop taken p) h)
        | inl whole ↦ rw whole (elim (Bool-cases (bytes_eq read marker)) [
          | inl good ↦ rw good (
              forward-IsBudget limit
                (record c {
                  prefix = read;
                  start = some now;
                  fires_at = now + c.limit;
                  fired = leb c.fires_at now;
                })
                (length p) (drop taken p) h)
          | inr bad ↦ rw bad h
        ])
      ])
    ]

feed-IsBudget :
    (limit : ℕ) (s : Bool × LaunchClock) (x : Bool × ℕ × Bytes)
    → IsBudget limit s.1.stderr
    → IsBudget limit (feed s x).1.stderr
unfolding feed IsBudget
feed-IsBudget limit (stopped, c) (true, now, p) (n, h) =
    (n + length p, write-IsAccounted limit n true c.stderr p h)
feed-IsBudget limit (true, c) (false, now, p) h = h
feed-IsBudget limit (false, c) (false, now, p) h = launch-IsBudget limit now c p h

pub feed_all-IsBudget :
    (limit : ℕ) (s : Bool × LaunchClock) (xs : List (Bool × ℕ × Bytes))
    → IsBudget limit s.1.stderr
    → IsBudget limit (feed_all s xs).1.stderr
unfolding feed_all
feed_all-IsBudget limit s [] h = h
feed_all-IsBudget limit s (x ∷ xs) h =
    feed_all-IsBudget limit (feed s x) xs (feed-IsBudget limit s x h)
