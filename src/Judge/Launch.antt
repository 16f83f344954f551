-- ===== src/Judge/Launch.antt =====
-- `launchClock` of internal/judge/docker.go. The mutex makes each `Write` one step, `now` is the
-- value of `time.Now()` in it, `fires_at` is the time for which the timer is set, and `fired` says
-- that it had fired, and cancelled the context for good, before it was set again. Its `stderr` is the stderr adapter of the shared output budget.
pub mod Chunk
pub mod Marker
use online_coding_judge.Prelude.{
  ℕ, ◌+◌, ◌-◌, Bool, true, false, List, [], ◌∷◌, ◌++◌, Bytes, bytes_eq, text, length, take, drop,
  min, Option, none, some, ltb, leb, ◌==◌, if◌then◌else◌, is_some,
}
use online_coding_judge.Judge.Output.{OutputBudget}
use online_coding_judge.Judge.Output

pub data LaunchError : Type 0 where
  invalid_launch_marker : LaunchError

pub record LaunchClock : Type 0 where
  pub prefix : Bytes
  pub start : Option ℕ
  pub fires_at : ℕ
  pub fired : Bool
  pub limit : ℕ
  pub stderr : OutputBudget

-- The literal "JUDGE_STARTED\n".
abbrev pub marker : Bytes
marker = text "JUDGE_STARTED" ++ (10 ∷ [])

-- The clock that `execute` makes: the timer is set 30 seconds ahead.
unfoldable pub new_launch_clock : ℕ → ℕ → OutputBudget → LaunchClock
new_launch_clock now limit b = record {
  prefix = [];
  start = none;
  fires_at = now + 30000000000;
  fired = false;
  limit = limit;
  stderr = b;
}

-- `c.stderr.Write(p)`, which returns no error, and what `Write` reports after it.
unfoldable pub forward : LaunchClock → ℕ → Bytes → ℕ × Option LaunchError × LaunchClock
forward c n p =
    if ltb 0 (length p)
    then (n, none, record c { stderr = (Output.write false c.stderr p).1 })
    else (n, none, c)

-- The bytes reported as consumed, the error, and the clock after the call.
unfoldable pub write : ℕ → LaunchClock → Bytes → ℕ × Option LaunchError × LaunchClock
write now c p =
    let n = length p in
    let taken = min (length marker - length c.prefix) (length p) in
    let c' = record c { prefix = c.prefix ++ take taken p } in
    let rest = drop taken p in
    let started = record c' {
      start = some now;
      fires_at = now + c.limit;
      fired = leb c.fires_at now;
    } in
    if is_some c.start
    then forward c n p
    else if length c'.prefix == length marker
    then (if bytes_eq c'.prefix marker
        then forward started n rest
        else (n, some invalid_launch_marker, c'))
    else forward c' n rest

-- The reader of the process's stderr passes its chunks on until a write fails.
unfoldable pub write_all : LaunchClock → List (ℕ × Bytes) → Option LaunchError × LaunchClock
write_all c [] = (none, c)
write_all c ((now, p) ∷ ps) =
    let (n, e, c') = write now c p in
    let rest = write_all c' ps in elim e [ none ↦ rest | some x ↦ (some x, c') ]

-- `startTime`
unfoldable pub start_time : LaunchClock → Option ℕ
start_time c = c.start
