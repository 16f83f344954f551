-- ===== src/Judge/Docker/Execute.antt =====
-- `execute` of internal/judge/docker.go: a program in a container, from its launch marker on.
use online_coding_judge.Prelude.{
  ℕ, ◌-◌, ◌/◌, pos, Bool, true, false, not, List, [], ◌∷◌, ◌++◌, Bytes, text, none, some, is_some,
  leb, ◌&&◌, ◌||◌, if◌then◌else◌,
}
use online_coding_judge.Errors.{Error, Reply, ok, err, failure}
use online_coding_judge.Judge.Types.{Outcome}
use online_coding_judge.Judge.Output.{new_output_budget, limited, output}
use online_coding_judge.Judge.Output
use online_coding_judge.Judge.Launch.{LaunchClock, new_launch_clock, start_time}
use online_coding_judge.Judge.Launch
use online_coding_judge.Judge.Docker.Host.{Exit, success, exited, broken, Process, Host, Action}
use online_coding_judge.Judge.Docker.Container.{Container, metrics}

abbrev pub output_limit : ℕ
output_limit = 1048576

abbrev pub cancelled_parent : Error
cancelled_parent = failure 17

abbrev pub not_started : Error
not_started = failure 18

abbrev pub execution_failed : Error
execution_failed = failure 19

-- One chunk of the process: stdout goes to the shared budget, stderr to the clock, which passes it
-- on there. A stderr whose write failed is read no more.
unfoldable pub feed : Bool × LaunchClock → Bool × ℕ × Bytes → Bool × LaunchClock
feed (stopped, c) (true, now, p) = (stopped, record c { stderr = (Output.write true c.stderr p).1 })
feed (true, c) (false, now, p) = (true, c)
feed (false, c) (false, now, p) = let (n, e, c') = Launch.write now c p in (is_some e, c')

unfoldable pub feed_all : Bool × LaunchClock → List (Bool × ℕ × Bytes) → Bool × LaunchClock
feed_all s [] = s
feed_all s (x ∷ xs) = feed_all (feed s x) xs

-- The clock after the process.
abbrev pub clock_of : ℕ → ℕ → Process → LaunchClock
clock_of began limit p =
    (feed_all (false, new_launch_clock began limit (new_output_budget output_limit)) p.chunks).1

-- Is the context of the execution done when the process has ended? Its budget, its timer and the
-- caller cancel it, the timer also where it fired while the marker was waited for.
abbrev pub is_done : LaunchClock → Process → Bool
is_done c p = p.parent_done || (limited c.stderr || (c.fired || leb c.fires_at p.ended))

-- The outcome but for what the exit says.
unfoldable pub measured : LaunchClock → Process → ℕ → ℕ × Bool → Outcome
measured c p start (memory, oom) = record {
  output = output c.stderr;
  exit_code = pos 0;
  runtime_ms = (p.ended - start) / 1000000;
  memory_kb = memory;
  timed_out = is_done c p && not (limited c.stderr);
  oom = oom;
  output_limited = limited c.stderr;
}

unfoldable pub with_exit : Bool → Outcome → Exit → Reply Outcome
with_exit done out success = ok out
with_exit done out (exited code) = ok (record out { exit_code = code })
with_exit done out broken = if done then ok out else err execution_failed

abbrev pub command : Container → List Bytes → List Bytes
command c args =
    text "exec"
    ∷ text "-i"
    ∷ c.id
    ∷ text "/bin/sh"
    ∷ text "-c"
    ∷ (text "printf 'JUDGE_STARTED" ++ (92 ∷ (text "n' >&2; exec " ++ (34 ∷ 36 ∷ 64 ∷ 34 ∷ []))))
    ∷ text "judge-run"
    ∷ args

module _ {W : Type 0} (host : Host W) where
  -- What follows `cmd.Run()`.
  unfoldable pub judged : Container → LaunchClock → Process → Action W Outcome
  judged container c p w =
      if p.parent_done then (err cancelled_parent, w) else elim (start_time c) [
        | none ↦ (err not_started, w)
        | some start ↦
            let (usage, w') = metrics host container.cgroup w in
            (
              elim usage [
                | err e ↦ err e
                | ok u ↦ with_exit (is_done c p) (measured c p start u) p.exit
              ],
              w',
            )
      ]

  -- `execute`
  unfoldable pub execute : Bool → Container → ℕ → Bytes → List Bytes → Action W Outcome
  execute cancelled container limit input args w =
      let (p, w') = host.launch cancelled input (command container args) w in
      judged container (clock_of (host.now w) limit p) p w'
