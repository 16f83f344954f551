-- ===== src/Judge/Docker/Execution.antt =====
-- What the outcome of an execution says of the process that was run.
use online_coding_judge.Prelude.{
  ℕ, ◌≤◌, ◌≡◌, refl, sym, ◌∙◌, subst, ap, inl, inr, Bool, true, false, List, [], ◌∷◌, Bytes, none,
  some, is_some, take, length, ◌&&◌, arith, Option-cases, Bool-cases,
}
use online_coding_judge.Errors.{Reply, ok, err}
use online_coding_judge.Judge.Types.{Outcome}
use online_coding_judge.Judge.Output.{OutputBudget, new_output_budget, limited, output}
use online_coding_judge.Judge.Output
use online_coding_judge.Judge.Output.Accounting.{write_all-IsAccounted}
use online_coding_judge.Judge.Launch.{
  LaunchError, LaunchClock, marker, new_launch_clock, start_time,
}
use online_coding_judge.Judge.Launch
use online_coding_judge.Judge.Launch.Marker.{stream, write_all_ok, write_all_err, write_all_exactly}
use online_coding_judge.Judge.Docker.Host.{Exit, success, exited, broken, Process, Host}
use online_coding_judge.Judge.Docker.Container.{Container, metrics}
use online_coding_judge.Judge.Docker.Execute.{
  output_limit, feed, feed_all, clock_of, is_done, measured, with_exit, command, judged, execute,
}
use online_coding_judge.Judge.Docker.Budget.{IsBudget, budget-output, feed_all-IsBudget}

-- The chunks of stderr, with their times.
abbrev pub stderr_of : List (Bool × ℕ × Bytes) → List (ℕ × Bytes)
stderr_of [] = []
stderr_of ((true, now, p) ∷ xs) = stderr_of xs
stderr_of ((false, now, p) ∷ xs) = (now, p) ∷ stderr_of xs

-- Two clocks that have read the same of stderr.
IsAlike : LaunchClock → LaunchClock → Type 0
IsAlike c d = (c.prefix ≡ d.prefix) × (c.start ≡ d.start)

write-IsAlike :
    (now : ℕ) (c d : LaunchClock) (p : Bytes)
    → IsAlike c d
    → ((Launch.write now c p).1 ≡ (Launch.write now d p).1)
      × IsAlike (Launch.write now c p).2 (Launch.write now d p).2
unfolding IsAlike Launch.write Launch.forward
write-IsAlike now c d p (h, k) = ground (arith, h, k)

feed_all_stopped :
    (c : LaunchClock) (xs : List (Bool × ℕ × Bytes)) → (feed_all (true, c) xs).1.start ≡ c.start
unfolding feed_all feed
feed_all_stopped c [] = refl
feed_all_stopped c ((true, now, p) ∷ xs) =
    feed_all_stopped (record c { stderr = (Output.write true c.stderr p).1 }) xs
feed_all_stopped c ((false, now, p) ∷ xs) = feed_all_stopped c xs

feed_on :
    (now : ℕ) (c : LaunchClock) (p : Bytes)
    → (Launch.write now c p).1 ≡ none
    → feed (false, c) (false, now, p) ≡ (false, (Launch.write now c p).2)
unfolding feed
feed_on now c p e = ap (λ o. (is_some o, (Launch.write now c p).2)) e

feed_off :
    (now : ℕ) (c : LaunchClock) (p : Bytes) (x : LaunchError)
    → (Launch.write now c p).1 ≡ some x
    → feed (false, c) (false, now, p) ≡ (true, (Launch.write now c p).2)
unfolding feed
feed_off now c p x e = ap (λ o. (is_some o, (Launch.write now c p).2)) e

feed_all_clock :
    (c d : LaunchClock) (xs : List (Bool × ℕ × Bytes))
    → IsAlike c d
    → (feed_all (false, c) xs).1.start ≡ (Launch.write_all d (stderr_of xs)).1.start
unfolding feed feed_all IsAlike Launch.write_all
feed_all_clock c d [] h = h.1
feed_all_clock c d ((true, now, p) ∷ xs) h =
    feed_all_clock (record c { stderr = (Output.write true c.stderr p).1 }) d xs h
feed_all_clock c d ((false, now, p) ∷ xs) h =
    let (same, alike) = write-IsAlike now c d p h in
    elim (Option-cases (Launch.write now c p).1) [
      | inl e ↦
          ap (λ s. (feed_all s xs).1.start) (feed_on now c p e)
          ∙ feed_all_clock (Launch.write now c p).2 (Launch.write now d p).2 xs alike
          ∙ ap (λ r. r.1.start) (sym (write_all_ok now d p (stderr_of xs) (sym same ∙ e)))
      | inr (x, e) ↦
          ap (λ s. (feed_all s xs).1.start) (feed_off now c p x e)
          ∙ feed_all_stopped (Launch.write now c p).2 xs
          ∙ alike.1
          ∙ ap (λ r. r.1.start) (sym (write_all_err now d p (stderr_of xs) x (sym same ∙ e)))
    ]

clock_of-output :
    (began limit : ℕ) (p : Process) → length (output (clock_of began limit p).stderr) ≤ output_limit
unfolding new_launch_clock new_output_budget IsBudget Output.write_all
clock_of-output began limit p =
    budget-output output_limit (clock_of began limit p).stderr
      (feed_all-IsBudget output_limit _ p.chunks (0, write_all-IsAccounted output_limit []))

clock_of-marker :
    (began limit : ℕ) (p : Process)
    → is_some (start_time (clock_of began limit p)) ≡ true
    → take 14 (stream (stderr_of p.chunks)) ≡ marker
unfolding start_time IsAlike
clock_of-marker began limit p launched =
    let b = new_output_budget output_limit in
    let c = new_launch_clock began limit b in
    let same = feed_all_clock c c p.chunks (refl, refl) in
    (write_all_exactly began limit b (stderr_of p.chunks)).0.0 (ap is_some (sym same) ∙ launched)

with_exit_ok :
    (done : Bool) (out out' : Outcome) (e : Exit)
    → with_exit done out e ≡ ok out'
    → (out'.output ≡ out.output)
      × (out'.timed_out ≡ out.timed_out)
      × (out'.output_limited ≡ out.output_limited)
unfolding with_exit
with_exit_ok done out out' success h = ground (arith, h)
with_exit_ok done out out' (exited code) h = ground (arith, h)
with_exit_ok done out out' broken h = ground (arith, h)

-- What a report on the clock `c` says.
abbrev IsReport : LaunchClock → Outcome → Type 0
IsReport c out = (out.output ≡ output c.stderr) × ((out.timed_out && out.output_limited) ≡ false)

measured-IsReport :
    (c : LaunchClock) (p : Process) (start : ℕ) (u : ℕ × Bool) (out : Outcome)
    → with_exit (is_done c p) (measured c p start u) p.exit ≡ ok out
    → IsReport c out
unfolding measured
measured-IsReport c p start u out h =
    let (same, timed, over) = with_exit_ok (is_done c p) (measured c p start u) out p.exit h in
    (same, ground (arith, timed, over))

metered-IsReport :
    (c : LaunchClock) (p : Process) (start : ℕ) (r : Reply (ℕ × Bool)) (out : Outcome)
    → (elim r [ err e ↦ err e | ok u ↦ with_exit (is_done c p) (measured c p start u) p.exit ])
      ≡ ok out
    → IsReport c out
metered-IsReport c p start (err e) out h = absurd (ground (arith, h))
metered-IsReport c p start (ok u) out h = measured-IsReport c p start u out h

module _ {W : Type 0} (host : Host W) where
  judged_ok :
      (container : Container) (c : LaunchClock) (p : Process) (w : W) (out : Outcome)
      → (judged host container c p w).0 ≡ ok out
      → IsReport c out × (is_some (start_time c) ≡ true) × (p.parent_done ≡ false)
  unfolding judged
  judged_ok container c p w out h = elim (Bool-cases p.parent_done) [
    | inl gone ↦ absurd (ground (arith, gone, h))
    | inr here ↦ elim (Option-cases (start_time c)) [
      | inl e ↦ absurd (ground (arith, here, e, h))
      | inr (start, e) ↦ (
        metered-IsReport c p start (metrics host container.cgroup w).0 out
            (ground (arith, here, e, h)),
        ap is_some e,
        here,
      )
    ]
  ]

  -- An execution that gives an outcome was launched: however its streams were cut and interleaved,
  -- its stderr began with the launch marker and the caller's context was not done. The outcome then
  -- has at most 1 MiB of output, and is never both timed out and output limited.
  pub execute_sound :
      (cancelled : Bool) (container : Container) (limit : ℕ) (input : Bytes) (args : List Bytes)
      (w : W) (out : Outcome)
      → (execute host cancelled container limit input args w).0 ≡ ok out
      → let p = (host.launch cancelled input (command container args) w).0 in
        (take 14 (stream (stderr_of p.chunks)) ≡ marker)
        × (p.parent_done ≡ false)
        × (length out.output ≤ output_limit)
        × ((out.timed_out && out.output_limited) ≡ false)
  unfolding execute
  execute_sound cancelled container limit input args w out h =
      let (p, w') = host.launch cancelled input (command container args) w in
      let c = clock_of (host.now w) limit p in
      let (report, launched, here) = judged_ok container c p w' out h in
      (
        clock_of-marker (host.now w) limit p launched,
        here,
        subst (λ b. length b ≤ output_limit) (sym report.0) (clock_of-output (host.now w) limit p),
        report.1,
      )
