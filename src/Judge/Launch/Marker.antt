-- ===== src/Judge/Launch/Marker.antt =====
-- The marker is found, and the rest forwarded, whatever the chunks in which stderr arrives.
use online_coding_judge.Prelude.{
  ℕ, ◌+◌, ◌≡◌, refl, sym, ◌∙◌, subst, inl, inr, true, false, List, [], ◌∷◌, ◌++◌, Bytes, take, drop,
  Option, none, some, is_some, length-append, length-take, append-nil, append_assoc, ◌↔◌,
  if◌then◌else◌, arith, Option-cases,
}
use online_coding_judge.Judge.Output.{OutputBudget}
use online_coding_judge.Judge.Output
use online_coding_judge.Judge.Output.Accounting.{write-nil}
use online_coding_judge.Judge.Launch.{
  LaunchError, LaunchClock, marker, new_launch_clock, forward, write, write_all, start_time,
}
use online_coding_judge.Judge.Launch.Chunk.{
  Tracks, Reports, length-marker, take_longer, drop_all, write-Reports,
}

-- The bytes of the chunks, in order.
abbrev pub stream : List (ℕ × Bytes) → Bytes
stream [] = []
stream ((now, p) ∷ ps) = p ++ stream ps

-- A wrong marker stays wrong, whatever follows it.
Reports-wrong :
    (b : OutputBudget) (f l : ℕ) (s p : Bytes) (x : LaunchError) (c : LaunchClock)
    → Reports b f l s (some x) c
    → Reports b f l (s ++ p) (some x) c
Reports-wrong b f l s p x c h =
    (λ e. h.0 (sym (take_longer s p h.1) ∙ e), omega (arith, length-append s p), h.2, h.3, h.4)

pub write_all_ok :
    (now : ℕ) (c : LaunchClock) (p : Bytes) (ps : List (ℕ × Bytes))
    → (write now c p).1 ≡ none
    → write_all c ((now, p) ∷ ps) ≡ write_all (write now c p).2 ps
unfolding write_all
write_all_ok now c p ps e = rw (e, write_all)

pub write_all_err :
    (now : ℕ) (c : LaunchClock) (p : Bytes) (ps : List (ℕ × Bytes)) (x : LaunchError)
    → (write now c p).1 ≡ some x
    → write_all c ((now, p) ∷ ps) ≡ (some x, (write now c p).2)
unfolding write_all
write_all_err now c p ps x e = rw (e, write_all)

write_all-Reports :
    (b : OutputBudget) (f l : ℕ) (s : Bytes) (c : LaunchClock) (ps : List (ℕ × Bytes))
    → Tracks b f l s c
    → Reports b f l (s ++ stream ps) (write_all c ps).0 (write_all c ps).1
write_all-Reports b f l s c [] h = unfold write_all in rw append-nil h
write_all-Reports b f l s c ((now, p) ∷ ps) h = elim (Option-cases (write now c p).1) [
  | inl e ↦ rw (write_all_ok now c p ps e) (
      subst (λ q. Reports b f l q (write_all c' ps).0 (write_all c' ps).1)
        (append_assoc s p (stream ps))
        (write_all-Reports b f l (s ++ p) c' ps (subst (λ x. Reports b f l (s ++ p) x c') e step)))
  | inr (x, e) ↦ rw (write_all_err now c p ps x e) (
      subst (λ q. Reports b f l q (some x) c') (append_assoc s p (stream ps))
        (Reports-wrong b f l (s ++ p) (stream ps) x c'
          (subst (λ y. Reports b f l (s ++ p) y c') e step)))
]
  where
    c' : LaunchClock
    c' = (write now c p).2

    step : Reports b f l (s ++ p) (write now c p).1 c'
    step = write-Reports now b f l s p c h

-- The time for which the timer of an execution is set that has begun, and may have started.
abbrev pub deadline : ℕ → ℕ → Option ℕ → ℕ
deadline began limit none = began + 30000000000
deadline began limit (some t) = t + limit

new-Tracks :
    (now limit : ℕ) (b : OutputBudget)
    → Tracks b (now + 30000000000) limit [] (new_launch_clock now limit b)
unfolding new_launch_clock
new-Tracks now limit b = record {
  collected = refl;
  forwarded = sym (write-nil false b);
  waiting = λ _. omega arith;
  launched = λ t e. cc;
  pending = λ _. refl;
  bounded = refl;
}

Reports-exactly :
    (b : OutputBudget) (began limit : ℕ) (s : Bytes) (e : Option LaunchError) (c : LaunchClock)
    → Reports b (began + 30000000000) limit s e c
    → ((is_some c.start ≡ true) ↔ (take 14 s ≡ marker))
      × (c.stderr ≡ (if is_some c.start then (Output.write false b (drop 14 s)).1 else b))
      × (c.fires_at ≡ deadline began limit c.start)
Reports-exactly b began limit s (some x) c h = ground arith
Reports-exactly b began limit s none c h = elim (Option-cases c.start) [
  | inl e ↦ rw e (
    (
      λ x. cc,
      λ x. absurd (omega (arith, h.waiting e, length-take 14 s, length-marker (take 14 s) x)),
    ),
    h.forwarded ∙ rw (drop_all 14 s (omega (arith, h.waiting e))) (write-nil false b),
    h.pending e,
  )
  | inr (t, e) ↦ rw e ((λ x. (h.launched t e).0, λ x. refl), h.forwarded, (h.launched t e).1)
]

-- However stderr is cut into chunks, and whenever they arrive: the clock starts exactly when the
-- whole of stderr begins with the marker. The timer is then set for the limit after that start, and
-- the shared budget is as if all that follows the marker had been written at once. Without the
-- marker the timer stands at 30 seconds after the execution began, and nothing is charged to the
-- budget.
pub write_all_exactly :
    (now limit : ℕ) (b : OutputBudget) (ps : List (ℕ × Bytes))
    → let c = (write_all (new_launch_clock now limit b) ps).1 in
      ((is_some (start_time c) ≡ true) ↔ (take 14 (stream ps) ≡ marker))
      × (c.stderr
          ≡ (if is_some (start_time c) then (Output.write false b (drop 14 (stream ps))).1 else b))
      × (c.fires_at ≡ deadline now limit (start_time c))
unfolding start_time
write_all_exactly now limit b ps =
    Reports-exactly b now limit (stream ps) _ _
      (write_all-Reports b _ limit [] (new_launch_clock now limit b) ps (new-Tracks now limit b))

-- Once the clock has started, no later write moves its start or its deadline.
pub write_keeps_start :
    (now t : ℕ) (c : LaunchClock) (p : Bytes)
    → c.start ≡ some t
    → ((write now c p).2.start ≡ some t) × ((write now c p).2.fires_at ≡ c.fires_at)
unfolding write forward
write_keeps_start now t c p h = ground arith
