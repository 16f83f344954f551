-- ===== src/Judge/Launch/Chunk.antt =====
-- What one chunk of stderr does to the launch clock.
use online_coding_judge.Prelude.{
  ℕ, zero, suc, ◌+◌, ◌-◌, ◌≤◌, ◌<◌, ◌≡◌, ◌≢◌, refl, sym, ap, ◌∙◌, inl, inr, false, [], ◌∷◌, ◌++◌,
  Bytes, bytes_eq, bytes_eq_iff, length, take, drop, min, Option, none, some, length-take,
  take-append, drop-append, take_all, leb, append-nil, ◌==◌, arith, Bool-cases, Option-cases,
}
use online_coding_judge.Judge.Output.{OutputBudget}
use online_coding_judge.Judge.Output
use online_coding_judge.Judge.Output.Accounting.{write-append, write-nil}
use online_coding_judge.Judge.Launch.{LaunchError, LaunchClock, marker, forward, write}

-- The clock `c` after the stderr bytes `s`, over the budget `b`, the timer `f` and the limit `l` of
-- before.
pub record Tracks (b : OutputBudget) (f l : ℕ) (s : Bytes) (c : LaunchClock) : Type 0 where
  pub collected : c.prefix ≡ take 14 s
  pub forwarded : c.stderr ≡ (Output.write false b (drop 14 s)).1
  pub waiting : c.start ≡ none → length s < 14
  pub launched : (t : ℕ) → c.start ≡ some t → (take 14 s ≡ marker) × (c.fires_at ≡ t + l)
  pub pending : c.start ≡ none → c.fires_at ≡ f
  pub bounded : c.limit ≡ l

-- What a write, or a run of them, reports: the bytes so far match the state, or the marker is wrong
-- and nothing was forwarded.
abbrev pub Reports : OutputBudget → ℕ → ℕ → Bytes → Option LaunchError → LaunchClock → Type 0
Reports b f l s none c = Tracks b f l s c
Reports b f l s (some x) c =
    (take 14 s ≢ marker) × (14 ≤ length s) × (c.start ≡ none) × (c.stderr ≡ b) × (c.fires_at ≡ f)

pub length-marker : (s : Bytes) → s ≡ marker → length s ≡ 14
length-marker s e = ap length e

pub drop_all : (n : ℕ) (s : Bytes) → length s ≤ n → drop n s ≡ []
drop_all zero [] h = refl
drop_all zero (x ∷ s) h = absurd (omega arith)
drop_all (suc n) [] h = refl
drop_all (suc n) (x ∷ s) h = drop_all n s (omega arith)

take-min : (n : ℕ) (p : Bytes) → take (min n (length p)) p ≡ take n p
take-min n p = elim (Bool-cases (leb (length p) n)) [
  | inl short ↦ take_all (min n (length p)) p (ground arith) ∙ sym (take_all n p (ground arith))
  | inr long ↦ ap (λ k. take k p) (ground arith)
]

drop-min : (n : ℕ) (p : Bytes) → drop (min n (length p)) p ≡ drop n p
drop-min n p = elim (Bool-cases (leb (length p) n)) [
  | inl short ↦
      ap (λ k. drop k p) {y = length p} (ground arith)
      ∙ drop_all (length p) p (omega arith)
      ∙ sym (drop_all n p (ground arith))
  | inr long ↦ ap (λ k. drop k p) (ground arith)
]

pub take_longer : (s p : Bytes) → 14 ≤ length s → take 14 (s ++ p) ≡ take 14 s
take_longer s p h =
    take-append 14 s p
    ∙ ap (λ k. take 14 s ++ take k p) {y = 0} (omega arith)
    ∙ append-nil (take 14 s)

pub drop_longer : (s p : Bytes) → 14 ≤ length s → drop 14 (s ++ p) ≡ drop 14 s ++ p
drop_longer s p h = drop-append 14 s p ∙ ap (λ k. drop 14 s ++ drop k p) {y = 0} (omega arith)

fill_prefix :
    (s p : Bytes) → length s < 14 → s ++ take (min (14 - length s) (length p)) p ≡ take 14 (s ++ p)
fill_prefix s p h =
    ap (◌++◌ s) (take-min (14 - length s) p)
    ∙ ap (λ q. q ++ take (14 - length s) p) (sym (take_all 14 s (omega arith)))
    ∙ sym (take-append 14 s p)

fill_rest :
    (s p : Bytes) → length s < 14 → drop (min (14 - length s) (length p)) p ≡ drop 14 (s ++ p)
fill_rest s p h =
    drop-min (14 - length s) p
    ∙ ap (λ q. q ++ drop (14 - length s) p) (sym (drop_all 14 s (omega arith)))
    ∙ sym (drop-append 14 s p)

forward_lem :
    (c : LaunchClock) (n : ℕ) (p : Bytes)
    → forward c n p ≡ (n, none, record c { stderr = (Output.write false c.stderr p).1 })
unfolding forward
forward_lem c n [] = ground (arith, write-nil false c.stderr)
forward_lem c n (x ∷ p) = ground arith

-- Before the start all bytes so far are in the prefix, and a chunk completes it or does not.
write-Reports_waiting :
    (now : ℕ) (b : OutputBudget) (f l : ℕ) (s p : Bytes) (c : LaunchClock)
    → c.start ≡ none
    → Tracks b f l s c
    → Reports b f l (s ++ p) (write now c p).1 (write now c p).2
unfolding write
write-Reports_waiting now b f l s p c e h =
    rw (e, collects, rests)
      (elim (Bool-cases (length (take 14 (s ++ p)) == length marker)) [
        | inl full ↦ elim (Bool-cases (bytes_eq (take 14 (s ++ p)) marker)) [
          | inl good ↦
              rw (full, good, forward_lem)
                (record {
                  collected = refl;
                  forwarded = rw untouched;
                  waiting = λ x. cc;
                  launched = λ t x. ((bytes_eq_iff _ _).0 good, ground (arith, h.bounded));
                  pending = λ x. cc;
                  bounded = h.bounded;
                })
          | inr bad ↦
              rw (full, bad)
                (
                  λ x. cc ((bytes_eq_iff (take 14 (s ++ p)) marker).1 x),
                  ground (arith, size),
                  refl,
                  untouched,
                  h.pending e,
                )
        ]
        | inr part ↦
            rw (part, forward_lem)
              (record {
                collected = refl;
                forwarded = rw untouched;
                waiting = λ x. ground (arith, size);
                launched = λ t x. cc;
                pending = λ x. h.pending e;
                bounded = h.bounded;
              })
      ])
  where
    short : length s < 14
    short = h.waiting e

    held : c.prefix ≡ s
    held = h.collected ∙ take_all 14 s (omega arith)

    collects : c.prefix ++ take (min (14 - length c.prefix) (length p)) p ≡ take 14 (s ++ p)
    collects = rw held (fill_prefix s p short)

    rests : drop (min (14 - length c.prefix) (length p)) p ≡ drop 14 (s ++ p)
    rests = rw held (fill_rest s p short)

    untouched : c.stderr ≡ b
    untouched = h.forwarded ∙ rw (drop_all 14 s (omega arith)) (write-nil false b)

    size : length (take 14 (s ++ p)) ≡ min 14 (length (s ++ p))
    size = length-take 14 (s ++ p)

write-Reports_started :
    (now t : ℕ) (b : OutputBudget) (f l : ℕ) (s p : Bytes) (c : LaunchClock)
    → c.start ≡ some t
    → Tracks b f l s c
    → Reports b f l (s ++ p) (write now c p).1 (write now c p).2
unfolding write
write-Reports_started now t b f l s p c e h =
    rw (e, forward_lem)
      (record {
        collected = h.collected ∙ sym (take_longer s p long);
        forwarded = rw h.forwarded (
            sym (write-append false b (drop 14 s) p)
            ∙ ap (λ q. (Output.write false b q).1) (sym (drop_longer s p long)));
        waiting = λ x. cc;
        launched = λ u x. (take_longer s p long ∙ (h.launched t e).0, (h.launched u (e ∙ x)).1);
        pending = λ x. cc;
        bounded = h.bounded;
      })
  where
    long : 14 ≤ length s
    long = omega (arith, length-take 14 s, length-marker (take 14 s) (h.launched t e).0)

pub write-Reports :
    (now : ℕ) (b : OutputBudget) (f l : ℕ) (s p : Bytes) (c : LaunchClock)
    → Tracks b f l s c
    → Reports b f l (s ++ p) (write now c p).1 (write now c p).2
write-Reports now b f l s p c h = elim (Option-cases c.start) [
  | inl e ↦ write-Reports_waiting now b f l s p c e h
  | inr (t, e) ↦ write-Reports_started now t b f l s p c e h
]
