-- ===== src/RateLimit.antt =====
-- `rateLimit` of internal/api/limits.go over `Stream.Allow` of internal/queue/redis.go. The commands
-- of Redis that the script of `Allow` runs are parameters; a script runs as one step.
pub mod Window
use online_coding_judge.Prelude.{
  ℕ, ◌*◌, ℤ, pos, above, below, Bool, true, false, ◌++◌, ◌∷◌, [], Bytes, text, Option, none, some,
  ◌||◌, ◌==◌, not, if◌then◌else◌,
}
use online_coding_judge.Errors.{Error, Reply, ok, err, failure}
use online_coding_judge.Judge.Retry.{second}

-- INCR and PEXPIRE, the latter in milliseconds.
pub record Redis (W : Type 0) : Type 0 where
  pub incr : Bytes → W → Reply ℕ × W
  pub pexpire : Bytes → ℕ → W → Option Error × W

-- What the middleware answers: the handler runs, status 503, or status 429 with Retry-After.
pub data Answer : Type 0 where
  passed unavailable too_many : Answer

module _ {W : Type 0} (redis : Redis W) where
  -- The script of `Allow`.
  unfoldable pub count_script : Bytes → ℕ → W → Reply ℕ × W
  count_script key milliseconds world =
      let (reply, world') = redis.incr key world in
      elim reply [
        | err e ↦ (err e, world')
        | ok n ↦
            let (failed, world'') = redis.pexpire key milliseconds world' in
            if n == 1
            then (elim failed [ none ↦ ok n | some e ↦ err e ], world'')
            else (ok n, world')
      ]

  -- `count <= int64(limit), e`: a script that fails counts 0.
  abbrev pub within_limit : ℤ → Reply ℕ → Bool × Option Error
  within_limit limit (ok n) = (not (below limit n), none)
  within_limit limit (err e) = (not (below limit 0), some e)

  -- `Allow`, with its window in milliseconds.
  unfoldable pub allow : Bytes → ℤ → ℕ → W → (Bool × Option Error) × W
  allow key limit window world =
      if below limit 1 || (window == 0)
      then ((false, some (failure 2)), world)
      else let (reply, world') = count_script (text "judge:rate:" ++ key) window world in
        (within_limit limit reply, world')

  abbrev pub answer : Bool × Option Error → Answer
  answer (allowed, some e) = unavailable
  answer (allowed, none) = if allowed then passed else too_many

  -- `rateLimit`, for the client or the user `key`: a minute's window.
  unfoldable pub rate_limit : Bytes → ℤ → Bytes → W → Answer × W
  rate_limit bucket limit key world =
      let (reply, world') = allow (bucket ++ (58 ∷ key)) limit 60000 world in (answer reply, world')
