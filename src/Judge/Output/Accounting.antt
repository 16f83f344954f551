-- ===== src/Judge/Output/Accounting.antt =====
-- One budget for two streams: bounds, the overflow flag, and independence of chunk boundaries.
use online_coding_judge.Prelude.{
  ℕ, ◌+◌, ◌-◌, ◌≤◌, ◌<◌, ◌≡◌, ◌↔◌, refl, sym, ap, ap₂, leb, leb→le, ◌∙◌, subst, inl, inr, Bool,
  true, false, List, [], ◌∷◌, ◌++◌, Bytes, length, take, length-append, length-take, take-append,
  take_all, append_assoc, min, arith, if◌then◌else◌, Bool-cases, append-nil,
}
use online_coding_judge.Judge.Output.{OutputBudget, new_output_budget, write, output, write_all}

-- The bytes written to both streams.
abbrev pub total : List (Bool × Bytes) → ℕ
total [] = 0
total ((stdout, p) ∷ ps) = length p + total ps

-- The bytes written to stdout, in order.
abbrev pub stdout_of : List (Bool × Bytes) → Bytes
stdout_of [] = []
stdout_of ((true, p) ∷ ps) = p ++ stdout_of ps
stdout_of ((false, p) ∷ ps) = stdout_of ps

-- What holds of a budget of `limit` bytes after `written` bytes on both streams.
pub record IsAccounted (limit written : ℕ) (b : OutputBudget) : Type 0 where
  pub spent : b.remaining ≡ limit - written
  pub retained : length b.stdout + b.remaining ≤ limit
  pub flagged : (b.exceeded ≡ true) ↔ (limit < written)
  pub cancelled : b.cancels ≡ (if b.exceeded then 1 else 0)

pub write-IsAccounted :
    (limit written : ℕ) (stdout : Bool) (b : OutputBudget) (p : Bytes)
    → IsAccounted limit written b
    → IsAccounted limit (written + length p) (write stdout b p).1
unfolding write
write-IsAccounted limit written true b p h = ground (
  arith,
  length-append b.stdout (take (min (length p) b.remaining) p),
  length-take (min (length p) b.remaining) p,
)
write-IsAccounted limit written false b p h = ground arith

write_all-IsAccounted_from :
    (limit written : ℕ) (b : OutputBudget) (ps : List (Bool × Bytes))
    → IsAccounted limit written b
    → IsAccounted limit (written + total ps) (write_all b ps)
unfolding write_all
write_all-IsAccounted_from limit written b [] h = subst (λ n. IsAccounted limit n b) (omega arith) h
write_all-IsAccounted_from limit written b ((stdout, p) ∷ ps) h =
    subst (λ n. IsAccounted limit n (write_all (write stdout b p).1 ps)) (omega arith)
      (write_all-IsAccounted_from limit (written + length p) _ ps
        (write-IsAccounted limit written stdout b p h))

-- However the writes of the two streams interleave: the budget left is the limit less the bytes
-- written (0 past the limit), at most `limit` bytes are kept, the flag is set exactly when more
-- than `limit` bytes were written in total, and the operation is cancelled once if the flag is
-- set and never otherwise.
pub write_all-IsAccounted :
    (limit : ℕ) (ps : List (Bool × Bytes))
    → IsAccounted limit (total ps) (write_all (new_output_budget limit) ps)
unfolding new_output_budget
write_all-IsAccounted limit ps =
    subst (λ n. IsAccounted limit n (write_all (new_output_budget limit) ps)) (omega arith)
      (write_all-IsAccounted_from limit 0 (new_output_budget limit) ps start)
  where
    start : IsAccounted limit 0 (new_output_budget limit)
    start = (record {
      spent = omega arith;
      retained = omega arith;
      flagged = ground arith;
      cancelled = refl;
    })

take-min : (n : ℕ) (p : Bytes) → take n p ≡ take (min (length p) n) p
take-min n p = elim (Bool-cases (leb (length p) n)) [
  | inl short ↦ take_all n p (leb→le _ _ short) ∙ sym (take_all (min (length p) n) p (ground arith))
  | inr long ↦ ap (λ k. take k p) (ground arith)
]

kept-append :
    (r : ℕ) (p q : Bytes)
    → take (min (length (p ++ q)) r) (p ++ q)
      ≡ take (min (length p) r) p ++ take (min (length q) (r - min (length p) r)) q
kept-append r p q =
    take-append (min (length (p ++ q)) r) p q
    ∙ ap₂ ◌++◌
        (take-min (min (length (p ++ q)) r) p
          ∙ ap (λ k. take k p) (omega (arith, length-append p q)))
        (ap (λ k. take k q) (omega (arith, length-append p q)))

-- A chunk written in two parts leaves the same budget as the chunk written whole.
pub write-append :
    (stdout : Bool) (b : OutputBudget) (p q : Bytes)
    → (write stdout b (p ++ q)).1 ≡ (write stdout (write stdout b p).1 q).1
unfolding write
write-append true b p q = ground (
  arith,
  length-append p q,
  kept-append b.remaining p q,
  append_assoc b.stdout (take (min (length p) b.remaining) p)
      (take (min (length q) (b.remaining - min (length p) b.remaining)) q),
)
write-append false b p q = ground (arith, length-append p q)

stdout-write_all :
    (b : OutputBudget) (ps : List (Bool × Bytes))
    → total ps ≤ b.remaining
    → (write_all b ps).stdout ≡ b.stdout ++ stdout_of ps
unfolding write_all write
stdout-write_all b [] h = rw append-nil
stdout-write_all b ((true, p) ∷ ps) h =
    stdout-write_all (write true b p).1 ps (ground arith)
    ∙ rw (take_all (min (length p) b.remaining) p (omega arith))
        (append_assoc b.stdout p (stdout_of ps))
stdout-write_all b ((false, p) ∷ ps) h = stdout-write_all (write false b p).1 ps (ground arith)

-- While both streams together stay within the limit, no byte of stdout is lost.
pub output-write_all :
    (limit : ℕ) (ps : List (Bool × Bytes))
    → total ps ≤ limit
    → output (write_all (new_output_budget limit) ps) ≡ stdout_of ps
unfolding output new_output_budget
output-write_all limit ps h = stdout-write_all _ ps h

pub write-nil : (stdout : Bool) (b : OutputBudget) → (write stdout b []).1 ≡ b
unfolding write
write-nil true b = ground (arith, append-nil b.stdout)
write-nil false b = ground arith
