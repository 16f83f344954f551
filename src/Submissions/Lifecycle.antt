-- ===== src/Submissions/Lifecycle.antt =====
-- The lifecycle graph: a rank that every edge raises, and the states with no way out.
use online_coding_judge.Prelude.{
  ℕ, suc, ◌+◌, ◌≤◌, ◌≡◌, ◌≢◌, ◌⊎◌, ◌↔◌, true, List, [], ◌∷◌, length, arith,
}
use online_coding_judge.Submissions.{
  Status, queued, claimed, compiling, running, final, failed_internal, is_same, can_transition,
}

pub is_same_iff : (a b : Status) → (is_same a b ≡ true) ↔ (a ≡ b)
unfolding is_same
is_same_iff a b = ground arith

abbrev pub IsTerminal : Status → Type 0
IsTerminal s = (s ≡ final) ⊎ (s ≡ failed_internal)

-- A chain of permitted edges, with the states that it passes.
pub data Chain : Status → List Status → Status → Type 0 where
  here : {s : Status} → Chain s [] s
  edge :
      {s t u : Status} {ts : List Status}
      → can_transition s t ≡ true
      → Chain t ts u
      → Chain s (t ∷ ts) u

abbrev rank : Status → ℕ
rank queued = 0
rank claimed = 1
rank compiling = 2
rank running = 3
rank final = 4
rank failed_internal = 4

rank-can_transition : (s t : Status) → can_transition s t ≡ true → suc (rank s) ≤ rank t
unfolding can_transition
rank-can_transition s t h = ground arith

rank_bound : (s : Status) → rank s ≤ 4
rank_bound s = ground arith

Chain-rank : {s u : Status} {ts : List Status} → Chain s ts u → rank s + length ts ≤ rank u
Chain-rank here = omega arith
Chain-rank (edge {s} {t} h c) = omega (arith, rank-can_transition s t h, Chain-rank c)

-- Every chain of permitted edges has at most four of them, returns to no state that it left, and
-- cannot leave a terminal state.
pub Chain-bounded :
    {s u : Status} {ts : List Status}
    → Chain s ts u
    → (length ts ≤ 4) × (1 ≤ length ts → s ≢ u) × (IsTerminal s → length ts ≡ 0)
Chain-bounded {s} {u} c = (
  omega (arith, Chain-rank c, rank_bound u),
  λ long same. ground (arith, Chain-rank c),
  λ done. ground (arith, Chain-rank c, rank_bound u),
)
