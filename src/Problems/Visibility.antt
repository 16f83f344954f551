-- ===== src/Problems/Visibility.antt =====
-- The public view shows the visible tests, all of them, and no hidden one.
use online_coding_judge.Prelude.{
  ◌≡◌, refl, false, List, [], ◌∷◌, ◌++◌, All, append_assoc, append-nil, arith, if◌then◌else◌,
}
use online_coding_judge.Problems.{TestCase, Problem, visible_from, public}

-- The tests that are not hidden, in their order.
abbrev pub samples : List TestCase → List TestCase
samples [] = []
samples (c ∷ cs) = let rest = samples cs in if c.hidden then rest else c ∷ rest

visible_from-samples :
    (visible cs : List TestCase) → visible_from visible cs ≡ visible ++ samples cs
unfolding visible_from
visible_from-samples visible [] = rw append-nil
visible_from-samples visible (c ∷ cs) = ground (
  arith,
  visible_from-samples visible cs,
  visible_from-samples (visible ++ (c ∷ [])) cs,
  append_assoc visible (c ∷ []) (samples cs),
)

samples_shown : (cs : List TestCase) → All (λ c. c.hidden ≡ false) (samples cs)
samples_shown [] = tt
samples_shown (c ∷ cs) = ground (arith, samples_shown cs)

samples_idem : (cs : List TestCase) → samples (samples cs) ≡ samples cs
samples_idem [] = refl
samples_idem (c ∷ cs) = ground (arith, samples_idem cs)

-- The public view keeps every field but the tests, keeps the tests that are not hidden in their
-- order, and so shows no hidden test; taking it twice changes nothing more.
pub public_lem :
    (p : Problem)
    → (public p ≡ record p { tests = samples p.tests })
      × All (λ c. c.hidden ≡ false) (public p).tests
      × (public (public p) ≡ public p)
unfolding public
public_lem p = rw (visible_from-samples [] p.tests) (
  refl,
  samples_shown p.tests,
  rw (visible_from-samples [] (samples p.tests), samples_idem p.tests),
)
