-- ===== src/Judge/Docker/Keeping.antt =====
-- What an action keeps, one rule for each way to build it.
use online_coding_judge.Prelude.{◌≡◌, ap, subst, Bool, true, false, if◌then◌else◌, Option}
use online_coding_judge.Errors.{Error, Reply, ok, err}
use online_coding_judge.Judge.Docker.Host.{Action, pure, lift, lift_option, continue, ◌>>=◌}

-- `m` keeps `P`, with a value and with an error.
pub record Keeping {W A : Type 0} (P : W → Type 0) (m : Action W A) : Type 0 where
  pub at : (w : W) → P w → P (m w).1

module _ {W A : Type 0} {P : W → Type 0} where
  pub Keeping-pure : (a : A) → Keeping P (pure a)
  unfolding pure
  Keeping-pure a = record { at = λ w h. h }

  pub Keeping-lift : (r : Reply A) → Keeping P (lift r)
  unfolding lift
  Keeping-lift r = record { at = λ w h. h }

  pub Keeping-lift_option :
      (e : Error) (m : W → Option A × W) → ((w : W) → P w → P (m w).1) → Keeping P (lift_option e m)
  unfolding lift_option
  Keeping-lift_option e m h = record { at = h }

module _ {W A B : Type 0} {P : W → Type 0} where
  then_keeps :
      (f : A → Action W B)
      → ((a : A) → Keeping P (f a))
      → (r : Reply A) (w : W) → P w
      → P (continue f r w).1
  then_keeps f kf (ok a) w h = (kf a).at w h
  then_keeps f kf (err e) w h = h

  pub Keeping-bind :
      (m : Action W A) (f : A → Action W B)
      → Keeping P m
      → ((a : A) → Keeping P (f a))
      → Keeping P (m >>= f)
  unfolding ◌>>=◌
  Keeping-bind m f km kf = record {
    at = λ w h. let (r, w') = m w in then_keeps f kf r w' (km.at w h);
  }

module _ {W A : Type 0} {P : W → Type 0} where
  pub Keeping-if :
      (b : Bool) (m n : Action W A) → Keeping P m → Keeping P n → Keeping P (if b then m else n)
  Keeping-if true m n km kn = km
  Keeping-if false m n km kn = kn

pub ruleset keeping_rules = (Keeping-pure, Keeping-lift, Keeping-bind, Keeping-if)

-- A value that `m` gives satisfies `Q`.
pub record Yielding {W A : Type 0} (Q : A → Type 0) (m : Action W A) : Type 0 where
  pub value : (w : W) (a : A) → (m w).0 ≡ ok a → Q a

ok-inj : {A : Type 0} {a b : A} → ok a ≡ ok b → a ≡ b
ok-inj {a = a} e = ap (λ r. elim r [ ok x ↦ x | err x ↦ a ]) e

module _ {W A : Type 0} {Q : A → Type 0} where
  pub Yielding-pure : (a : A) → Q a → Yielding {W = W} Q (pure a)
  unfolding pure
  Yielding-pure a q = record { value = λ w b e. subst Q (ok-inj e) q }

module _ {W A B : Type 0} {Q : B → Type 0} where
  then_yields :
      (f : A → Action W B)
      → ((a : A) → Yielding Q (f a))
      → (r : Reply A) (w : W) (b : B) → (continue f r w).0 ≡ ok b
      → Q b
  then_yields f qf (ok a) w b e = (qf a).value w b e
  then_yields f qf (err x) w b e = cc

  pub Yielding-bind :
      (m : Action W A) (f : A → Action W B) → ((a : A) → Yielding Q (f a)) → Yielding Q (m >>= f)
  unfolding ◌>>=◌
  Yielding-bind m f qf = record { value = λ w b e. let (r, w') = m w in then_yields f qf r w' b e }
