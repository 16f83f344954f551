-- ===== src/Judge/Docker/Creation.antt =====
-- Creating a container adds it to those that are pending, or removes it again.
use online_coding_judge.Prelude.{
  ℤ, Bool, List, [], ◌∷◌, Bytes, bytes_eq, ◌≡◌, refl, sym, ap, subst, ◌∙◌, ◌⊎◌, inl, inr,
}
use online_coding_judge.Errors.{Reply, ok, err}
use online_coding_judge.Judge.Docker.Host.{Host, lift, continue, ◌>>=◌, control}
use online_coding_judge.Judge.Docker.Policy.{sandbox_args}
use online_coding_judge.Judge.Docker.Container.{
  Container, close, monitor_container, start_container, keep_or_close, or_close, with_name,
  create_container, container_name,
}
use online_coding_judge.Judge.Docker.Keeping.{
  Keeping, Yielding, Yielding-pure, Yielding-bind, keeping_rules,
}
use online_coding_judge.Judge.Docker.Pending.{remove, after_docker, tracked, remove_self}
use online_coding_judge.Judge.Docker.Quiet.{Holds, random_keeps, create_adds, monitored_keeps}

-- What a creation has done to the containers that are pending.
abbrev pub Created : List Bytes → Reply Container → List Bytes → Type 0
Created before (ok c) after = after ≡ c.id ∷ before
Created before (err e) after = (after ≡ before) ⊎ ((n : Bytes) × (after ≡ remove n before))

module _ {W : Type 0} (host : Host W) where
  abbrev pub m : Host (W × List Bytes)
  m = tracked host

  pub close_removes : (c : Container) (s : W × List Bytes) → (close m c s).1.1 ≡ remove c.id s.1
  unfolding close control after_docker bytes_eq
  close_removes c s = refl

  monitor_id :
      (cancelled : Bool) (name : Bytes)
      → Yielding (λ c. c.id ≡ name) (monitor_container m cancelled name)
  unfolding monitor_container
  monitor_id cancelled name = search (Yielding-pure, Yielding-bind) depth 16

  keep_or_close_lem :
      (name : Bytes) (before : List Bytes) (r : Reply Container) (s : W × List Bytes)
      → s.1 ≡ name ∷ before
      → ((c : Container) → r ≡ ok c → c.id ≡ name)
      → let (r', s') = keep_or_close m name r s in Created before r' s'.1
  keep_or_close_lem name before (ok c) s h named = h ∙ ap (λ n. n ∷ before) (sym (named c refl))
  keep_or_close_lem name before (err e) s h named =
      inr (name, close_removes _ s ∙ ap (remove name) h ∙ remove_self name before)

  started_lem :
      (cancelled : Bool) (name : Bytes) (before : List Bytes) (r : Reply Bytes) (s : W × List Bytes)
      → s.1 ≡ name ∷ before
      → let (r', s') = continue (λ x. monitor_container m cancelled name) r s in
        (s'.1 ≡ name ∷ before) × ((c : Container) → r' ≡ ok c → c.id ≡ name)
  started_lem cancelled name before (ok out) s h = (
    (monitored_keeps host cancelled name (name ∷ before)).at s h,
    (monitor_id cancelled name).value s,
  )
  started_lem cancelled name before (err e) s h = (h, λ c bad. cc)

  or_close_lem :
      (cancelled : Bool) (name : Bytes) (args : List Bytes) (s : W × List Bytes)
      → after_docker args s.1 ≡ name ∷ s.1
      → let (r, s') = or_close m name (start_container m cancelled args name) s in
        Created s.1 r s'.1
  unfolding or_close start_container ◌>>=◌ control
  or_close_lem cancelled name args s adds =
      let (r, s') = control m cancelled [] 4096 args s in
      let (kept, named) = started_lem cancelled name s.1 r s' adds in
      keep_or_close_lem name s.1 _ _ kept named

  named_lem :
      (cancelled : Bool) (image : Bytes) (memory : ℤ) (args : List Bytes) (r : Reply Bytes)
      (s : W × List Bytes)
      → sandbox_args image memory ≡ ok args
      → let (r', s') =
          continue
            (λ name. or_close m name (start_container m cancelled (with_name name args) name))
            r
            s in
        Created s.1 r' s'.1
  named_lem cancelled image memory args (ok name) s e =
      or_close_lem cancelled name _ s (create_adds image name memory args s.1 e)
  named_lem cancelled image memory args (err x) s e = inl refl

  name_keeps : (pending : List Bytes) → Keeping (Holds host pending) (container_name m)
  unfolding container_name
  name_keeps pending = search (keeping_rules, random_keeps host)

  with_args_lem :
      (cancelled : Bool) (image : Bytes) (memory : ℤ) (r : Reply (List Bytes)) (s : W × List Bytes)
      → sandbox_args image memory ≡ r
      → let (r', s') =
          continue
            (λ args. container_name m >>= λ name.
              or_close m name (start_container m cancelled (with_name name args) name))
            r
            s in
        Created s.1 r' s'.1
  unfolding ◌>>=◌
  with_args_lem cancelled image memory (ok args) s e =
      let (r, s') = container_name m s in
      subst
        (λ before.
          let (r', t) =
            continue
              (λ name. or_close m name (start_container m cancelled (with_name name args) name)) r
              s' in
          Created before r' t.1)
        ((name_keeps s.1).at s refl) (named_lem cancelled image memory args r s' e)
  with_args_lem cancelled image memory (err x) s e = inl refl

  pub create_lem :
      (cancelled : Bool) (image : Bytes) (memory : ℤ) (s : W × List Bytes)
      → let (r, s') = create_container m cancelled image memory s in Created s.1 r s'.1
  unfolding create_container ◌>>=◌ lift
  create_lem cancelled image memory s = with_args_lem cancelled image memory _ s refl
