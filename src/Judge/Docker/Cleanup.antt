-- ===== src/Judge/Docker/Cleanup.antt =====
-- What each operation of the sandbox leaves pending: at most the compiler's container.
use online_coding_judge.Prelude.{
  ◌*◌, pos, Bool, List, [], ◌∷◌, Bytes, Option, none, some, ◌≡◌, refl, sym, ap, subst, ◌∙◌, inl,
  inr, Bool-cases,
}
use online_coding_judge.Errors.{Reply, ok, err}
use online_coding_judge.Database.Table.{map_option}
use online_coding_judge.Judge.Types.{Job, Outcome}
use online_coding_judge.Judge.Engine.{rejects}
use online_coding_judge.Judge.Retry.{second}
use online_coding_judge.Judge.Docker.Host.{Host, pure, lift, continue, ◌>>=◌}
use online_coding_judge.Judge.Docker.Policy.{sandbox_args}
use online_coding_judge.Judge.Docker.Container.{Container, close, create_container}
use online_coding_judge.Judge.Docker.Session.{
  DockerSandbox, session_of, source_name, fill, filled_or_close, filled, open_sandbox, build,
  compiled, retire, compiler, compile_in, compile_with, compile_sandbox, then_close, run_in,
  run_sandbox, close_with, close_sandbox,
}
use online_coding_judge.Judge.Docker.Execute.{execute}
use online_coding_judge.Judge.Docker.Keeping.{Keeping, keeping_rules}
use online_coding_judge.Judge.Docker.Pending.{
  remove, tracked, Within, remove_self, remove-Within, remove_only,
}
use online_coding_judge.Judge.Docker.Quiet.{
  Holds, upload_keeps, build_keeps, execute_keeps, run_in_keeps,
}
use online_coding_judge.Judge.Docker.Creation.{Created, close_removes, create_lem}

-- The name of the compiler's container, while the session has one.
abbrev pub compiler_of : DockerSandbox → Option Bytes
compiler_of d = map_option (λ (c : Container). c.id) d.compile

module _ {W : Type 0} (host : Host W) where
  abbrev m : Host (W × List Bytes)
  m = tracked host

  -- `Open`, where nothing is pending.
  abbrev pub Opened : Reply DockerSandbox → List Bytes → Type 0
  Opened (ok d) pending = Within (compiler_of d) pending
  Opened (err e) pending = pending ≡ []

  fill_keeps :
      (cancelled : Bool) (c : Container) (name source : Bytes) (pending : List Bytes)
      → Keeping (Holds host pending) (fill m cancelled c name source)
  unfolding fill
  fill_keeps cancelled c name source pending = search (keeping_rules, upload_keeps host)

  abbrev Filled : Container → Reply Bytes → List Bytes → Type 0
  Filled c (ok archive) pending = pending ≡ c.id ∷ []
  Filled c (err e) pending = pending ≡ []

  filled_or_close_lem :
      (c : Container) (r : Reply Bytes) (s : W × List Bytes)
      → s.1 ≡ c.id ∷ []
      → let (r', s') = filled_or_close m c r s in Filled c r' s'.1
  unfolding remove
  filled_or_close_lem c (ok archive) s h = h
  filled_or_close_lem c (err e) s h =
      close_removes host c s ∙ ap (remove c.id) h ∙ remove_self c.id []

  session_lem :
      (job : Job) (image : Bytes) (c : Container) (r : Reply Bytes) (s : W × List Bytes)
      → Filled c r s.1
      → let (r', s') = continue (λ a. pure (session_of job image c a)) r s in Opened r' s'.1
  unfolding pure
  session_lem job image c (ok a) s h = subst (Within (some c.id)) (sym h) (refl, tt)
  session_lem job image c (err e) s h = h

  opened_lem :
      (cancelled : Bool) (job : Job) (image : Bytes) (r : Reply Container) (s : W × List Bytes)
      → Created [] r s.1
      → let (r', s') =
          continue
            (λ c. filled m cancelled c (source_name job.language) job.source >>= λ a.
              pure (session_of job image c a))
            r
            s in
        Opened r' s'.1
  unfolding filled ◌>>=◌ remove
  opened_lem cancelled job image (ok c) s h =
      let (r, s1) = fill m cancelled c (source_name job.language) job.source s in
      let kept =
        (fill_keeps cancelled c (source_name job.language) job.source (c.id ∷ [])).at s h in
      session_lem job image c _ _ (filled_or_close_lem c r s1 kept)
  opened_lem cancelled job image (err e) s (inl same) = same
  opened_lem cancelled job image (err e) s (inr (n, less)) = less

  prepared_lem :
      (cancelled : Bool) (job : Job) (image : Bytes) (r : Reply (List Bytes)) (s : W × List Bytes)
      → s.1 ≡ []
      → let (r', s') =
          continue
            (λ args. create_container m cancelled image (pos 256) >>= λ c.
              filled m cancelled c (source_name job.language) job.source >>= λ a.
              pure (session_of job image c a))
            r
            s in
        Opened r' s'.1
  unfolding ◌>>=◌
  prepared_lem cancelled job image (ok args) s h =
      let (r, s1) = create_container m cancelled image (pos 256) s in
      opened_lem cancelled job image r s1
        (subst (λ p. Created p r s1.1) h (create_lem host cancelled image (pos 256) s))
  prepared_lem cancelled job image (err e) s h = h

  -- A compilation: what is pending is the compiler's container or nothing.
  name_of : (d : DockerSandbox) (c : Container) → d.compile ≡ some c → compiler_of d ≡ some c.id
  name_of d c at = ap (map_option (λ (x : Container). x.id)) at

  retire_lem :
      (d : DockerSandbox) (c : Container) (out : Outcome) (r : Reply Bytes) (s : W × List Bytes)
      → d.compile ≡ some c
      → Within (some c.id) s.1
      → let ((r', d'), s') = retire m d c out r s in Within (compiler_of d') s'.1
  retire_lem d c out (err e) s at h = subst (λ o. Within o s.1) (sym (name_of d c at)) h
  retire_lem d c out (ok archive) s at h =
      let (failed, s') = close m c s in
      subst (Within _) (sym (close_removes host c s ∙ remove_only c.id s.1 h)) tt

  compiled_lem :
      (cancelled : Bool) (d : DockerSandbox) (c : Container) (r : Reply Outcome)
      (s : W × List Bytes)
      → d.compile ≡ some c
      → Within (some c.id) s.1
      → let ((r', d'), s') = compiled m cancelled d c r s in Within (compiler_of d') s'.1
  compiled_lem cancelled d c (err e) s at h = subst (λ o. Within o s.1) (sym (name_of d c at)) h
  compiled_lem cancelled d c (ok out) s at h = elim (Bool-cases (rejects out)) [
    | inl bad ↦ rw bad (subst (λ o. Within o s.1) (sym (name_of d c at)) h)
    | inr good ↦
        let (r, s') = build m cancelled d c s in
        let kept = (build_keeps host cancelled d c s.1).at s refl in
        rw good (retire_lem d c out r s' at (subst (Within (some c.id)) (sym kept) h))
  ]

  -- What is pending, from the compiler's container in the session.
  reread :
      (d : DockerSandbox) (o : Option Container) (pending : List Bytes)
      → d.compile ≡ o
      → Within (compiler_of d) pending
      → Within (map_option (λ (x : Container). x.id) o) pending
  reread d o pending at h =
      subst (λ x. Within (map_option (λ (c : Container). c.id) x) pending) at h

  compile_with_lem :
      (cancelled : Bool) (d : DockerSandbox) (o : Option Container) (s : W × List Bytes)
      → d.compile ≡ o
      → Within (compiler_of d) s.1
      → let ((r, d'), s') = compile_with m cancelled d o s in Within (compiler_of d') s'.1
  unfolding compile_in
  compile_with_lem cancelled d none s at h = h
  compile_with_lem cancelled d (some c) s at h =
      let (r, s') = execute m cancelled c (15 * second) [] (compiler d.language) s in
      let kept =
        (execute_keeps host cancelled c (15 * second) [] (compiler d.language) s.1).at s refl in
      compiled_lem cancelled d c r s' at (subst (Within _) (sym kept) (reread d (some c) s.1 at h))

  pub none_left : (pending : List Bytes) → Within none pending → pending ≡ []
  none_left [] h = refl
  none_left (x ∷ xs) (h, hs) = cc

  close_with_lem :
      (d : DockerSandbox) (o : Option Container) (s : W × List Bytes)
      → d.compile ≡ o
      → Within (compiler_of d) s.1
      → (close_with m d o s).1.1 ≡ []
  close_with_lem d none s at h = none_left s.1 (reread d none s.1 at h)
  close_with_lem d (some c) s at h =
      close_removes host c s ∙ remove_only c.id s.1 (reread d (some c) s.1 at h)

  -- A run: its own container is removed, what was pending before still is.
  ran_lem :
      (o : Option Bytes) (cancelled : Bool) (d : DockerSandbox) (input : Bytes)
      (before : List Bytes) (r : Reply Container) (s : W × List Bytes)
      → Created before r s.1
      → Within o before
      → Within o (continue (λ c. then_close m c (run_in m cancelled d input c)) r s).1.1
  unfolding then_close
  ran_lem o cancelled d input before (ok c) s made h =
      let (r, s') = run_in m cancelled d input c s in
      let kept = (run_in_keeps host cancelled d input c (c.id ∷ before)).at s made in
      subst (Within o)
        (sym (close_removes host c s' ∙ ap (remove c.id) kept ∙ remove_self c.id before))
        (remove-Within o c.id before h)
  ran_lem o cancelled d input before (err e) s (inl same) h = subst (Within o) (sym same) h
  ran_lem o cancelled d input before (err e) s (inr (n, less)) h =
      subst (Within o) (sym less) (remove-Within o n before h)

  run_small_lem :
      (o : Option Bytes) (cancelled : Bool) (d : DockerSandbox) (r : Reply Bytes)
      (s : W × List Bytes)
      → Within o s.1
      → Within o
          (continue
            (λ small. create_container m cancelled d.image d.memory >>= λ c.
              then_close m c (run_in m cancelled d small c))
            r
            s).1.1
  unfolding ◌>>=◌
  run_small_lem o cancelled d (ok input) s h =
      let (r, s') = create_container m cancelled d.image d.memory s in
      ran_lem o cancelled d input s.1 r s' (create_lem host cancelled d.image d.memory s) h
  run_small_lem o cancelled d (err e) s h = h

  pub run_lem :
      (o : Option Bytes) (cancelled : Bool) (d : DockerSandbox) (input : Bytes) (s : W × List Bytes)
      → Within o s.1
      → Within o (run_sandbox m cancelled d input s).1.1
  unfolding run_sandbox ◌>>=◌ lift
  run_lem o cancelled d input s h = run_small_lem o cancelled d _ s h

  pub compile_lem :
      (cancelled : Bool) (d : DockerSandbox) (s : W × List Bytes)
      → Within (compiler_of d) s.1
      → let ((r, d'), s') = compile_sandbox m cancelled d s in Within (compiler_of d') s'.1
  unfolding compile_sandbox
  compile_lem cancelled d s h = compile_with_lem cancelled d d.compile s refl h

  pub close_lem :
      (d : DockerSandbox) (s : W × List Bytes)
      → Within (compiler_of d) s.1
      → (close_sandbox m d s).1.1 ≡ []
  unfolding close_sandbox
  close_lem d s h = close_with_lem d d.compile s refl h

  valid_lem :
      (images : Bytes → Bytes) (cancelled : Bool) (job : Job) (r : Reply Bytes) (s : W × List Bytes)
      → s.1 ≡ []
      → let (r', s') =
          continue
            (λ image. lift (sandbox_args image job.problem.memory_limit_mb) >>= λ args.
              create_container m cancelled image (pos 256) >>= λ c.
              filled m cancelled c (source_name job.language) job.source >>= λ a.
              pure (session_of job image c a))
            r
            s in
        Opened r' s'.1
  unfolding ◌>>=◌ lift
  valid_lem images cancelled job (ok image) s h = prepared_lem cancelled job image _ s h
  valid_lem images cancelled job (err e) s h = h

  pub open_lem :
      (images : Bytes → Bytes) (cancelled : Bool) (job : Job) (s : W × List Bytes)
      → s.1 ≡ []
      → let (r, s') = open_sandbox m images cancelled job s in Opened r s'.1
  unfolding open_sandbox ◌>>=◌ lift
  open_lem images cancelled job s h = valid_lem images cancelled job _ s h
