-- ===== src/Judge/Docker/Quiet.antt =====
-- The calls that create and remove no container.
use online_coding_judge.Prelude.{
  ℕ, ◌+◌, ℤ, pos_part, below, above, Bool, List, [], ◌∷◌, ◌++◌, Bytes, text, bytes_eq, ◌≡◌, refl,
  ap, subst, inl, inr, arith, Bool-cases, Option-cases, not, ◌||◌,
}
use online_coding_judge.Errors.{Error, ok, err}
use online_coding_judge.Judge.Launch.{LaunchClock, start_time}
use online_coding_judge.Judge.Docker.Strings.{has_prefix}
use online_coding_judge.Judge.Docker.Host.{Process, Host, lift_option, control}
use online_coding_judge.Judge.Docker.Policy.{controls, sandbox_args, is_image}
use online_coding_judge.Judge.Docker.Container.{
  Container, upload, metrics, monitor_container, with_name,
}
use online_coding_judge.Judge.Docker.Execute.{execute, judged}
use online_coding_judge.Judge.Docker.Session.{DockerSandbox, artifact_limit, build, run_in}
use online_coding_judge.Judge.Docker.Keeping.{Keeping, Keeping-lift_option, keeping_rules}
use online_coding_judge.Judge.Docker.Pending.{named, after_docker, tracked}

ok-inj : {A : Type 0} {a b : A} → ok a ≡ ok b → a ≡ b
ok-inj {a = a} e = ap (λ r. elim r [ ok x ↦ x | err x ↦ a ]) e

args_of :
    (image : Bytes) (memory : ℤ) (args : List Bytes)
    → sandbox_args image memory ≡ ok args
    → text "create" ∷ (controls (pos_part memory) ++ (image ∷ [])) ≡ args
unfolding sandbox_args
args_of image memory args e =
    elim (Bool-cases (not (is_image image) || (below memory 32 || above memory 512))) [
      | inl bad ↦ absurd (ground (arith, bad, e))
      | inr good ↦ ok-inj (rw good at e)
    ]

-- The name stands in the arguments of the creation.
pub create_adds :
    (image name : Bytes) (memory : ℤ) (args pending : List Bytes)
    → sandbox_args image memory ≡ ok args
    → after_docker (with_name name args) pending ≡ name ∷ pending
unfolding sandbox_args after_docker named bytes_eq has_prefix
create_adds image name memory args pending e =
    let found = args_of image memory args e in
    subst (λ l. after_docker (with_name name l) pending ≡ name ∷ pending) found refl

module _ {W : Type 0} (host : Host W) where
  abbrev pub m : Host (W × List Bytes)
  m = tracked host

  abbrev pub Holds : List Bytes → W × List Bytes → Type 0
  Holds pending s = s.1 ≡ pending

  pub control_keeps :
      (cancelled : Bool) (input : Bytes) (limit : ℕ) (args pending : List Bytes)
      → after_docker args pending ≡ pending
      → Keeping (Holds pending) (control m cancelled input limit args)
  unfolding control
  control_keeps cancelled input limit args pending quiet = record { at = λ s h. rw h quiet }

  pub upload_keeps :
      (cancelled : Bool) (c : Container) (archive : Bytes) (pending : List Bytes)
      → Keeping (Holds pending) (upload m cancelled c archive)
  unfolding upload after_docker bytes_eq
  upload_keeps cancelled c archive pending = control_keeps cancelled archive 4096 _ pending refl

  read_keeps :
      (e : Error) (path : Bytes) (pending : List Bytes)
      → Keeping (Holds pending) (lift_option e (m.read_file path))
  read_keeps e path pending = Keeping-lift_option e (m.read_file path) (λ s h. h)

  pub random_keeps :
      (e : Error) (n : ℕ) (pending : List Bytes)
      → Keeping (Holds pending) (lift_option e (m.random n))
  random_keeps e n pending = Keeping-lift_option e (m.random n) (λ s h. h)

  metrics_keeps :
      (cgroup : Bytes) (pending : List Bytes) → Keeping (Holds pending) (metrics m cgroup)
  unfolding metrics
  metrics_keeps cgroup pending = search (keeping_rules, read_keeps)

  -- The calls that start, ask about or feed a container.
  start_keeps :
      (cancelled : Bool) (name : Bytes) (pending : List Bytes)
      → Keeping (Holds pending) (control m cancelled [] 4096 (text "start" ∷ name ∷ []))
  unfolding after_docker bytes_eq
  start_keeps cancelled name pending = control_keeps cancelled [] 4096 _ pending refl

  inspect_keeps :
      (cancelled : Bool) (name : Bytes) (pending : List Bytes)
      → Keeping (Holds pending) (
          control m cancelled [] 4096
            (text "inspect" ∷ text "--format" ∷ text "{{.State.Pid}}" ∷ name ∷ []))
  unfolding after_docker bytes_eq
  inspect_keeps cancelled name pending = control_keeps cancelled [] 4096 _ pending refl

  tar_keeps :
      (cancelled : Bool) (id : Bytes) (pending : List Bytes)
      → Keeping (Holds pending) (
          control m cancelled [] (artifact_limit + 65536) (
            text "exec"
            ∷ id
            ∷ text "tar"
            ∷ text "-c"
            ∷ text "-C"
            ∷ text "/work"
            ∷ text "main"
            ∷ []))
  unfolding after_docker bytes_eq
  tar_keeps cancelled id pending = control_keeps cancelled [] _ _ pending refl

  ruleset host_rules = (
    keeping_rules, read_keeps, metrics_keeps, start_keeps, inspect_keeps, tar_keeps, upload_keeps,
  )

  pub monitored_keeps :
      (cancelled : Bool) (name : Bytes) (pending : List Bytes)
      → Keeping (Holds pending) (monitor_container m cancelled name)
  unfolding monitor_container
  monitored_keeps cancelled name pending = search host_rules depth 16

  pub build_keeps :
      (cancelled : Bool) (s : DockerSandbox) (c : Container) (pending : List Bytes)
      → Keeping (Holds pending) (build m cancelled s c)
  unfolding build
  build_keeps cancelled s c pending = search host_rules

  judged_keeps :
      (c : Container) (clock : LaunchClock) (p : Process) (pending : List Bytes)
      → Keeping (Holds pending) (judged m c clock p)
  unfolding judged
  judged_keeps c clock p pending = record {
    at = λ s h. elim (Bool-cases p.parent_done) [
      | inl gone ↦ rw gone h
      | inr there ↦ elim (Option-cases (start_time clock)) [
        | inl never ↦ rw (there, never) h
        | inr (t, started) ↦ rw (there, started) ((metrics_keeps c.cgroup pending).at s h)
      ]
    ];
  }

  pub execute_keeps :
      (cancelled : Bool) (c : Container) (limit : ℕ) (input : Bytes) (args pending : List Bytes)
      → Keeping (Holds pending) (execute m cancelled c limit input args)
  unfolding execute
  execute_keeps cancelled c limit input args pending = record {
    at = λ s h. (judged_keeps c _ _ pending).at _ h;
  }

  pub run_in_keeps :
      (cancelled : Bool) (s : DockerSandbox) (input : Bytes) (c : Container) (pending : List Bytes)
      → Keeping (Holds pending) (run_in m cancelled s input c)
  unfolding run_in
  run_in_keeps cancelled s input c pending = search (host_rules, execute_keeps)
