-- ===== src/Judge/Docker/Upkeep.antt =====
-- What every call on the host keeps, the operations of a session keep.
use online_coding_judge.Prelude.{ℕ, ℤ, Bool, List, Bytes, inl, inr, Bool-cases, Option-cases}
use online_coding_judge.Errors.{Error, Reply, ok, err}
use online_coding_judge.Judge.Launch.{LaunchClock, start_time}
use online_coding_judge.Judge.Docker.Host.{Process, Host, Action, lift_option, control}
use online_coding_judge.Judge.Docker.Container.{
  Container, upload, close, metrics, monitor_container, start_container, container_name,
  keep_or_close, or_close, create_container,
}
use online_coding_judge.Judge.Docker.Execute.{execute, judged}
use online_coding_judge.Judge.Docker.Session.{DockerSandbox, build, run_in, then_close, run_sandbox}
use online_coding_judge.Judge.Docker.Keeping.{Keeping, Keeping-lift_option, keeping_rules}

-- The calls on the host that change the world keep `G`.
pub record Upholds {W : Type 0} (host : Host W) (G : W → Type 0) : Type 0 where
  pub docker :
      (cancelled : Bool) (input : Bytes) (args : List Bytes) (w : W)
      → G w
      → G (host.docker cancelled input args w).1
  pub launch :
      (cancelled : Bool) (input : Bytes) (args : List Bytes) (w : W)
      → G w
      → G (host.launch cancelled input args w).1
  pub read_file : (path : Bytes) (w : W) → G w → G (host.read_file path w).1
  pub random : (n : ℕ) (w : W) → G w → G (host.random n w).1

module _ {W : Type 0} (host : Host W) (G : W → Type 0) (up : Upholds host G) where
  control_keeps :
      (cancelled : Bool) (input : Bytes) (limit : ℕ) (args : List Bytes)
      → Keeping G (control host cancelled input limit args)
  unfolding control
  control_keeps cancelled input limit args = record { at = λ w h. up.docker _ _ _ w h }

  pub close_keeps : (c : Container) (w : W) → G w → G (close host c w).1
  unfolding close control
  close_keeps c w h = up.docker _ _ _ w h

  upload_keeps :
      (cancelled : Bool) (c : Container) (archive : Bytes)
      → Keeping G (upload host cancelled c archive)
  unfolding upload
  upload_keeps cancelled c archive = control_keeps cancelled archive 4096 _

  read_keeps : (e : Error) (path : Bytes) → Keeping G (lift_option e (host.read_file path))
  read_keeps e path = Keeping-lift_option e (host.read_file path) (up.read_file path)

  random_keeps : (e : Error) (n : ℕ) → Keeping G (lift_option e (host.random n))
  random_keeps e n = Keeping-lift_option e (host.random n) (up.random n)

  metrics_keeps : (cgroup : Bytes) → Keeping G (metrics host cgroup)
  unfolding metrics
  metrics_keeps cgroup = search (keeping_rules, read_keeps)

  ruleset upkeep_rules =
      (keeping_rules, control_keeps, upload_keeps, read_keeps, random_keeps, metrics_keeps)

  name_keeps : Keeping G (container_name host)
  unfolding container_name
  name_keeps = search upkeep_rules

  monitor_keeps :
      (cancelled : Bool) (name : Bytes) → Keeping G (monitor_container host cancelled name)
  unfolding monitor_container
  monitor_keeps cancelled name = search upkeep_rules depth 16

  start_keeps :
      (cancelled : Bool) (args : List Bytes) (name : Bytes)
      → Keeping G (start_container host cancelled args name)
  unfolding start_container
  start_keeps cancelled args name = search (upkeep_rules, monitor_keeps)

  kept_or_closed :
      (name : Bytes) (r : Reply Container) (w : W) → G w → G (keep_or_close host name r w).1
  kept_or_closed name (ok c) w h = h
  kept_or_closed name (err e) w h = close_keeps _ w h

  or_close_keeps :
      (name : Bytes) (m : Action W Container) → Keeping G m → Keeping G (or_close host name m)
  unfolding or_close
  or_close_keeps name m km = record {
    at = λ w h. let (r, w') = m w in kept_or_closed name r w' (km.at w h);
  }

  create_keeps :
      (cancelled : Bool) (image : Bytes) (memory : ℤ)
      → Keeping G (create_container host cancelled image memory)
  unfolding create_container
  create_keeps cancelled image memory =
      search (upkeep_rules, name_keeps, or_close_keeps, start_keeps)

  pub build_keeps :
      (cancelled : Bool) (s : DockerSandbox) (c : Container) → Keeping G (build host cancelled s c)
  unfolding build
  build_keeps cancelled s c = search upkeep_rules

  judged_keeps :
      (c : Container) (clock : LaunchClock) (p : Process) → Keeping G (judged host c clock p)
  unfolding judged
  judged_keeps c clock p = record {
    at = λ w h. elim (Bool-cases p.parent_done) [
      | inl gone ↦ rw gone h
      | inr there ↦ elim (Option-cases (start_time clock)) [
        | inl never ↦ rw (there, never) h
        | inr (t, started) ↦ rw (there, started) ((metrics_keeps c.cgroup).at w h)
      ]
    ];
  }

  pub execute_keeps :
      (cancelled : Bool) (c : Container) (limit : ℕ) (input : Bytes) (args : List Bytes)
      → Keeping G (execute host cancelled c limit input args)
  unfolding execute
  execute_keeps cancelled c limit input args = record {
    at = λ w h. (judged_keeps c _ _).at _ (up.launch _ _ _ w h);
  }

  run_in_keeps :
      (cancelled : Bool) (s : DockerSandbox) (input : Bytes) (c : Container)
      → Keeping G (run_in host cancelled s input c)
  unfolding run_in
  run_in_keeps cancelled s input c = search (upkeep_rules, execute_keeps)

  then_close_keeps :
      (cancelled : Bool) (s : DockerSandbox) (input : Bytes) (c : Container)
      → Keeping G (then_close host c (run_in host cancelled s input c))
  unfolding then_close
  then_close_keeps cancelled s input c = record {
    at = λ w h. close_keeps c _ ((run_in_keeps cancelled s input c).at w h);
  }

  pub run_keeps :
      (cancelled : Bool) (s : DockerSandbox) (input : Bytes)
      → Keeping G (run_sandbox host cancelled s input)
  unfolding run_sandbox
  run_keeps cancelled s input = search (keeping_rules, create_keeps, then_close_keeps)
