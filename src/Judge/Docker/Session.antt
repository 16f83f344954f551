-- ===== src/Judge/Docker/Session.antt =====
-- `DockerFactory` and `dockerSandbox` of internal/judge/docker.go.
use online_coding_judge.Prelude.{
  ℕ, ◌+◌, ◌*◌, ℤ, pos, pos_part, below, above, Bool, not, List, [], ◌∷◌, Bytes, text, bytes_eq,
  take, length, ltb, Option, none, some, ◌&&◌, ◌||◌, if◌then◌else◌,
}
use online_coding_judge.Errors.{Error, Reply, ok, err, failure}
use online_coding_judge.Submissions.{Status}
use online_coding_judge.Judge.Types.{Job, Outcome}
use online_coding_judge.Judge.Engine.{Sandbox, rejects}
use online_coding_judge.Judge.Retry.{second}
use online_coding_judge.Judge.Docker.Host.{TarFile, Host, Action, pure, lift, ◌>>=◌, control}
use online_coding_judge.Judge.Docker.Policy.{sandbox_args}
use online_coding_judge.Judge.Docker.Container.{Container, close, upload, create_container}
use online_coding_judge.Judge.Docker.Execute.{execute}

pub record DockerSandbox : Type 0 where
  pub compile : Option Container
  pub image : Bytes
  pub language : Bytes
  pub memory : ℤ
  pub limit : ℕ
  pub artifact : Bytes

abbrev pub artifact_limit : ℕ
artifact_limit = 16777216

abbrev pub invalid_job : Error
invalid_job = failure 20

abbrev pub invalid_artifact : Error
invalid_artifact = failure 21

abbrev pub input_too_large : Error
input_too_large = failure 22

-- The compiler container is gone; the code would follow a nil pointer.
abbrev pub no_compiler : Error
no_compiler = failure 23

abbrev pub is_cpp : Bytes → Bool
is_cpp language = bytes_eq language (text "cpp")

unfoldable pub is_invalid_job : Job → Bool
is_invalid_job job =
    (not (bytes_eq job.language (text "python")) && not (is_cpp job.language))
    || (ltb (length job.source) 1
        || (ltb 65536 (length job.source)
            || (below job.problem.time_limit_ms 100 || above job.problem.time_limit_ms 10000)))

abbrev pub source_name : Bytes → Bytes
source_name language = if is_cpp language then text "main.cpp" else text "main.py"

abbrev pub compiler : Bytes → List Bytes
compiler language =
    if is_cpp language
    then text "g++"
      ∷ text "-std=c++23"
      ∷ text "-O2"
      ∷ text "-o"
      ∷ text "/work/main"
      ∷ text "/work/main.cpp"
      ∷ []
    else text "python3" ∷ text "-m" ∷ text "py_compile" ∷ text "/work/main.py" ∷ []

abbrev pub program : Bytes → List Bytes
program language =
    if is_cpp language
    then text "/work/main" ∷ []
    else text "python3" ∷ text "-I" ∷ text "/work/main.py" ∷ []

-- Is the first file of the compiler's archive the binary?
unfoldable pub is_artifact : TarFile → Bool
is_artifact f =
    bytes_eq f.name (text "main")
    && (f.is_regular && (not (below f.size 1) && not (above f.size artifact_limit)))

abbrev pub session_of : Job → Bytes → Container → Bytes → DockerSandbox
session_of job image c archive = record {
  compile = some c;
  image = image;
  language = job.language;
  memory = job.problem.memory_limit_mb;
  limit = pos_part job.problem.time_limit_ms * 1000000;
  artifact = archive;
}

module _ {W : Type 0} (host : Host W) where
  -- The source goes into the new container, which is removed where that fails.
  unfoldable pub fill : Bool → Container → Bytes → Bytes → Action W Bytes
  fill cancelled c name source = do
    archive ← lift (host.tar name source 420)
    out ← upload host cancelled c archive
    pure archive

  abbrev pub filled_or_close : Container → Reply Bytes → Action W Bytes
  filled_or_close c (ok archive) w = (ok archive, w)
  filled_or_close c (err e) w = (err e, (close host c w).1)

  unfoldable pub filled : Bool → Container → Bytes → Bytes → Action W Bytes
  filled cancelled c name source w =
      let (r, w') = fill cancelled c name source w in filled_or_close c r w'

  -- `Open`, with the images of the factory.
  unfoldable pub open_sandbox : (Bytes → Bytes) → Bool → Job → Action W DockerSandbox
  open_sandbox images cancelled job = do
    valid ← lift (if is_invalid_job job then err invalid_job else ok (images job.language))
    args ← lift (sandbox_args valid job.problem.memory_limit_mb)
    c ← create_container host cancelled valid (pos 256)
    archive ← filled cancelled c (source_name job.language) job.source
    pure (session_of job valid c archive)

  -- The binary of a C++ program, in an archive of its own; a Python program stays as it is.
  unfoldable pub build : Bool → DockerSandbox → Container → Action W Bytes
  build cancelled s c =
      if is_cpp s.language
      then (do
        tarball ← control host cancelled [] (artifact_limit + 65536) (
            text "exec"
            ∷ c.id
            ∷ text "tar"
            ∷ text "-c"
            ∷ text "-C"
            ∷ text "/work"
            ∷ text "main"
            ∷ [])
        file ← lift (host.untar tarball)
        binary ← lift (
            if is_artifact file
            then ok (take (artifact_limit + 1) file.content)
            else err invalid_artifact)
        lift (host.tar (text "main") binary 493))
      else pure s.artifact

  -- The compiler's container is removed at the end.
  abbrev pub retired : DockerSandbox → Outcome → Option Error → Reply Outcome × DockerSandbox
  retired s out none = (ok out, record s { compile = none })
  retired s out (some e) = (err e, s)

  abbrev pub retire :
      DockerSandbox → Container → Outcome → Reply Bytes → W → (Reply Outcome × DockerSandbox) × W
  retire s c out (err e) w = ((err e, s), w)
  retire s c out (ok artifact) w =
      let (failed, w') = close host c w in
      (retired (record s { artifact = artifact }) out failed, w')

  -- The compiler was run.
  abbrev pub compiled :
      Bool → DockerSandbox → Container → Reply Outcome → W → (Reply Outcome × DockerSandbox) × W
  compiled cancelled s c (err e) w = ((err e, s), w)
  compiled cancelled s c (ok out) w =
      let (r, w') = build cancelled s c w in
      if rejects out then ((ok out, s), w) else retire s c out r w'

  -- `Compile`
  unfoldable pub compile_in :
      Bool → DockerSandbox → Container → W → (Reply Outcome × DockerSandbox) × W
  compile_in cancelled s c w =
      let (r, w') = execute host cancelled c (15 * second) [] (compiler s.language) w in
      compiled cancelled s c r w'

  abbrev pub compile_with :
      Bool → DockerSandbox → Option Container → W → (Reply Outcome × DockerSandbox) × W
  compile_with cancelled s none w = ((err no_compiler, s), w)
  compile_with cancelled s (some c) w = compile_in cancelled s c w

  unfoldable pub compile_sandbox : Bool → DockerSandbox → W → (Reply Outcome × DockerSandbox) × W
  compile_sandbox cancelled s w = compile_with cancelled s s.compile w

  -- The deferred clean-up of `Run`: its error counts if there is no other.
  abbrev pub unless_failed : Reply Outcome → Option Error → Reply Outcome
  unless_failed (err e) failed = err e
  unless_failed (ok out) none = ok out
  unless_failed (ok out) (some e) = err e

  unfoldable pub then_close : Container → Action W Outcome → Action W Outcome
  then_close c m w =
      let (r, w') = m w in let (failed, w'') = close host c w' in (unless_failed r failed, w'')

  -- The program on one input, in a container that is there.
  unfoldable pub run_in : Bool → DockerSandbox → Bytes → Container → Action W Outcome
  run_in cancelled s input c = do
    out ← upload host cancelled c s.artifact
    execute host cancelled c s.limit input (program s.language)

  -- `Run`
  unfoldable pub run_sandbox : Bool → DockerSandbox → Bytes → Action W Outcome
  run_sandbox cancelled s input = do
    small ← lift (if ltb 65536 (length input) then err input_too_large else ok input)
    c ← create_container host cancelled s.image s.memory
    then_close c (run_in cancelled s small c)

  -- `Close`
  abbrev pub closed : DockerSandbox → Option Error → Option Error × DockerSandbox
  closed s none = (none, record s { compile = none })
  closed s (some e) = (some e, s)

  abbrev pub close_with : DockerSandbox → Option Container → W → (Option Error × DockerSandbox) × W
  close_with s none w = ((none, s), w)
  close_with s (some c) w = let (failed, w') = close host c w in (closed s failed, w')

  unfoldable pub close_sandbox : DockerSandbox → W → (Option Error × DockerSandbox) × W
  close_sandbox s w = close_with s s.compile w

-- A reply to `Open` beside the world, with the session that it begins.
abbrev pub begin :
    {W : Type 0} → Reply DockerSandbox → W → Reply (Unit {0}) × (W × Option DockerSandbox)
begin (ok d) w = (ok tt, (w, some d))
begin (err e) w = (err e, (w, none))

-- An operation on the session, if there is one.
abbrev pub on_session :
    {W A : Type 0}
    → A
    → (DockerSandbox → W → (A × DockerSandbox) × W)
    → W × Option DockerSandbox
    → A × (W × Option DockerSandbox)
on_session otherwise op (w, none) = (otherwise, (w, none))
on_session otherwise op (w, some d) = let ((a, d'), w') = op d w in (a, (w', some d'))

-- The sandbox that `Evaluate` uses, beside the world: the state of its one session. When the
-- context is done is a matter of the world.
abbrev pub docker_sandbox :
    {W : Type 0}
    → Host W
    → (Bytes → Bytes)
    → (W → Bool)
    → (Status → W → Option Error × W)
    → Sandbox (W × Option DockerSandbox) (Unit {0})
docker_sandbox host images done transition = record {
  opens = λ job (w, s). let (r, w') = open_sandbox host images (done w) job w in begin r w';
  compile = λ h (w, s). on_session (err no_compiler) (compile_sandbox host (done w)) (w, s);
  run = λ h input (w, s).
      on_session (err no_compiler)
        (λ d w1. let (r, w') = run_sandbox host (done w1) d input w1 in ((r, d), w')) (w, s);
  close = λ h (w, s). on_session none (close_sandbox host) (w, s);
  transition = λ to (w, s). let (e, w') = transition to w in (e, (w', s));
}
