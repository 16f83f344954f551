-- ===== src/Judge/Docker/Host.antt =====
-- The machine that a worker runs on, and what `control` of internal/judge/docker.go does with it.
use online_coding_judge.Prelude.{ℕ, ℤ, Bool, List, Bytes, Option, none, some, ◌||◌, if◌then◌else◌}
use online_coding_judge.Errors.{Error, Reply, ok, err, failure}
use online_coding_judge.Judge.Output.{new_output_budget, write_all, limited, output}

-- How a process ended: with no error, with an exit code, or with another error of `cmd.Run`.
pub data Exit : Type 0 where
  success : Exit
  exited : ℤ → Exit
  broken : Exit

-- A process that was run: the chunks of its two streams in the order in which they are read, each
-- with its time (stdout is `true`), its end, the time of that, and whether the caller's context was
-- done by then.
pub record Process : Type 0 where
  pub chunks : List (Bool × ℕ × Bytes)
  pub exit : Exit
  pub ended : ℕ
  pub parent_done : Bool

-- The first file of a tar archive.
pub record TarFile : Type 0 where
  pub name : Bytes
  pub is_regular : Bool
  pub size : ℤ
  pub content : Bytes

-- `docker` runs the docker client with these arguments and this input under a context, `launch`
-- does so for a program in a container, from a given time on.
pub record Host (W : Type 0) : Type 0 where
  pub docker : Bool → Bytes → List Bytes → W → (List (Bool × Bytes) × Bool) × W
  pub launch : Bool → Bytes → List Bytes → W → Process × W
  pub now : W → ℕ
  pub read_file : Bytes → W → Option Bytes × W
  pub random : ℕ → W → Option Bytes × W
  pub tar : Bytes → Bytes → ℕ → Reply Bytes
  pub untar : Bytes → Reply TarFile

-- A call on the host that gives a value or an error.
abbrev pub Action : Type 0 → Type 0 → Type 0
Action W A = W → Reply A × W

module _ {W A : Type 0} where
  unfoldable pub pure : A → Action W A
  pure a w = (ok a, w)

  unfoldable pub lift : Reply A → Action W A
  lift r w = (r, w)

  unfoldable pub lift_option : Error → (W → Option A × W) → Action W A
  lift_option e m w = let (o, w') = m w in (elim o [ none ↦ err e | some a ↦ ok a ], w')

-- The rest of a block, from the reply so far.
abbrev pub continue : {W A B : Type 0} → (A → Action W B) → Reply A → Action W B
continue f (ok a) w = f a w
continue f (err e) w = (err e, w)

infixl 5 ◌>>=◌
unfoldable pub ◌>>=◌ : {W A B : Type 0} → Action W A → (A → Action W B) → Action W B
◌>>=◌ m f w = let (r, w') = m w in continue f r w'

abbrev pub docker_failed : Error
docker_failed = failure 10

-- The reply of `control`, from the chunks that the client wrote, and whether it failed.
unfoldable pub control_reply : ℕ → List (Bool × Bytes) → Bool → Reply Bytes
control_reply limit chunks failed =
    let b = write_all (new_output_budget limit) chunks in
    if failed || limited b then err docker_failed else ok (output b)

-- `control`; the context is that of the caller with a time limit.
unfoldable pub control : {W : Type 0} → Host W → Bool → Bytes → ℕ → List Bytes → Action W Bytes
control host cancelled input limit args w =
    let ((chunks, failed), w') = host.docker cancelled input args w in
    (control_reply limit chunks failed, w')
