-- ===== src/Judge/Docker/Container.antt =====
-- `container` of internal/judge/docker.go: creating, filling and removing one.
use online_coding_judge.Prelude.{
  ℕ, ◌+◌, ◌/◌, ◌%◌, ℤ, pos_part, below, Bool, false, List, [], ◌∷◌, ◌++◌, Bytes, text, bytes_eq,
  Option, none, some, length, take, drop, above, ◌-◌, ltb, ◌||◌, if◌then◌else◌,
}
use online_coding_judge.Errors.{Error, Reply, ok, err, failure}
use online_coding_judge.Judge.Compare.{fields}
use online_coding_judge.Judge.Docker.Strings.{
  has_prefix, trim_prefix, split, itoa, parse_int, parse_field, clean,
}
use online_coding_judge.Judge.Docker.Host.{Host, Action, pure, lift, lift_option, ◌>>=◌, control}
use online_coding_judge.Judge.Docker.Policy.{sandbox_args}

pub record Container : Type 0 where
  pub id : Bytes
  pub cgroup : Bytes

abbrev pub hex_digit : ℕ → ℕ
hex_digit n = if ltb n 10 then 48 + n else 87 + n

-- `hex.EncodeToString`
unfoldable pub hex : Bytes → Bytes
hex [] = []
hex (c ∷ s) = hex_digit (c / 16) ∷ hex_digit (c % 16) ∷ hex s

abbrev pub no_random : Error
no_random = failure 12

abbrev pub invalid_pid : Error
invalid_pid = failure 13

abbrev pub no_cgroup : Error
no_cgroup = failure 14

abbrev pub invalid_cgroup : Error
invalid_cgroup = failure 15

abbrev pub no_metrics : Error
no_metrics = failure 16

abbrev pub cgroup_root : Bytes
cgroup_root = text "/sys/fs/cgroup/"

-- The line of /proc/<pid>/cgroup that names the cgroup, and the path that it gives.
unfoldable pub cgroup_path : List Bytes → Reply Bytes
cgroup_path [] = err no_cgroup
cgroup_path (line ∷ lines) =
    let rest = cgroup_path lines in
    let path = clean (cgroup_root ++ trim_prefix (text "0::/") line) in
    if has_prefix (text "0::/") line
    then (if has_prefix cgroup_root path then ok path else err invalid_cgroup)
    else rest

-- The sign of `n + 1023`, which wraps around at 2 ^ 63, and of the quotient is dropped: a negative
-- number of kilobytes counts as none where `Evaluate` takes the maximum with one from 0 on.
unfoldable pub kilobytes : ℤ → ℕ
kilobytes n = let m = pos_part n + 1023 in if ltb m 9223372036854775808 then m / 1024 else 0

-- One line of memory.events: does it count a kill?
unfoldable pub kill_line : List Bytes → Reply Bool
kill_line (key ∷ value ∷ []) =
    if bytes_eq key (text "oom_kill") || bytes_eq key (text "oom_group_kill")
    then elim (parse_int value) [ none ↦ err no_metrics | some n ↦ ok (above n 0) ]
    else ok false
kill_line fs = ok false

unfoldable pub kill_lines : Bool → List Bytes → Reply Bool
kill_lines oom [] = ok oom
kill_lines oom (line ∷ lines) = elim (kill_line (fields line)) [
  | err e ↦ err e
  | ok hit ↦ kill_lines (oom || hit) lines
]

-- The name goes in front of the image.
abbrev pub with_name : Bytes → List Bytes → List Bytes
with_name name args =
    take (length args - 1) args ++ ((text "--name=" ++ name) ∷ drop (length args - 1) args)

module _ {W : Type 0} (host : Host W) where
  -- `containerName`
  unfoldable pub container_name : Action W Bytes
  container_name = do
    bytes ← lift_option no_random (host.random 16)
    pure (text "judge-" ++ hex bytes)

  -- `close`, under a fresh context.
  unfoldable pub close : Container → W → Option Error × W
  close c w =
      let (r, w') = control host false [] 4096 (text "rm" ∷ text "-f" ∷ c.id ∷ []) w in
      (elim r [ ok out ↦ none | err e ↦ some e ], w')

  -- `upload`
  unfoldable pub upload : Bool → Container → Bytes → Action W Bytes
  upload cancelled c archive = control host cancelled archive 4096 (
      text "exec"
      ∷ text "-i"
      ∷ c.id
      ∷ text "tar"
      ∷ text "-x"
      ∷ text "--no-same-owner"
      ∷ text "-C"
      ∷ text "/work"
      ∷ [])

  -- `metrics`: kilobytes at the peak, and whether a process was killed for lack of memory.
  unfoldable pub metrics : Bytes → Action W (ℕ × Bool)
  metrics cgroup = do
    peak ← lift_option no_metrics (host.read_file (cgroup ++ text "/memory.peak"))
    n ← lift (elim (parse_field (fields peak)) [ none ↦ err no_metrics | some n ↦ ok n ])
    events ← lift_option no_metrics (host.read_file (cgroup ++ text "/memory.events"))
    oom ← lift (kill_lines false (split 10 events))
    pure (kilobytes n, oom)

  abbrev pub valid_pid : Option ℤ → Reply ℕ
  valid_pid none = err invalid_pid
  valid_pid (some n) = if below n 1 then err invalid_pid else ok (pos_part n)

  -- The created container is started and its counters are found.
  unfoldable pub monitor_container : Bool → Bytes → Action W Container
  monitor_container cancelled name = do
    started ← control host cancelled [] 4096 (text "start" ∷ name ∷ [])
    out ←
        control host cancelled [] 4096
          (text "inspect" ∷ text "--format" ∷ text "{{.State.Pid}}" ∷ name ∷ [])
    pid ← lift (valid_pid (parse_field (fields out)))
    membership ←
        lift_option no_cgroup (host.read_file (text "/proc/" ++ (itoa pid ++ text "/cgroup")))
    path ← lift (cgroup_path (split 10 membership))
    usage ← metrics path
    pure (record { id = name; cgroup = path })

  -- What `createContainer` does once the name is known.
  unfoldable pub start_container : Bool → List Bytes → Bytes → Action W Container
  start_container cancelled args name = do
    created ← control host cancelled [] 4096 args
    monitor_container cancelled name

  -- The deferred clean-up of `createContainer`.
  abbrev pub keep_or_close : Bytes → Reply Container → Action W Container
  keep_or_close name (ok c) w = (ok c, w)
  keep_or_close name (err e) w = (err e, (close (record { id = name; cgroup = [] }) w).1)

  unfoldable pub or_close : Bytes → Action W Container → Action W Container
  or_close name m w = let (r, w') = m w in keep_or_close name r w'

  -- `createContainer`
  unfoldable pub create_container : Bool → Bytes → ℤ → Action W Container
  create_container cancelled image memory = do
    args ← lift (sandbox_args image memory)
    name ← container_name
    or_close name (start_container cancelled (with_name name args) name)
