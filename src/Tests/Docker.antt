-- ===== src/Tests/Docker.antt =====
-- The docker sandbox on a concrete host.
use online_coding_judge.Prelude.{
  ◌⊎◌, ℕ, suc, ◌≤◌, pos, [], ◌∷◌, ◌++◌, Bytes, text, Bool, true, false, Option, none, some, ◌≡◌,
  refl, take, length, ◌&&◌, bytes_eq, if◌then◌else◌,
}
use online_coding_judge.Errors.{Error, ok, err, failure}
use online_coding_judge.Judge.Types.{Outcome}
use online_coding_judge.Judge.Engine.{execution_of, evaluate}
use online_coding_judge.Judge.Launch.{marker, new_launch_clock, start_time, forward}
use online_coding_judge.Judge.Launch
use online_coding_judge.Judge.Launch.Marker.{stream}
use online_coding_judge.Judge.Output.{new_output_budget, limited, output}
use online_coding_judge.Judge.Output
use online_coding_judge.Judge.Compare.{fields, space_width}
use online_coding_judge.Judge.Docker.Strings.{
  has_prefix, split, clean_from, rooted, clean, scan_digits, parse_int,
}
use online_coding_judge.Judge.Docker.Host.{success, Process, Host, pure, lift, lift_option, ◌>>=◌}
use online_coding_judge.Judge.Docker.Container.{
  Container, cgroup_root, cgroup_path, kilobytes, kill_line, kill_lines, metrics,
}
use online_coding_judge.Judge.Docker.Execute.{
  output_limit, feed, feed_all, measured, with_exit, judged, execute,
}
use online_coding_judge.Judge.Docker.Execution.{stderr_of, execute_sound}
use online_coding_judge.Judge.Docker.Confinement.{IsPlain, cgroup_path-IsPlain}
use online_coding_judge.Judge.Docker.Evaluation.{watched, Removed, compiler_name, evaluate_cleans}
use online_coding_judge.Tests.Data.{addition}
use online_coding_judge.Submissions.{Status}

abbrev printed : Process
printed = record {
  chunks =
      (false, 5, take 4 marker)
      ∷ (true, 6, text "3")
      ∷ (false, 7, text "E_STARTED" ++ (10 ∷ []))
      ∷ [];
  exit = success;
  ended = 8;
  parent_done = false;
}

-- Its files are those of a process in a cgroup.
abbrev machine : Host ℕ
machine = record {
  docker = λ cancelled input args w. (((true, text "7") ∷ [], false), suc w);
  launch = λ cancelled input args w. (printed, suc w);
  now = λ w. w;
  read_file =
      λ path w. (some (if has_prefix (text "/proc") path then text "0::/box" else text "2048"), w);
  random = λ n w. (some (1 ∷ 2 ∷ []), w);
  tar = λ name content mode. ok content;
  untar = λ archive. err (failure 9);
}

abbrev any_image : Bytes → Bytes
any_image language = text "sha256:0123456789abcdef0123456789abcdef0123456789abcdef0123456789abcdef"

abbrev never_done : ℕ → Bool
never_done w = false

abbrev no_transition : Status → ℕ → Option Error × ℕ
no_transition to w = (none, w)

evaluate_cleans_example :
    let sandbox = watched machine any_image never_done no_transition in
    let (reply, (((w', gone), pending), session)) =
      evaluate sandbox addition (((0, []), []), none) in
    let opened = (sandbox.opens (execution_of addition) (((0, []), []), none)).1.1 in
    (pending ≡ [])
    × ((addition.problem.tests ≡ []) ⊎ Removed (compiler_name opened) gone (compiler_name session))
evaluate_cleans_example = evaluate_cleans machine any_image never_done no_transition addition 0

abbrev box : Container
box = record { id = text "judge-0102"; cgroup = text "/sys/fs/cgroup/box" }

abbrev threes : Outcome
threes = record {
  output = text "3";
  exit_code = pos 0;
  runtime_ms = 0;
  memory_kb = 2;
  timed_out = false;
  oom = false;
  output_limited = false;
}

execute_sound_example :
    (take 14 (stream (stderr_of printed.chunks)) ≡ marker)
    × (printed.parent_done ≡ false)
    × (length threes.output ≤ output_limit)
    × ((threes.timed_out && threes.output_limited) ≡ false)
unfolding execute judged feed_all feed measured with_exit metrics kilobytes kill_lines kill_line
    pure lift lift_option ◌>>=◌ has_prefix split scan_digits parse_int fields space_width
    new_launch_clock start_time forward Launch.write new_output_budget limited output Output.write
    bytes_eq
execute_sound_example =
    execute_sound machine false box 1000000000 (text "1 2") (text "/work/run" ∷ []) 1 threes refl

cgroup_path-IsPlain_example :
    (has_prefix cgroup_root (text "/sys/fs/cgroup/box") ≡ true)
    × IsPlain (text "/sys/fs/cgroup/box")
unfolding cgroup_path clean clean_from rooted split has_prefix bytes_eq
cgroup_path-IsPlain_example =
    cgroup_path-IsPlain (text "1:cpu:/" ∷ text "0::/a/../box" ∷ []) (text "/sys/fs/cgroup/box") refl
