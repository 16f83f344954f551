-- ===== src/Tests/Streams.antt =====
-- Output streams, the launch marker and the comparison of outputs at concrete bytes.
use online_coding_judge.Prelude.{
  ℕ, List, [], ◌∷◌, ◌++◌, Bytes, text, Bool, true, false, ◌≡◌, ◌↔◌, take, drop, is_some,
  if◌then◌else◌, arith,
}
use online_coding_judge.Judge.Output.{OutputBudget, new_output_budget, output}
use online_coding_judge.Judge.Output
use online_coding_judge.Judge.Output.Accounting.{
  total, IsAccounted, write_all-IsAccounted, output-write_all,
}
use online_coding_judge.Judge.Launch.{LaunchClock, marker, new_launch_clock, start_time}
use online_coding_judge.Judge.Launch
use online_coding_judge.Judge.Launch.Marker.{stream, deadline, write_all_exactly}
use online_coding_judge.Judge.Compare.{fields, compare}
use online_coding_judge.Judge.Compare.Fields.{compare_iff}

-- Eight bytes on the two streams, more than a budget of five.
abbrev chunks : List (Bool × Bytes)
chunks = (true, text "abc") ∷ (false, text "de") ∷ (true, text "fgh") ∷ []

write_all-IsAccounted_example :
    IsAccounted 5 (total chunks) (Output.write_all (new_output_budget 5) chunks)
write_all-IsAccounted_example = write_all-IsAccounted 5 chunks

output-write_all_example : output (Output.write_all (new_output_budget 8) chunks) ≡ text "abcfgh"
output-write_all_example = output-write_all 8 chunks (omega arith)

abbrev five_bytes : OutputBudget
five_bytes = new_output_budget 5

-- The marker in two chunks, and an error message after it.
abbrev launched : List (ℕ × Bytes)
launched = (3, text "JUDGE_") ∷ (4, text "STARTED" ++ (10 ∷ text "oops")) ∷ []

write_all_exactly_example :
    let c = (Launch.write_all (new_launch_clock 0 1000 five_bytes) launched).1 in
    ((is_some (start_time c) ≡ true) ↔ (take 14 (stream launched) ≡ marker))
    × (c.stderr ≡ (
        if is_some (start_time c)
        then (Output.write false five_bytes (drop 14 (stream launched))).1
        else five_bytes))
    × (c.fires_at ≡ deadline 0 1000 (start_time c))
write_all_exactly_example = write_all_exactly 0 1000 five_bytes launched

compare_iff_example :
    (compare (text "1  2 ") (text "1 2") ≡ true) ↔ (fields (text "1  2 ") ≡ fields (text "1 2"))
compare_iff_example = compare_iff (text "1  2 ") (text "1 2")
