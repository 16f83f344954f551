-- ===== src/Submissions.antt =====
-- internal/submissions/state.go: the lifecycle of a submission and of a judging attempt.
pub mod Lifecycle
use online_coding_judge.Prelude.{Bool, true, false, ◌||◌}

-- The values that the status columns allow.
pub data Status : Type 0 where
  queued claimed compiling running final failed_internal : Status

-- `==` on status values.
unfoldable pub is_same : Status → Status → Bool
is_same queued queued = true
is_same claimed claimed = true
is_same compiling compiling = true
is_same running running = true
is_same final final = true
is_same failed_internal failed_internal = true
is_same _ _ = false

unfoldable pub can_transition : Status → Status → Bool
unfolding is_same
can_transition queued to = is_same to claimed || is_same to failed_internal
can_transition claimed to =
    is_same to compiling || (is_same to running || is_same to failed_internal)
can_transition compiling to = is_same to running || (is_same to final || is_same to failed_internal)
can_transition running to = is_same to final || is_same to failed_internal
can_transition _ to = false
