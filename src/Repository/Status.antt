-- ===== src/Repository/Status.antt =====
-- cpp/src/repository.h: `RepoStatus` and its name.
use pg_laswell.Base.{Bool, true, false, String}

pub data RepoStatus : Type 0 where
  pending applied modified in_progress failed unreadable wrong_environment : RepoStatus
  wrong_database held_for_release held_for_epoch retired_epoch unknown_connection : RepoStatus

unfoldable pub to_string : RepoStatus → String
to_string pending = "pending"
to_string applied = "applied"
to_string modified = "modified_after_apply"
to_string in_progress = "in_progress"
to_string failed = "failed"
to_string unreadable = "unreadable"
to_string wrong_environment = "wrong_environment"
to_string wrong_database = "wrong_database"
to_string held_for_release = "held_for_release"
to_string held_for_epoch = "held_for_epoch"
to_string retired_epoch = "retired_epoch"
to_string unknown_connection = "unknown_connection"

-- `status == kPending || status == kFailed`, the states that would run.
abbrev pub is_runnable : RepoStatus → Bool
is_runnable pending = true
is_runnable failed = true
is_runnable _ = false

abbrev pub is_applied : RepoStatus → Bool
is_applied applied = true
is_applied _ = false

abbrev pub is_unreadable : RepoStatus → Bool
is_unreadable unreadable = true
is_unreadable _ = false

abbrev pub is_modified : RepoStatus → Bool
is_modified modified = true
is_modified _ = false
