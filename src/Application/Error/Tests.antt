-- ===== src/Application/Error/Tests.antt =====
-- Failures of concrete errors.
use time_tracker.Prelude.{◌≡◌, refl, []}
use time_tracker.Prelude.Text.{codes}
use time_tracker.Application.Repository.{worklog_not_found, backend}
use time_tracker.Application.Error.{ApplicationError}
use time_tracker.Application.Error.Failure.{Display, failure}
use time_tracker.Application.Error.Failure.Redaction.{failure-eq_of_redacted}

abbrev pub silent : Display
silent = record { tracking = λ e. []; correction = λ e. []; movement = λ e. [] }

-- Two failed moves over different worklogs and backends.
abbrev moved : ApplicationError
moved = ApplicationError.worklog_move_recovery (worklog_not_found 3) (backend (codes "disk full"))

abbrev other : ApplicationError
other = ApplicationError.worklog_move_recovery (worklog_not_found 4) (backend (codes "secret path"))

redacted_example : failure silent moved ≡ failure silent other
redacted_example = failure-eq_of_redacted silent moved other refl
