-- ===== src/Processor/Backlog.antt =====
-- reserveBacklog and releaseBacklog of src/frame_processor.cpp. Each compare-exchange loop is one
-- atomic step: it succeeds on the value that it read.
use cherupi_v4l.Base.{Bool, false, if◌then◌else◌, leb, ltb, true, ℕ, ◌+◌, ◌-◌, ◌==◌}
use cherupi_v4l.Processor.{Processor}

module _ {D : Type 0} where
  unfoldable pub reserve_backlog : Processor D → ℕ → Processor D × Bool
  reserve_backlog p bytes =
      if p.backlog_budget == 0
      then (p, true)
      else if leb (p.backlog_bytes + bytes) p.backlog_budget
      then (record p { backlog_bytes = p.backlog_bytes + bytes }, true)
      else (
        record p { frames_dropped_backlog = p.frames_dropped_backlog + 1; backlog_warned = true },
        false,
      )

  unfoldable pub release_backlog : Processor D → ℕ → Processor D
  release_backlog p bytes = if bytes == 0 then p else record p {
    backlog_bytes = if ltb bytes p.backlog_bytes then p.backlog_bytes - bytes else 0;
  }
