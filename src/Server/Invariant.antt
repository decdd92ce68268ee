-- ===== src/Server/Invariant.antt =====
-- The phase is kept by whatever reaches the server.
use cherupi_v4l.Base.{List, some, true, ◌≡◌}
use cherupi_v4l.Command.{CommandKind, discover, start_cameras, stop_cameras, unconfigure}
use cherupi_v4l.Command.Json.{Json}
use cherupi_v4l.Server.State.{Outputs, Server, Surroundings}
use cherupi_v4l.Types.{ClientRole}
use cherupi_v4l.Server.Loop.{handle}
use cherupi_v4l.Server.Phase.{IsInPhase, IsQuiet-IsInPhase}
use cherupi_v4l.Server.Transitions.{
  handle_configure-IsInPhase, handle_discover-IsInPhase, handle_start_cameras-IsInPhase,
  handle_stop_cameras-IsInPhase, handle_unconfigure-IsInPhase,
}
use cherupi_v4l.Server.Events.{ServerEvent, serve_all}
use cherupi_v4l.Server.Induction.{changes_phase, serve_all-keeps}

module _ {J : Json} where
  open J use {Value, Double, number, to_float, to_int}

  acts-IsInPhase :
      (w : Surroundings J) (role : ClientRole) (kind : CommandKind) (m : Value) (s : Server J)
      (r : Server J × Outputs J)
      → changes_phase kind ≡ true
      → IsInPhase s
      → handle J w role kind m s ≡ some r
      → IsInPhase r.0
  unfolding handle
  acts-IsInPhase w role discover m s r c v h = handle_discover-IsInPhase w role m s r v h
  acts-IsInPhase w role CommandKind.configure m s r c v h =
      handle_configure-IsInPhase w role m s r v h
  acts-IsInPhase w role unconfigure m s r c v h = handle_unconfigure-IsInPhase role s r v h
  acts-IsInPhase w role start_cameras m s r c v h = handle_start_cameras-IsInPhase w role s r v h
  acts-IsInPhase w role stop_cameras m s r c v h = handle_stop_cameras-IsInPhase w role s r v h
  acts-IsInPhase w role kind m s r c v h = cc

  -- Whatever events reach the server, in whatever order and with whatever answers of libcamera: from
  -- a server that is in its phase, the server after the events, where none of them terminated it, is
  -- in its phase. That is, its state is never `error`; while it is idle, no camera is running; while
  -- it is configured or running, there is a camera, and every camera is in that state; and the
  -- watchdog runs exactly while the server is running.
  pub serve_all-IsInPhase :
      (w : Surroundings J) (es : List ServerEvent) (s q : Server J)
      → IsInPhase s
      → serve_all J w es s ≡ some q
      → IsInPhase q
  serve_all-IsInPhase w es s q v h =
      serve_all-keeps IsInPhase IsQuiet-IsInPhase acts-IsInPhase w es s q v h
