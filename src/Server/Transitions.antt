-- ===== src/Server/Transitions.antt =====
-- The handlers that change the phase: configure, unconfigure, start_cameras, stop_cameras, discover.
use cherupi_v4l.Base.{arith, some, ◌≡◌}
use cherupi_v4l.Base.Result.{Result, err, ok}
use cherupi_v4l.Command.{is_command_allowed}
use cherupi_v4l.Command.Config.{CameraConfig, build_camera_config, build_sensor_filter}
use cherupi_v4l.Command.Json.{Json}
use cherupi_v4l.Manager.Phase.{
  Ready, configure_all-Ready, discover_cameras-any_running, discover_cameras-same, start_all-Ready,
  stop_all-Ready, unconfigure_all-Ready,
}
use cherupi_v4l.Processor.Lifecycle.{codes}
use cherupi_v4l.Server.Cameras.{
  configure_with, handle_configure, handle_discover, handle_start_cameras, handle_stop_cameras,
  handle_unconfigure, params_of, start_with,
}
use cherupi_v4l.Server.State.{Outputs, Server, Surroundings, error_reply, reply}
use cherupi_v4l.Types.{ClientRole, idle}
use cherupi_v4l.Server.Phase.{IsInPhase}

module _ {J : Json} where
  open J use {Value, Double, number, to_float, to_int}

  configure_with-IsInPhase :
      (w : Surroundings J) (role : ClientRole) (cfg : CameraConfig) (s : Server J)
      (r : Server J × Outputs J)
      → IsInPhase s
      → s.system_state ≡ idle
      → configure_with J w role cfg s ≡ some r
      → IsInPhase r.0
  unfolding configure_with
  configure_with-IsInPhase w role cfg s r v i h =
      ground (arith, configure_all-Ready cfg w.sets_up s.cameras)

  built-IsInPhase :
      (w : Surroundings J) (role : ClientRole) (built : Result CameraConfig) (s : Server J)
      (r : Server J × Outputs J)
      → IsInPhase s
      → s.system_state ≡ idle
      → elim built [ err e ↦ reply J role error_reply s | ok cfg ↦ configure_with J w role cfg s ]
        ≡ some r
      → IsInPhase r.0
  built-IsInPhase w role (err e) s r v i h = ground arith
  built-IsInPhase w role (ok cfg) s r v i h = configure_with-IsInPhase w role cfg s r v i h

  pub handle_configure-IsInPhase :
      (w : Surroundings J) (role : ClientRole) (m : Value) (s : Server J) (r : Server J × Outputs J)
      → IsInPhase s
      → handle_configure J w role m s ≡ some r
      → IsInPhase r.0
  unfolding handle_configure is_command_allowed
  handle_configure-IsInPhase w role m s r v h =
      ground (arith, built-IsInPhase w role (build_camera_config J (params_of J w m)) s r v)

  pub handle_unconfigure-IsInPhase :
      (role : ClientRole) (s : Server J) (r : Server J × Outputs J)
      → IsInPhase s
      → handle_unconfigure J role s ≡ some r
      → IsInPhase r.0
  unfolding handle_unconfigure is_command_allowed
  handle_unconfigure-IsInPhase role s r v h = ground (arith, unconfigure_all-Ready s.cameras)

  pub handle_start_cameras-IsInPhase :
      (w : Surroundings J) (role : ClientRole) (s : Server J) (r : Server J × Outputs J)
      → IsInPhase s
      → handle_start_cameras J w role s ≡ some r
      → IsInPhase r.0
  unfolding handle_start_cameras start_with is_command_allowed
  handle_start_cameras-IsInPhase w role s r v h =
      ground (arith, start_all-Ready w.start_times w.start_answers s.cameras)

  pub handle_stop_cameras-IsInPhase :
      (w : Surroundings J) (role : ClientRole) (s : Server J) (r : Server J × Outputs J)
      → IsInPhase s
      → handle_stop_cameras J w role s ≡ some r
      → IsInPhase r.0
  unfolding handle_stop_cameras is_command_allowed
  handle_stop_cameras-IsInPhase w role s r v h = ground (arith, stop_all-Ready s.cameras)

  pub handle_discover-IsInPhase :
      (w : Surroundings J) (role : ClientRole) (m : Value) (s : Server J) (r : Server J × Outputs J)
      → IsInPhase s
      → handle_discover J w role m s ≡ some r
      → IsInPhase r.0
  unfolding handle_discover Ready
  handle_discover-IsInPhase w role m s r v h =
      let sensor = codes (build_sensor_filter J (params_of J w m)) in
      ground (
        arith,
        discover_cameras-any_running w.manager_starts sensor w.models s.cameras,
        discover_cameras-same w.manager_starts sensor w.models s.cameras,
      )
