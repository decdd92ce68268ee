-- ===== src/Server/Wedge.antt =====
-- A configure that fails on a later camera leaves the earlier ones configured.
use cherupi_v4l.Base.{Bool, List, Option, [], arith, false, refl, some, true, ℕ, ◌∷◌, ◌≡◌}
use cherupi_v4l.Base.Result.{Result, err, ok}
use cherupi_v4l.Camera.{Camera}
use cherupi_v4l.Camera.Setup.{SetupAnswers, fresh_camera}
use cherupi_v4l.Command.{
  CommandKind, discover, is_command_allowed, start_cameras, stop_cameras, unconfigure,
}
use cherupi_v4l.Command.Config.{CameraConfig, build_camera_config, build_sensor_filter}
use cherupi_v4l.Command.Json.{Json}
use cherupi_v4l.Manager.Discover.{discover_cameras}
use cherupi_v4l.Manager.Fleet.{configure_all}
use cherupi_v4l.Manager.Phase.{states-any}
use cherupi_v4l.Manager.Uniform.{any_configured, configure_each-stuck}
use cherupi_v4l.Processor.Lifecycle.{codes}
use cherupi_v4l.Server.Cameras.{
  configure_with, handle_configure, handle_discover, handle_start_cameras, handle_stop_cameras,
  handle_unconfigure, params_of,
}
use cherupi_v4l.Server.Events.{ServerEvent, serve_all}
use cherupi_v4l.Server.Induction.{changes_phase, serve_all-keeps}
use cherupi_v4l.Server.Loop.{handle}
use cherupi_v4l.Server.Phase.{IsQuiet}
use cherupi_v4l.Server.State.{Outputs, Server, Surroundings, error_reply, reply}
use cherupi_v4l.Types.{ClientRole, idle}

module _ {D : Type 0} where
  configure_all-stuck :
      (cfg : CameraConfig) (answers : ℕ → SetupAnswers) (cs : List (Camera D))
      → any_configured cs ≡ true
      → ((configure_all cfg answers cs).1 ≡ false)
        × (any_configured (configure_all cfg answers cs).0 ≡ true)
  unfolding configure_all
  configure_all-stuck cfg answers cs h = ground (arith, configure_each-stuck cfg answers 0 cs h)

  discover_cameras-configured :
      (up : Bool) (sensor : List ℕ) (models : List (Option (List ℕ))) (cs : List (Camera D))
      → any_configured cs ≡ true
      → discover_cameras fresh_camera up sensor models cs ≡ cs
  unfolding discover_cameras any_configured
  discover_cameras-configured up sensor models [] h = cc
  discover_cameras-configured up sensor models (c ∷ cs) h = refl

module _ {J : Json} where
  open J use {Value, Double}

  -- The system is idle, but a camera is configured.
  pub record IsWedged (s : Server J) : Type 0 where
    pub still_idle : s.system_state ≡ idle
    pub has_configured : any_configured s.cameras ≡ true

  IsQuiet-IsWedged : (s s' : Server J) → IsQuiet s s' → IsWedged s → IsWedged s'
  IsQuiet-IsWedged s s' q v = ground (arith, q, v, states-any s.cameras s'.cameras q.same_cameras)

  built-IsWedged :
      (w : Surroundings J) (role : ClientRole) (built : Result CameraConfig) (s : Server J)
      (r : Server J × Outputs J)
      → IsWedged s
      → elim built [ err e ↦ reply J role error_reply s | ok cfg ↦ configure_with J w role cfg s ]
        ≡ some r
      → IsWedged r.0
  unfolding configure_with
  built-IsWedged w role (err e) s r v h = ground arith
  built-IsWedged w role (ok cfg) s r v h =
      ground (arith, configure_all-stuck cfg w.sets_up s.cameras)

  acts-IsWedged :
      (w : Surroundings J) (role : ClientRole) (kind : CommandKind) (m : Value) (s : Server J)
      (r : Server J × Outputs J)
      → changes_phase kind ≡ true
      → IsWedged s
      → handle J w role kind m s ≡ some r
      → IsWedged r.0
  unfolding handle handle_discover handle_configure handle_unconfigure handle_start_cameras
      handle_stop_cameras is_command_allowed
  acts-IsWedged w role discover m s r c v h = ground (
    arith,
    discover_cameras-configured w.manager_starts (codes (build_sensor_filter J (params_of J w m)))
        w.models s.cameras v.has_configured,
  )
  acts-IsWedged w role CommandKind.configure m s r c v h =
      ground (arith, built-IsWedged w role (build_camera_config J (params_of J w m)) s r v)
  acts-IsWedged w role unconfigure m s r c v h = ground arith
  acts-IsWedged w role start_cameras m s r c v h = ground arith
  acts-IsWedged w role stop_cameras m s r c v h = ground arith
  acts-IsWedged w role kind m s r c v h = cc

  -- Once a configure has failed after it configured a camera, so that the system is idle and a camera
  -- is configured, no sequence of events leads out of this: the system stays idle, with a configured
  -- camera, whatever the clients send and whatever libcamera answers, until the server ends.
  pub serve_all-IsWedged :
      (w : Surroundings J) (es : List ServerEvent) (s q : Server J)
      → IsWedged s
      → serve_all J w es s ≡ some q
      → IsWedged q
  serve_all-IsWedged w es s q v h =
      serve_all-keeps IsWedged IsQuiet-IsWedged acts-IsWedged w es s q v h
