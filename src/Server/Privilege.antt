-- ===== src/Server/Privilege.antt =====
-- What the observer's messages cannot do.
use cherupi_v4l.Base.{Bool, Option, String, arith, false, none, some, true, ◌≡◌}
use cherupi_v4l.Command.{
  CommandKind, discover, get_focus_fom_region, get_frame_duration_limits, get_lens_position_limits,
  get_state, is_command_permitted, reset_frame_counts, set_header_only, set_process_mode,
  start_cameras, start_stream, stop_cameras, stop_stream, trigger_capture, unconfigure,
}
use cherupi_v4l.Command.Config.{build_sensor_filter}
use cherupi_v4l.Command.Json.{Json}
use cherupi_v4l.Manager.Phase.{discover_cameras-same}
use cherupi_v4l.Processor.Lifecycle.{codes}
use cherupi_v4l.Processor.OutputDir.{is_nil}
use cherupi_v4l.Server.Cameras.{handle_discover, handle_get_state, params_of}
use cherupi_v4l.Server.Controls.{
  handle_get_focus_fom_region, handle_get_frame_duration_limits, handle_get_lens_position_limits,
}
use cherupi_v4l.Server.Loop.{dispatch, gate, handle, on_message, parse_command}
use cherupi_v4l.Server.State.{Outputs, Server, Surroundings, with_client}
use cherupi_v4l.Server.Streams.{
  handle_set_header_only, handle_start_stream, handle_stop_stream, start_stream_with,
}
use cherupi_v4l.Types.{observer}

module _ {J : Json} where
  open J use {Value, Double}

  -- Nothing but the observer's own connection differs, and cameras only where there were none.
  pub record IsUntouched (s s' : Server J) : Type 0 where
    pub same_state : s'.system_state ≡ s.system_state
    pub same_cameras : is_nil s.cameras ≡ false → s'.cameras ≡ s.cameras
    pub same_processor : s'.processor ≡ s.processor
    pub same_callback : s'.callback_set ≡ s.callback_set
    pub same_watchdog : s'.watchdog_running ≡ s.watchdog_running
    pub same_commander : s'.commander_client ≡ s.commander_client

  handle-IsUntouched :
      (w : Surroundings J) (kind : CommandKind) (m : Value) (s : Server J)
      (r : Server J × Outputs J)
      → is_command_permitted kind observer ≡ true
      → handle J w observer kind m s ≡ some r
      → IsUntouched s r.0
  unfolding handle handle_discover handle_get_state handle_start_stream start_stream_with
      handle_stop_stream handle_set_header_only handle_get_frame_duration_limits
      handle_get_lens_position_limits handle_get_focus_fom_region with_client is_command_permitted
  handle-IsUntouched w discover m s r p h = ground (
    arith,
    discover_cameras-same w.manager_starts (codes (build_sensor_filter J (params_of J w m)))
        w.models s.cameras,
  )
  handle-IsUntouched w get_state m s r p h = ground arith
  handle-IsUntouched w CommandKind.configure m s r p h = cc
  handle-IsUntouched w unconfigure m s r p h = cc
  handle-IsUntouched w set_process_mode m s r p h = cc
  handle-IsUntouched w trigger_capture m s r p h = cc
  handle-IsUntouched w start_cameras m s r p h = cc
  handle-IsUntouched w start_stream m s r p h = ground arith
  handle-IsUntouched w stop_stream m s r p h = ground arith
  handle-IsUntouched w stop_cameras m s r p h = cc
  handle-IsUntouched w reset_frame_counts m s r p h = cc
  handle-IsUntouched w set_header_only m s r p h = ground arith
  handle-IsUntouched w CommandKind.set_lens_position m s r p h = cc
  handle-IsUntouched w CommandKind.set_exposure_time m s r p h = cc
  handle-IsUntouched w CommandKind.set_frame_duration m s r p h = cc
  handle-IsUntouched w get_frame_duration_limits m s r p h = ground arith
  handle-IsUntouched w get_lens_position_limits m s r p h = ground arith
  handle-IsUntouched w get_focus_fom_region m s r p h = ground arith

  dispatch-IsUntouched :
      (w : Surroundings J) (raw : String) (o : Option (CommandKind × Value)) (s : Server J)
      (r : Server J × Outputs J)
      → dispatch J w observer raw o s ≡ some r
      → IsUntouched s r.0
  unfolding dispatch gate
  dispatch-IsUntouched w raw none s r h = ground arith
  dispatch-IsUntouched w raw (some (kind, m)) s r h =
      ground (arith, handle-IsUntouched w kind m s r)

  -- Whatever the observer sends, text or not, and whatever the surroundings answer: where it does
  -- not terminate the server, the state of the system, the frame processor, the frame callback, the
  -- watchdog and the commander's connection, with its stream, are as they were, and so are the
  -- cameras once there are any.
  pub on_message-IsUntouched :
      (w : Surroundings J) (is_text : Bool) (raw : String) (s : Server J) (r : Server J × Outputs J)
      → on_message J w observer is_text raw s ≡ some r
      → IsUntouched s r.0
  unfolding on_message
  on_message-IsUntouched w is_text raw s r h =
      ground (arith, dispatch-IsUntouched w raw (parse_command J raw) s r)
