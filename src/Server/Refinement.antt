-- ===== src/Server/Refinement.antt =====
-- The life cycle of the server as an abstract machine, which the handlers implement.
-- The four commands of the commander, and nothing else, change the state.
use cherupi_v4l.Base.{Bool, Option, String, arith, false, inl, none, some, true, ◌≡◌, ◌⊎◌}
use cherupi_v4l.Command.{
  CommandKind, discover, get_focus_fom_region, get_frame_duration_limits, get_lens_position_limits,
  get_state, is_command_allowed, is_command_permitted, reset_frame_counts, set_header_only,
  set_process_mode, start_cameras, start_stream, stop_cameras, stop_stream, trigger_capture,
  unconfigure,
}
use cherupi_v4l.Command.Json.{Json}
use cherupi_v4l.Server.Loop.{dispatch, gate, handle, on_message, parse_command}
use cherupi_v4l.Server.State.{Outputs, Server, Surroundings, with_client}
use cherupi_v4l.Types.{CameraState, ClientRole, commander, configured, idle, observer, running}
use cherupi_v4l.Server.Cameras.{
  arm_for, configure_with, handle_configure, handle_discover, handle_get_state,
  handle_reset_frame_counts, handle_set_process_mode, handle_start_cameras, handle_stop_cameras,
  handle_trigger_capture, handle_unconfigure, start_with,
}
use cherupi_v4l.Server.Controls.{
  handle_get_focus_fom_region, handle_get_frame_duration_limits, handle_get_lens_position_limits,
  handle_set_exposure_time, handle_set_frame_duration, handle_set_lens_position, set_duration_with,
  set_exposure_with, set_lens_with,
}
use cherupi_v4l.Server.Streams.{
  handle_set_header_only, handle_start_stream, handle_stop_stream, start_stream_with,
}
use cherupi_v4l.Server.Events.{
  ServerEvent, closed, completes, drained, opened, received, serve, ticks, works,
}
use cherupi_v4l.Server.Callbacks.{
  on_close-IsQuiet, on_complete-IsQuiet, on_open-IsQuiet, on_tick-IsQuiet,
}
use cherupi_v4l.Server.Privilege.{on_message-IsUntouched}

unfoldable pub Follows : Option CommandKind → CameraState → CameraState → Type 0
Follows k before after =
    (after ≡ before)
    ⊎ ((k ≡ some CommandKind.configure) × (before ≡ idle) × (after ≡ configured))
    ⊎ ((k ≡ some unconfigure) × (before ≡ configured) × (after ≡ idle))
    ⊎ ((k ≡ some start_cameras) × (before ≡ configured) × (after ≡ running))
    ⊎ ((k ≡ some stop_cameras) × (before ≡ running) × (after ≡ configured))

module _ {J : Json} where
  open J use {Value, Double}

  handle-Follows :
      (w : Surroundings J) (role : ClientRole) (kind : CommandKind) (m : Value) (s : Server J)
      (r : Server J × Outputs J)
      → handle J w role kind m s ≡ some r
      → Follows (some kind) s.system_state r.0.system_state
  unfolding handle Follows handle_discover handle_get_state handle_configure configure_with
      handle_unconfigure handle_set_process_mode handle_trigger_capture arm_for handle_start_cameras
      start_with handle_start_stream start_stream_with handle_stop_stream handle_stop_cameras
      handle_reset_frame_counts handle_set_header_only handle_set_lens_position set_lens_with
      handle_set_exposure_time set_exposure_with handle_set_frame_duration set_duration_with
      handle_get_frame_duration_limits handle_get_lens_position_limits handle_get_focus_fom_region
      with_client is_command_allowed
  handle-Follows w role discover m s r h = ground arith
  handle-Follows w role get_state m s r h = ground arith
  handle-Follows w role CommandKind.configure m s r h = ground arith
  handle-Follows w role unconfigure m s r h = ground arith
  handle-Follows w role set_process_mode m s r h = ground arith
  handle-Follows w role trigger_capture m s r h = ground arith
  handle-Follows w role start_cameras m s r h = ground arith
  handle-Follows w role start_stream m s r h = ground arith
  handle-Follows w role stop_stream m s r h = ground arith
  handle-Follows w role stop_cameras m s r h = ground arith
  handle-Follows w role reset_frame_counts m s r h = ground arith
  handle-Follows w role set_header_only m s r h = ground arith
  handle-Follows w role CommandKind.set_lens_position m s r h = ground arith
  handle-Follows w role CommandKind.set_exposure_time m s r h = ground arith
  handle-Follows w role CommandKind.set_frame_duration m s r h = ground arith
  handle-Follows w role get_frame_duration_limits m s r h = ground arith
  handle-Follows w role get_lens_position_limits m s r h = ground arith
  handle-Follows w role get_focus_fom_region m s r h = ground arith

  -- The command that an event carries: the kind of a commander's message that parses.
  unfoldable pub commanded : ServerEvent → Server J → Option CommandKind
  commanded (received commander true raw) s = elim (parse_command J raw) [
    | none ↦ none
    | some (kind, m) ↦ some kind
  ]
  commanded e s = none

  dispatch-Follows :
      (w : Surroundings J) (raw : String) (o : Option (CommandKind × Value)) (s : Server J)
      (r : Server J × Outputs J)
      → dispatch J w commander raw o s ≡ some r
      → Follows
          (elim o [ none ↦ none | some (kind, m) ↦ some kind ])
          s.system_state
          r.0.system_state
  unfolding dispatch gate Follows is_command_permitted
  dispatch-Follows w raw none s r h = ground arith
  dispatch-Follows w raw (some (kind, m)) s r h = handle-Follows w commander kind m s r h

  received-Follows :
      (w : Surroundings J) (role : ClientRole) (is_text : Bool) (raw : String) (s : Server J)
      (r : Server J × Outputs J)
      → on_message J w role is_text raw s ≡ some r
      → Follows (commanded (received role is_text raw) s) s.system_state r.0.system_state
  unfolding commanded Follows on_message
  received-Follows w observer is_text raw s r h =
      inl (on_message-IsUntouched w is_text raw s r h).same_state
  received-Follows w commander true raw s r h = dispatch-Follows w raw (parse_command J raw) s r h
  received-Follows w commander false raw s r h = ground arith

  -- Whatever event reaches the server and whatever libcamera answers: where it does not terminate
  -- the server, the state of the system either stays or moves as the abstract machine does on the
  -- command of the event: on `configure` from idle to configured, on `unconfigure` back, on
  -- `start_cameras` from configured to running, on `stop_cameras` back. A message of the observer
  -- carries no command.
  pub serve-Follows :
      (w : Surroundings J) (e : ServerEvent) (s : Server J) (r : Server J × Outputs J)
      → serve J w e s ≡ some r
      → Follows (commanded e s) s.system_state r.0.system_state
  unfolding serve Follows commanded with_client
  serve-Follows w (received role is_text raw) s r h =
      ground (arith, received-Follows w role is_text raw s r)
  serve-Follows w (opened role) s r h = inl (on_open-IsQuiet role s r h).same_state
  serve-Follows w (closed role) s r h = ground (arith, on_close-IsQuiet role s r)
  serve-Follows w (drained role buffered now) s r h = ground arith
  serve-Follows w (completes i now a) s r h = ground (arith, on_complete-IsQuiet i now a s)
  serve-Follows w (ticks now) s r h = inl (on_tick-IsQuiet now s r h).same_state
  serve-Follows w (works e) s r h = ground arith
