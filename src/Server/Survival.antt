-- ===== src/Server/Survival.antt =====
-- A message ends in no std::terminate, unless it changes the process mode while the server runs.
use cherupi_v4l.Processor.Lifecycle.{reset_frames_saved_counts}
use cherupi_v4l.Base.{
  Bool, Bool-cases, Option, String, [], ap, arith, false, inl, inr, none, refl, some, true, ◌∷◌,
  ◌≡◌, ◌≢◌,
}
use cherupi_v4l.Command.{
  CommandKind, discover, get_focus_fom_region, get_frame_duration_limits, get_lens_position_limits,
  get_state, is_command_allowed, is_command_permitted, reset_frame_counts, set_header_only,
  set_process_mode, start_cameras, start_stream, stop_cameras, stop_stream, trigger_capture,
  unconfigure,
}
use cherupi_v4l.Command.Json.{Json}
use cherupi_v4l.Processor.Threads.{arm_trigger-IsSameThread}
use cherupi_v4l.Server.Cameras.{
  arm_for, configure_with, handle_configure, handle_discover, handle_get_state,
  handle_reset_frame_counts, handle_trigger_capture, handle_unconfigure, requested_camera,
  requested_skip, trigger_targets,
}
use cherupi_v4l.Server.Sessions.{IsAlive}
use cherupi_v4l.Server.State.{
  Outputs, Server, Surroundings, client_of, error_reply, forbidden_reply, with_client,
}
use cherupi_v4l.Types.{ClientRole, commander, running}
use cherupi_v4l.Server.Controls.{
  handle_get_focus_fom_region, handle_get_frame_duration_limits, handle_get_lens_position_limits,
  handle_set_exposure_time, handle_set_frame_duration, handle_set_lens_position, set_duration_with,
  set_exposure_with, set_lens_with,
}
use cherupi_v4l.Server.Loop.{dispatch, gate, handle, is_answerable}
use cherupi_v4l.Server.Starting.{
  Survives, handle_set_process_mode-Survives, handle_start_cameras-Survives,
  handle_stop_cameras-Survives, survived,
}
use cherupi_v4l.Server.Streaming.{
  handle_set_header_only-Survives, handle_start_stream-Survives, handle_stop_stream-Survives,
}

-- The commands that start or stop nothing of the processor's and of the streams'.
abbrev is_plain : CommandKind → Bool
is_plain set_process_mode = false
is_plain start_cameras = false
is_plain stop_cameras = false
is_plain start_stream = false
is_plain stop_stream = false
is_plain set_header_only = false
is_plain kind = true

module _ {J : Json} where
  open J use {Value, Double}

  handle-some :
      (w : Surroundings J) (role : ClientRole) (kind : CommandKind) (m : Value) (s : Server J)
      → is_plain kind ≡ true
      → handle J w role kind m s ≢ none
  unfolding handle handle_discover handle_get_state handle_configure configure_with
      handle_unconfigure handle_trigger_capture arm_for handle_reset_frame_counts
      handle_set_lens_position set_lens_with handle_set_exposure_time set_exposure_with
      handle_set_frame_duration set_duration_with handle_get_frame_duration_limits
      handle_get_lens_position_limits handle_get_focus_fom_region
  handle-some w role discover m s p = ground arith
  handle-some w role get_state m s p = ground arith
  handle-some w role CommandKind.configure m s p = ground arith
  handle-some w role unconfigure m s p = ground arith
  handle-some w role trigger_capture m s p = ground arith
  handle-some w role reset_frame_counts m s p = ground arith
  handle-some w role set_header_only m s p = cc
  handle-some w role CommandKind.set_lens_position m s p = ground arith
  handle-some w role CommandKind.set_exposure_time m s p = ground arith
  handle-some w role CommandKind.set_frame_duration m s p = ground arith
  handle-some w role get_frame_duration_limits m s p = ground arith
  handle-some w role get_lens_position_limits m s p = ground arith
  handle-some w role get_focus_fom_region m s p = ground arith
  handle-some w role set_process_mode m s p = cc
  handle-some w role start_cameras m s p = cc
  handle-some w role stop_cameras m s p = cc
  handle-some w role start_stream m s p = cc
  handle-some w role stop_stream m s p = cc

  handle-IsAlive :
      (w : Surroundings J) (role : ClientRole) (kind : CommandKind) (m : Value) (s : Server J)
      (r : Server J × Outputs J)
      → is_plain kind ≡ true
      → IsAlive s
      → handle J w role kind m s ≡ some r
      → IsAlive r.0
  unfolding handle handle_discover handle_get_state handle_configure configure_with
      handle_unconfigure handle_trigger_capture arm_for handle_reset_frame_counts
      handle_set_lens_position set_lens_with handle_set_exposure_time set_exposure_with
      handle_set_frame_duration set_duration_with handle_get_frame_duration_limits
      handle_get_lens_position_limits handle_get_focus_fom_region is_command_allowed with_client
      client_of reset_frames_saved_counts
  handle-IsAlive w role discover m s r p v h = ground arith
  handle-IsAlive w role get_state m s r p v h = ground arith
  handle-IsAlive w role CommandKind.configure m s r p v h = ground arith
  handle-IsAlive w role unconfigure m s r p v h = ground arith
  handle-IsAlive w role trigger_capture m s r p v h = ground (
    arith,
    arm_trigger-IsSameThread s.processor (trigger_targets J (requested_camera J m) s.cameras)
        (requested_skip J m s.processor.config.trigger_skip_frames),
  )
  handle-IsAlive w role reset_frame_counts m s r p v h = ground arith
  handle-IsAlive w role set_header_only m s r p v h = cc
  handle-IsAlive w role CommandKind.set_lens_position m s r p v h = ground arith
  handle-IsAlive w role CommandKind.set_exposure_time m s r p v h = ground arith
  handle-IsAlive w role CommandKind.set_frame_duration m s r p v h = ground arith
  handle-IsAlive w role get_frame_duration_limits m s r p v h = ground arith
  handle-IsAlive w role get_lens_position_limits m s r p v h = ground arith
  handle-IsAlive w role get_focus_fom_region m s r p v h = ground arith
  handle-IsAlive w role set_process_mode m s r p v h = cc
  handle-IsAlive w role start_cameras m s r p v h = cc
  handle-IsAlive w role stop_cameras m s r p v h = cc
  handle-IsAlive w role start_stream m s r p v h = cc
  handle-IsAlive w role stop_stream m s r p v h = cc

  handle-Survives :
      (w : Surroundings J) (role : ClientRole) (kind : CommandKind) (m : Value) (s : Server J)
      → (kind ≡ set_process_mode → s.system_state ≢ running)
      → IsAlive s
      → Survives (handle J w role kind m s)
  unfolding handle
  handle-Survives w role set_process_mode m s n v =
      handle_set_process_mode-Survives w role m s (n refl) v
  handle-Survives w role start_cameras m s n v = handle_start_cameras-Survives w role s v
  handle-Survives w role stop_cameras m s n v = handle_stop_cameras-Survives w role s v
  handle-Survives w role start_stream m s n v = handle_start_stream-Survives role m s v
  handle-Survives w role stop_stream m s n v = handle_stop_stream-Survives role m s v
  handle-Survives w role set_header_only m s n v = handle_set_header_only-Survives role m s v
  handle-Survives w role kind m s n v =
      survived (handle J w role kind m s) (handle-some w role kind m s refl)
        (λ r h. handle-IsAlive w role kind m s r refl v h)

  pub dispatch-Survives :
      (w : Surroundings J) (role : ClientRole) (raw : String) (o : Option (CommandKind × Value))
      (s : Server J)
      → is_answerable J w raw ≡ true
      → (elim o [ none ↦ none | some (kind, m) ↦ some kind ] ≡ some set_process_mode
          → role ≡ commander
          → s.system_state ≢ running)
      → IsAlive s
      → Survives (dispatch J w role raw o s)
  unfolding dispatch gate Survives is_command_permitted
  dispatch-Survives w role raw none s a n v = rw a ((s, (role, error_reply) ∷ []), refl, v)
  dispatch-Survives w role raw (some (kind, m)) s a n v =
      elim (Bool-cases (is_command_permitted kind role)) [
        | inl t ↦
            rw t (handle-Survives w role kind m s (λ e. n (ap some e) (ground (arith, t, e))) v)
        | inr f ↦ rw f ((s, (role, forbidden_reply) ∷ []), refl, v)
      ]
