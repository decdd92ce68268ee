-- ===== src/Server/Replies.antt =====
-- Every message is answered.
use cherupi_v4l.Base.{
  Bool, List, Option, String, [], arith, length, none, refl, some, true, ℕ, ◌∷◌, ◌≡◌, ◌⊎◌,
}
use cherupi_v4l.Command.Json.{Json}
use cherupi_v4l.Server.State.{
  Outputs, Server, Surroundings, configure_cause, discovery, duration_limits, error_reply,
  fom_report, forbidden_reply, lens_limits, query, start_cause, state_message, status_reply,
  stop_cause, unconfigure_cause, with_client,
}
use cherupi_v4l.Types.{ClientRole}
use cherupi_v4l.Command.{
  CommandKind, discover, get_focus_fom_region, get_frame_duration_limits, get_lens_position_limits,
  get_state, reset_frame_counts, set_header_only, set_process_mode, start_cameras, start_stream,
  stop_cameras, stop_stream, trigger_capture, unconfigure,
}
use cherupi_v4l.Processor.Trigger.{arm_trigger, has_pending_trigger}
use cherupi_v4l.Server.Cameras.{
  arm_for, configure_with, handle_configure, handle_discover, handle_get_state,
  handle_reset_frame_counts, handle_set_process_mode, handle_start_cameras, handle_stop_cameras,
  handle_trigger_capture, handle_unconfigure, requested_camera, requested_skip, start_with,
  stopped_message, stopped_processor, trigger_targets,
}
use cherupi_v4l.Server.Controls.{
  handle_get_focus_fom_region, handle_get_frame_duration_limits, handle_get_lens_position_limits,
  handle_set_exposure_time, handle_set_frame_duration, handle_set_lens_position, set_duration_with,
  set_exposure_with, set_lens_with,
}
use cherupi_v4l.Server.Loop.{dispatch, gate, handle, on_message, parse_command}
use cherupi_v4l.Server.Streams.{
  handle_set_header_only, handle_start_stream, handle_stop_stream, start_stream_with,
}
use cherupi_v4l.Base.Int.{ℤ}
use cherupi_v4l.Processor.{Processor}
use cherupi_v4l.Server.Answers.{
  IsAnswered, announced-IsAnswered, concluded-IsAnswered, is_push, reply-IsAnswered,
}

arm_trigger-pending :
    {D : Type 0} (p : Processor D) (camera_ids : List ℕ) (skip : ℤ)
    → ((arm_trigger p camera_ids skip).1 ≡ none)
      ⊎ (has_pending_trigger (arm_trigger p camera_ids skip).0 ≡ true)
unfolding arm_trigger has_pending_trigger
arm_trigger-pending p [] skip = ground arith
arm_trigger-pending p (c ∷ cs) skip = ground arith

module _ {J : Json} where
  open J use {Value, Double}

  arm_for-IsAnswered :
      (role : ClientRole) (camera_ids : List ℕ) (skip : ℤ) (s : Server J) (r : Server J × Outputs J)
      → arm_for J role camera_ids skip s ≡ some r
      → IsAnswered role r.0 r.1
  unfolding arm_for IsAnswered is_push with_client
  arm_for-IsAnswered role camera_ids skip s r h = ground (
    arith,
    arm_trigger-pending s.processor camera_ids skip,
    reply-IsAnswered role error_reply r.0 refl,
  )

  handle-IsAnswered :
      (w : Surroundings J) (role : ClientRole) (kind : CommandKind) (m : Value) (s : Server J)
      (r : Server J × Outputs J)
      → handle J w role kind m s ≡ some r
      → IsAnswered role r.0 r.1
  unfolding handle handle_discover handle_get_state handle_configure configure_with
      handle_unconfigure handle_set_process_mode handle_trigger_capture handle_start_cameras
      start_with handle_start_stream start_stream_with handle_stop_stream handle_stop_cameras
      handle_reset_frame_counts handle_set_header_only handle_set_lens_position set_lens_with
      handle_set_exposure_time set_exposure_with handle_set_frame_duration set_duration_with
      handle_get_frame_duration_limits handle_get_lens_position_limits handle_get_focus_fom_region
      is_push stopped_message state_message
  handle-IsAnswered w role discover m s r h =
      ground (arith, reply-IsAnswered role (discovery (length r.0.cameras)) r.0 refl)
  handle-IsAnswered w role get_state m s r h =
      ground (arith, reply-IsAnswered role (state_message J role query s) s refl)
  handle-IsAnswered w role CommandKind.configure m s r h = ground (
    arith,
    reply-IsAnswered role error_reply r.0 refl,
    announced-IsAnswered role status_reply configure_cause r.0 refl,
  )
  handle-IsAnswered w role unconfigure m s r h = ground (
    arith,
    reply-IsAnswered role error_reply r.0 refl,
    announced-IsAnswered role status_reply unconfigure_cause r.0 refl,
  )
  handle-IsAnswered w role set_process_mode m s r h = ground (
    arith,
    reply-IsAnswered role error_reply r.0 refl,
    reply-IsAnswered role status_reply r.0 refl,
  )
  handle-IsAnswered w role trigger_capture m s r h = ground (
    arith,
    reply-IsAnswered role error_reply r.0 refl,
    arm_for-IsAnswered role (trigger_targets J (requested_camera J m) s.cameras)
        (requested_skip J m s.processor.config.trigger_skip_frames) s r,
  )
  handle-IsAnswered w role start_cameras m s r h = ground (
    arith,
    reply-IsAnswered role error_reply r.0 refl,
    announced-IsAnswered role status_reply start_cause r.0 refl,
  )
  handle-IsAnswered w role start_stream m s r h = ground (
    arith,
    reply-IsAnswered role error_reply r.0 refl,
    reply-IsAnswered role status_reply r.0 refl,
  )
  handle-IsAnswered w role stop_stream m s r h = ground (
    arith,
    reply-IsAnswered role error_reply r.0 refl,
    reply-IsAnswered role status_reply r.0 refl,
  )
  handle-IsAnswered w role stop_cameras m s r h = ground (
    arith,
    reply-IsAnswered role error_reply r.0 refl,
    concluded-IsAnswered role (stopped_message J (stopped_processor J w s.processor)) stop_cause
        s.processor r.0 refl,
  )
  handle-IsAnswered w role reset_frame_counts m s r h =
      ground (arith, reply-IsAnswered role status_reply r.0 refl)
  handle-IsAnswered w role set_header_only m s r h = ground (
    arith,
    reply-IsAnswered role error_reply r.0 refl,
    reply-IsAnswered role status_reply r.0 refl,
  )
  handle-IsAnswered w role CommandKind.set_lens_position m s r h = ground (
    arith,
    reply-IsAnswered role error_reply r.0 refl,
    reply-IsAnswered role status_reply r.0 refl,
  )
  handle-IsAnswered w role CommandKind.set_exposure_time m s r h = ground (
    arith,
    reply-IsAnswered role error_reply r.0 refl,
    reply-IsAnswered role status_reply r.0 refl,
  )
  handle-IsAnswered w role CommandKind.set_frame_duration m s r h = ground (
    arith,
    reply-IsAnswered role error_reply r.0 refl,
    reply-IsAnswered role status_reply r.0 refl,
  )
  handle-IsAnswered w role get_frame_duration_limits m s r h = ground (
    arith,
    reply-IsAnswered role error_reply r.0 refl,
    reply-IsAnswered role duration_limits r.0 refl,
  )
  handle-IsAnswered w role get_lens_position_limits m s r h = ground (
    arith,
    reply-IsAnswered role error_reply r.0 refl,
    reply-IsAnswered role lens_limits r.0 refl,
  )
  handle-IsAnswered w role get_focus_fom_region m s r h =
      ground (
        arith,
        reply-IsAnswered role error_reply r.0 refl,
        reply-IsAnswered role fom_report r.0 refl,
      )

  dispatch-IsAnswered :
      (w : Surroundings J) (role : ClientRole) (raw : String) (o : Option (CommandKind × Value))
      (s : Server J) (r : Server J × Outputs J)
      → dispatch J w role raw o s ≡ some r
      → IsAnswered role r.0 r.1
  unfolding dispatch gate is_push
  dispatch-IsAnswered w role raw none s r h =
      ground (arith, reply-IsAnswered role error_reply r.0 refl)
  dispatch-IsAnswered w role raw (some (kind, m)) s r h =
      ground
        (arith, handle-IsAnswered w role kind m s r, reply-IsAnswered role forbidden_reply r.0 refl)

  -- Every message of a client that does not terminate the server, well formed or not, permitted or
  -- not, is answered at once with exactly one message to its sender, and with none to the other
  -- client, beside the reports of state, stalls and triggers that the server pushes; or it armed a trigger, which is then pending,
  -- and nothing is sent yet.
  pub on_message-IsAnswered :
      (w : Surroundings J) (role : ClientRole) (is_text : Bool) (raw : String) (s : Server J)
      (r : Server J × Outputs J)
      → on_message J w role is_text raw s ≡ some r
      → IsAnswered role r.0 r.1
  unfolding on_message is_push
  on_message-IsAnswered w role is_text raw s r h = ground (
    arith,
    dispatch-IsAnswered w role raw (parse_command J raw) s r,
    reply-IsAnswered role error_reply r.0 refl,
  )
