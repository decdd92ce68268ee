-- ===== src/Server/Cameras.antt =====
-- The handlers of src/websocket_server.cpp that command the cameras and the frame processor.
use cherupi_v4l.Base.{
  Bool, List, Option, [], false, get_elem?, if◌then◌else◌, length, ltb, none, not, some, true, ℕ,
  ◌%◌, ◌&&◌, ◌++◌, ◌^◌, ◌||◌, ◌∷◌,
}
use cherupi_v4l.Base.Int.{negsuc, pos, ℤ}
use cherupi_v4l.Base.Result.{err, ok}
use cherupi_v4l.Camera.{Camera}
use cherupi_v4l.Capacity.{check_buffer_headroom, check_disk_throughput, compute_demand}
use cherupi_v4l.Command.{
  CommandKind, is_command_allowed, start_cameras, stop_cameras, trigger_capture, unconfigure,
}
use cherupi_v4l.Command.Config.{
  CameraConfig, build_camera_config, build_process_config, build_sensor_filter,
}
use cherupi_v4l.Command.Json.{Json}
use cherupi_v4l.Manager.Discover.{discover_cameras}
use cherupi_v4l.Manager.Fleet.{
  configure_all, reset_camera_counts, start_all, stop_all, unconfigure_all,
}
use cherupi_v4l.Processor.{Processor}
use cherupi_v4l.Processor.OutputDir.{is_nil}
use cherupi_v4l.Processor.Trigger.{arm_trigger}
use cherupi_v4l.Processor.Writer.{flush_buffered_frames}
use cherupi_v4l.Server.State.{
  Message, Outcome, Server, Surroundings, broadcast_state, client_of, configure_cause, discovery,
  error_reply, query, reply, reply_and_broadcast, start_cause, state_message, status_reply,
  stop_cause, stopped_reply, trigger_results, unconfigure_cause, with_client,
}
use cherupi_v4l.Stream.Session.{stop_all_streaming}
use cherupi_v4l.Types.{
  ClientRole, commander, configured, idle, is_batch, is_buffer, is_none_mode, is_running,
  is_trigger, running,
}
use cherupi_v4l.Processor.Lifecycle.{
  codes, reset_frames_saved_counts, configure as configure_processor, start as start_processor,
  stop as stop_processor,
}
use cherupi_v4l.Camera.Setup.{fresh_camera}

module _ (J : Json) where
  open J use {Value, Double, field, integer, to_int}

  unfoldable pub params_of : Surroundings J → Value → Value
  params_of w message = elim (field message "params") [ none ↦ w.empty_object | some v ↦ v ]

  unfoldable pub handle_discover : Surroundings J → ClientRole → Value → Server J → Outcome J
  handle_discover w role message s =
      let found =
        discover_cameras fresh_camera w.manager_starts
          (codes (build_sensor_filter J (params_of w message))) w.models s.cameras in
      reply J role (discovery (length found)) (record s { cameras = found })

  unfoldable pub handle_get_state : ClientRole → Server J → Outcome J
  handle_get_state role s = reply J role (state_message J role query s) s

  unfoldable pub configure_with : Surroundings J → ClientRole → CameraConfig → Server J → Outcome J
  configure_with w role cfg s =
      let (cs, done) = configure_all cfg w.sets_up s.cameras in
      let s' = record s { cameras = cs } in
      if done
      then reply_and_broadcast J role status_reply configure_cause
          (record s' { system_state = configured })
      else reply J role error_reply s'

  unfoldable pub handle_configure : Surroundings J → ClientRole → Value → Server J → Outcome J
  handle_configure w role message s =
      if not (is_command_allowed CommandKind.configure s.system_state commander)
      then reply J role error_reply s
      else elim (build_camera_config J (params_of w message)) [
        | err e ↦ reply J role error_reply s
        | ok cfg ↦ configure_with w role cfg s
      ]

  unfoldable pub handle_unconfigure : ClientRole → Server J → Outcome J
  handle_unconfigure role s =
      let (cs, done) = unconfigure_all s.cameras in
      let s' = record s { cameras = cs } in
      if not (is_command_allowed unconfigure s.system_state commander)
      then reply J role error_reply s
      else if done
      then reply_and_broadcast J role status_reply unconfigure_cause
          (record s' { system_state = idle })
      else reply J role error_reply s'

  unfoldable pub handle_set_process_mode :
      Surroundings J → ClientRole → Value → Server J → Outcome J
  handle_set_process_mode w role message s = elim (build_process_config J message) [
    | err e ↦ reply J role error_reply s
    | ok none ↦ reply J role error_reply s
    | ok (some cfg) ↦
        reply J role status_reply
          (record s { processor = configure_processor w.file_system cfg s.processor })
  ]

  unfoldable pub running_ids : List (Camera Double) → List ℕ
  running_ids [] = []
  running_ids (c ∷ cs) = if is_running c.state then c.camera_id ∷ running_ids cs else running_ids cs

  unfoldable pub is_running_at : ℕ → List (Camera Double) → Bool
  is_running_at id cs = elim (get_elem? cs id) [ none ↦ false | some c ↦ is_running c.state ]

  -- The cameras to capture from; an empty list stands for the error replies.
  unfoldable pub trigger_targets : Option ℤ → List (Camera Double) → List ℕ
  trigger_targets none cs = running_ids cs
  trigger_targets (some (negsuc n)) cs = []
  trigger_targets (some (pos n)) cs = if is_running_at (n % 2 ^ 32) cs then n % 2 ^ 32 ∷ [] else []

  unfoldable pub requested_camera : Value → Option ℤ
  requested_camera message = elim (field message "camera_id") [ none ↦ none | some v ↦ integer v ]

  -- An integer overrides the configured number of frames to skip.
  unfoldable pub requested_skip : Value → ℕ → ℤ
  requested_skip message configured_skip = elim (field message "skip_frames") [
    | none ↦ pos configured_skip
    | some v ↦ elim (integer v) [
      | none ↦ pos configured_skip
      | some z ↦ elim (to_int v) [ none ↦ pos configured_skip | some n ↦ n ]
    ]
  ]

  unfoldable pub arm_for : ClientRole → List ℕ → ℤ → Server J → Outcome J
  arm_for role camera_ids skip s =
      let (p, id) = arm_trigger s.processor camera_ids skip in
      let c = client_of J role s in
      elim id [
        | none ↦ reply J role error_reply s
        | some n ↦ some (
          with_client J role (record c { hears_trigger = c.attached }) (record s { processor = p }),
          [],
        )
      ]

  -- Armed, the request is answered by the trigger's result later.
  unfoldable pub handle_trigger_capture : ClientRole → Value → Server J → Outcome J
  handle_trigger_capture role message s =
      let targets = trigger_targets (requested_camera message) s.cameras in
      if not (is_command_allowed trigger_capture s.system_state commander)
      then reply J role error_reply s
      else if not (is_trigger s.processor.config.mode)
      then reply J role error_reply s
      else if is_nil targets
      then reply J role error_reply s
      else arm_for role targets (requested_skip message s.processor.config.trigger_skip_frames) s

  -- checkCaptureFeasibility: whether start may proceed.
  unfoldable pub is_feasible : Surroundings J → List (Camera Double) → Processor Double → Bool
  is_feasible w [] p = true
  is_feasible w (c ∷ cs) p =
      let cfg = p.config in
      let demand =
        compute_demand c.width c.height (length (c ∷ cs)) (pos c.duration.wanted)
          w.hw_min_duration in
      let rate =
        if ltb 0 cfg.disk_write_bytes_per_sec then cfg.disk_write_bytes_per_sec else w.disk_rate in
      is_none_mode cfg.mode
      || cfg.allow_overcommit
      || (check_buffer_headroom w.lasts_two_seconds cfg.mode cfg.save_frames demand p.backlog_budget
          && (not (is_batch cfg.mode && cfg.save_frames)
              || check_disk_throughput cfg.mode cfg.save_frames demand rate))

  -- With the processor started: the check, the callback, and the cameras.
  unfoldable pub start_with : Surroundings J → ClientRole → Processor Double → Server J → Outcome J
  start_with w role p s =
      let (cs, done) = start_all w.start_times w.start_answers s.cameras in
      let s' = record s { callback_set = not (is_none_mode p.config.mode); cameras = cs } in
      if not (is_feasible w s.cameras p)
      then reply J role error_reply (record s { processor = stop_processor w.detectors w.writes p })
      else if done
      then reply_and_broadcast J role status_reply start_cause
          (record s' { processor = p; system_state = running; watchdog_running = true })
      else reply J role error_reply
          (record s' { processor = stop_processor w.detectors w.writes p })

  unfoldable pub handle_start_cameras : Surroundings J → ClientRole → Server J → Outcome J
  handle_start_cameras w role s =
      if not (is_command_allowed start_cameras s.system_state commander)
      then reply J role error_reply s
      else elim (start_processor w.mem_available s.processor) [
        | none ↦ none
        | some p ↦ start_with w role p s
      ]

  -- The processor after stop_cameras: in buffer mode the kept frames are flushed first.
  unfoldable pub stopped_processor : Surroundings J → Processor Double → Processor Double
  stopped_processor w p =
      stop_processor w.detectors w.writes
        (if is_buffer p.config.mode then flush_buffered_frames w.opens p else p)

  unfoldable pub stopped_message : Processor Double → Message
  stopped_message p = stopped_reply p.frames_saved p.bytes_written p.frames_dropped_backlog

  -- The observer's subscriptions are left alone. The result of a trigger that the stop cancels goes
  -- through the event loop's queue as the reports of the state do, and so after the reply.
  unfoldable pub handle_stop_cameras : Surroundings J → ClientRole → Server J → Outcome J
  handle_stop_cameras w role s =
      let c = s.commander_client in
      let p = stopped_processor w s.processor in
      if not (is_command_allowed stop_cameras s.system_state commander)
      then reply J role error_reply s
      else (let s' = record s {
        watchdog_running = false;
        commander_client = record c { stream = stop_all_streaming c.stream };
        cameras = stop_all s.cameras;
        processor = p;
        system_state = configured;
      } in
          some (
            s',
            (role, stopped_message p)
                ∷ (trigger_results J s.processor s' ++ broadcast_state J stop_cause s'),
          ))

  unfoldable pub handle_reset_frame_counts : ClientRole → Server J → Outcome J
  handle_reset_frame_counts role s = reply J role status_reply (record s {
    cameras = reset_camera_counts s.cameras;
    processor = reset_frames_saved_counts s.processor;
  })
