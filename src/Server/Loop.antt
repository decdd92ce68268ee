-- ===== src/Server/Loop.antt =====
-- The event loop of src/websocket_server.cpp (run(), cleanupConnection and captureWatchdogLoop)
-- beside the camera and processor threads: parsing, the role gate, the dispatch to the handlers, the
-- connections, the drain handler, and the watchdog.
use cherupi_v4l.Base.{
  Bool, List, Option, String, [], false, if◌then◌else◌, ltb, none, not, some, true, ℕ, ◌&&◌, ◌*◌,
  ◌++◌, ◌∷◌,
}
use cherupi_v4l.Command.{
  CommandKind, discover, get_focus_fom_region, get_frame_duration_limits, get_lens_position_limits,
  get_state, is_command_permitted, kind_of_name, reset_frame_counts, set_header_only,
  set_process_mode, start_cameras, start_stream, stop_cameras, stop_stream, trigger_capture,
  unconfigure,
}
use cherupi_v4l.Command.Json.{Json}
use cherupi_v4l.Command.Request.{StreamOptions}
use cherupi_v4l.Manager.Fleet.{poll_stalled}
use cherupi_v4l.Server.Cameras.{
  handle_configure, handle_discover, handle_get_state, handle_reset_frame_counts,
  handle_set_process_mode, handle_start_cameras, handle_stop_cameras, handle_trigger_capture,
  handle_unconfigure,
}
use cherupi_v4l.Server.Controls.{
  handle_get_focus_fom_region, handle_get_frame_duration_limits, handle_get_lens_position_limits,
  handle_set_exposure_time, handle_set_frame_duration, handle_set_lens_position,
}
use cherupi_v4l.Server.State.{
  Cause, Client, Outcome, Outputs, Server, Surroundings, capture_timeout, client_of, commander_came,
  commander_went, error_reply, forbidden_reply, observer_came, observer_went, other_role,
  push_state_to, reply, with_client,
}
use cherupi_v4l.Server.Streams.{handle_set_header_only, handle_start_stream, handle_stop_stream}
use cherupi_v4l.Stream.Session.{Session, clear_sink, set_sink}
use cherupi_v4l.Types.{ClientRole, commander, observer}

abbrev pub came : ClientRole → Cause
came commander = commander_came
came observer = observer_came

abbrev pub went : ClientRole → Cause
went commander = commander_went
went observer = observer_went

module _ (J : Json) where
  open J use {Value, Double, parse, field, string}

  unfoldable pub handle : Surroundings J → ClientRole → CommandKind → Value → Server J → Outcome J
  handle w role discover message s = handle_discover J w role message s
  handle w role get_state message s = handle_get_state J role s
  handle w role CommandKind.configure message s = handle_configure J w role message s
  handle w role unconfigure message s = handle_unconfigure J role s
  handle w role set_process_mode message s = handle_set_process_mode J w role message s
  handle w role trigger_capture message s = handle_trigger_capture J role message s
  handle w role start_cameras message s = handle_start_cameras J w role s
  handle w role start_stream message s = handle_start_stream J role message s
  handle w role stop_stream message s = handle_stop_stream J role message s
  handle w role stop_cameras message s = handle_stop_cameras J w role s
  handle w role reset_frame_counts message s = handle_reset_frame_counts J role s
  handle w role set_header_only message s = handle_set_header_only J role message s
  handle w role CommandKind.set_lens_position message s =
      handle_set_lens_position J w role message s
  handle w role CommandKind.set_exposure_time message s = handle_set_exposure_time J role message s
  handle w role CommandKind.set_frame_duration message s =
      handle_set_frame_duration J w role message s
  handle w role get_frame_duration_limits message s = handle_get_frame_duration_limits J role s
  handle w role get_lens_position_limits message s = handle_get_lens_position_limits J role s
  handle w role get_focus_fom_region message s = handle_get_focus_fom_region J role s

  -- The `cmd` of a message, where it has one that is a text.
  unfoldable pub command_text : Value → Option String
  command_text message = elim (field message "cmd") [ none ↦ none | some v ↦ string v ]

  -- parseCommand
  unfoldable pub parse_command : String → Option (CommandKind × Value)
  parse_command raw = elim (parse raw) [
    | none ↦ none
    | some message ↦ elim (command_text message) [
      | none ↦ none
      | some cmd ↦ elim (kind_of_name cmd) [ none ↦ none | some kind ↦ some (kind, message) ]
    ]
  ]

  -- The role gate stands before the handler.
  unfoldable pub gate : Surroundings J → ClientRole → CommandKind → Value → Server J → Outcome J
  gate w role kind message s =
      if is_command_permitted kind role
      then handle w role kind message s
      else reply J role forbidden_reply s

  -- Whether the reply to a message that parseCommand refuses can be dumped: what is wrong with a
  -- message that parses is told in valid UTF-8.
  unfoldable pub is_answerable : Surroundings J → String → Bool
  is_answerable w raw = elim (parse raw) [ none ↦ w.dumps_error raw | some message ↦ true ]

  -- sendError stands outside of the try: an exception of dump() leaves the callback and ends the
  -- server.
  unfoldable pub dispatch :
      Surroundings J → ClientRole → String → Option (CommandKind × Value) → Server J → Outcome J
  dispatch w role raw none s = if is_answerable w raw then reply J role error_reply s else none
  dispatch w role raw (some (kind, message)) s = gate w role kind message s

  unfoldable pub on_message : Surroundings J → ClientRole → Bool → String → Server J → Outcome J
  on_message w role is_text raw s =
      if is_text then dispatch w role raw (parse_command raw) s else reply J role error_reply s

  -- upgrade and open: the path decides the role, and a role has one slot.
  unfoldable pub on_open : ClientRole → Server J → Outcome J
  on_open role s =
      let c = client_of J role s in
      if c.connected then some (s, []) else elim (set_sink c.stream) [
        | none ↦ none
        | some q ↦
            let s' =
              with_client J role
                (record c {
                  connected = true;
                  attached = true;
                  in_backpressure = false;
                  stream = q;
                })
                s in
            some (s', push_state_to J (other_role role) (came role) s')
      ]

  -- cleanupConnection keeps the cameras running.
  unfoldable pub cleanup_connection : Client (StreamOptions Double) → Client (StreamOptions Double)
  cleanup_connection c = record c {
    stream = clear_sink c.stream;
    attached = false;
    connected = false;
    hears_trigger = false;
  }

  unfoldable pub on_close : ClientRole → Server J → Outcome J
  on_close role s =
      let c = client_of J role s in
      let s' = with_client J role (cleanup_connection c) s in
      some (s', push_state_to J (other_role role) (went role) s')

  -- The part of notifyBackpressure that the session keeps.
  unfoldable pub note_pressure :
      Bool → ℕ → Session (StreamOptions Double) → Session (StreamOptions Double)
  note_pressure has_pressure now q =
      if has_pressure && not q.under_pressure
      then record q { under_pressure = true; pressure_since = now }
      else record q { under_pressure = has_pressure }

  -- The thresholds differ, so that the state does not flicker between them.
  unfoldable pub has_pressure_at : Bool → ℕ → Bool
  has_pressure_at before buffered =
      if before then ltb (128 * 1024) buffered else ltb (512 * 1024) buffered

  unfoldable pub on_drain : ℕ → ℕ → Client (StreamOptions Double) → Client (StreamOptions Double)
  on_drain buffered now c =
      let has_pressure = has_pressure_at c.in_backpressure buffered in
      if (if has_pressure then c.in_backpressure else not c.in_backpressure) then c else record c {
        in_backpressure = has_pressure;
        stream = note_pressure has_pressure now c.stream;
      }

  unfoldable pub report_stalls : List ℕ → Server J → Outputs J
  report_stalls [] s = []
  report_stalls (id ∷ ids) s =
      (if s.commander_client.attached then (commander, capture_timeout id) ∷ [] else [])
      ++ (if s.observer_client.attached then (observer, capture_timeout id) ∷ [] else [])
      ++ report_stalls ids s

  -- One tick of the watchdog.
  unfoldable pub on_tick : ℕ → Server J → Outcome J
  on_tick now s =
      let (cs, ids) = poll_stalled now s.cameras in
      if s.watchdog_running
      then some (record s { cameras = cs }, report_stalls ids s)
      else some (s, [])
