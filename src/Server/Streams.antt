-- ===== src/Server/Streams.antt =====
-- handleStartStream, handleStopStream and handleSetHeaderOnly of src/websocket_server.cpp: what a
-- client does with its own stream.
use cherupi_v4l.Base.{Bool, Option, false, if◌then◌else◌, leb, length, none, not, some}
use cherupi_v4l.Base.Result.{err, ok}
use cherupi_v4l.Command.{is_command_allowed, start_stream}
use cherupi_v4l.Command.Json.{Json}
use cherupi_v4l.Command.Request.{StreamOptions, StreamRequest, build_stream_request}
use cherupi_v4l.Server.State.{
  Outcome, Server, client_of, error_reply, reply, status_reply, with_client,
}
use cherupi_v4l.Stream.Session.{Session, start_streaming_camera, stop_streaming_camera}
use cherupi_v4l.Types.{ClientRole}

module _ (J : Json) where
  open J use {Value, Double, field, boolean}

  abbrev pub SessionOf : Type 0
  SessionOf = Session (StreamOptions Double)

  -- The session of a role, with `stream` in place of its stream.
  abbrev pub with_stream : ClientRole → SessionOf → Server J → Server J
  with_stream role stream s = with_client J role (record (client_of J role s) { stream = stream }) s

  -- The stream manager asks the camera manager for the number of cameras.
  abbrev pub stream_of : ClientRole → Server J → SessionOf
  stream_of role s = record ((client_of J role s).stream) { camera_count = length s.cameras }

  unfoldable pub start_stream_with : ClientRole → StreamRequest Double → Server J → Outcome J
  start_stream_with role r s =
      if leb (length s.cameras) r.camera_id
      then reply J role error_reply s
      else elim (start_streaming_camera r.camera_id r.options (stream_of role s)) [
        | none ↦ none
        | some (q, started) ↦
            reply J role (if started then status_reply else error_reply) (with_stream role q s)
      ]

  unfoldable pub handle_start_stream : ClientRole → Value → Server J → Outcome J
  handle_start_stream role message s =
      if not (is_command_allowed start_stream s.system_state role)
      then reply J role error_reply s
      else elim (build_stream_request J message) [
        | err e ↦ reply J role error_reply s
        | ok r ↦ start_stream_with role r s
      ]

  unfoldable pub handle_stop_stream : ClientRole → Value → Server J → Outcome J
  handle_stop_stream role message s = elim (build_stream_request J message) [
    | err e ↦ reply J role error_reply s
    | ok r ↦
        let (q, removed) = stop_streaming_camera r.camera_id (stream_of role s) in
        reply J role (if removed then status_reply else error_reply) (with_stream role q s)
  ]

  -- msg.value("enabled", false), which throws on a value of another type.
  unfoldable pub enabled_of : Value → Option Bool
  enabled_of message = elim (field message "enabled") [ none ↦ some false | some v ↦ boolean v ]

  unfoldable pub handle_set_header_only : ClientRole → Value → Server J → Outcome J
  handle_set_header_only role message s = elim (enabled_of message) [
    | none ↦ reply J role error_reply s
    | some enabled ↦
        reply J role status_reply
          (with_client J role (record (client_of J role s) { header_only = enabled }) s)
  ]
