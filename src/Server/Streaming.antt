-- ===== src/Server/Streaming.antt =====
-- Starting and stopping a stream ends in no std::terminate.
use cherupi_v4l.Base.{
  Bool, Bool-cases, Option, [], if◌then◌else◌, inl, inr, leb, length, none, refl, some, subst, ◌∷◌,
  ◌≡◌,
}
use cherupi_v4l.Command.{is_command_allowed, start_stream}
use cherupi_v4l.Command.Json.{Json}
use cherupi_v4l.Server.Sessions.{
  IsAlive, client_session, stream_of-IsConsistent, with_client-IsAlive,
}
use cherupi_v4l.Server.State.{Server, client_of, error_reply, reply, status_reply, with_client}
use cherupi_v4l.Stream.Session.{
  IsConsistent, Session, call, call-Continues, start_streaming_camera, starts,
  stop_streaming_camera, stop_streaming_camera-IsConsistent,
}
use cherupi_v4l.Types.{ClientRole}
use cherupi_v4l.Command.Request.{StreamOptions, StreamRequest, build_stream_request}
use cherupi_v4l.Server.Streams.{
  enabled_of, handle_set_header_only, handle_start_stream, handle_stop_stream, start_stream_with,
  stream_of, with_stream,
}
use cherupi_v4l.Base.Result.{Result, err, ok}
use cherupi_v4l.Server.Starting.{Survives}

module _ {J : Json} where
  open J use {Value, Double}

  streamed-Survives :
      (role : ClientRole) (o : Option (Session (StreamOptions Double) × Bool))
      (k : Session (StreamOptions Double)) (s : Server J)
      → elim o [ none ↦ none | some (q, accepted) ↦ some q ] ≡ some k
      → IsConsistent k
      → IsAlive s
      → Survives (elim o [
        | none ↦ none
        | some (q, accepted) ↦
            reply J role (if accepted then status_reply else error_reply) (with_stream J role q s)
      ])
  unfolding Survives
  streamed-Survives role none k s e c v = cc
  streamed-Survives role (some (q, accepted)) k s e c v = (
    (with_stream J role q s, (role, if accepted then status_reply else error_reply) ∷ []),
    refl,
    with_client-IsAlive role (record (client_of J role s) { stream = q }) s
        (subst IsConsistent (cc e) c) v,
  )

  start_stream_with-Survives :
      (role : ClientRole) (q : StreamRequest Double) (s : Server J)
      → IsAlive s
      → Survives (start_stream_with J role q s)
  unfolding start_stream_with Survives call
  start_stream_with-Survives role q s v =
      let (k, e, c) =
        call-Continues (starts q.camera_id q.options) (stream_of J role s)
          (stream_of-IsConsistent role s v) in
      elim (Bool-cases (leb (length s.cameras) q.camera_id)) [
        | inl t ↦ rw t ((s, (role, error_reply) ∷ []), refl, v)
        | inr f ↦ rw f (
            streamed-Survives role
              (start_streaming_camera q.camera_id q.options (stream_of J role s)) k s e c v)
      ]

  requested-Survives :
      (role : ClientRole) (o : Result (StreamRequest Double)) (s : Server J)
      → IsAlive s
      → Survives
          (elim o [ err e ↦ reply J role error_reply s | ok q ↦ start_stream_with J role q s ])
  unfolding Survives
  requested-Survives role (err e) s v = ((s, (role, error_reply) ∷ []), refl, v)
  requested-Survives role (ok q) s v = start_stream_with-Survives role q s v

  pub handle_start_stream-Survives :
      (role : ClientRole) (m : Value) (s : Server J)
      → IsAlive s
      → Survives (handle_start_stream J role m s)
  unfolding handle_start_stream Survives
  handle_start_stream-Survives role m s v =
      elim (Bool-cases (is_command_allowed start_stream s.system_state role)) [
        | inl t ↦ rw t (requested-Survives role (build_stream_request J m) s v)
        | inr f ↦ rw f ((s, (role, error_reply) ∷ []), refl, v)
      ]

  unrequested-Survives :
      (role : ClientRole) (o : Result (StreamRequest Double)) (s : Server J)
      → IsAlive s
      → Survives (elim o [
        | err e ↦ reply J role error_reply s
        | ok q ↦
            let (k, removed) = stop_streaming_camera q.camera_id (stream_of J role s) in
            reply J role (if removed then status_reply else error_reply) (with_stream J role k s)
      ])
  unfolding Survives
  unrequested-Survives role (err e) s v = ((s, (role, error_reply) ∷ []), refl, v)
  unrequested-Survives role (ok q) s v =
      let (k, removed) = stop_streaming_camera q.camera_id (stream_of J role s) in
      (
        (with_stream J role k s, (role, if removed then status_reply else error_reply) ∷ []),
        refl,
        with_client-IsAlive role (record (client_of J role s) { stream = k }) s
            (stop_streaming_camera-IsConsistent q.camera_id (stream_of J role s)
              (stream_of-IsConsistent role s v))
            v,
      )

  pub handle_stop_stream-Survives :
      (role : ClientRole) (m : Value) (s : Server J)
      → IsAlive s
      → Survives (handle_stop_stream J role m s)
  unfolding handle_stop_stream
  handle_stop_stream-Survives role m s v = unrequested-Survives role (build_stream_request J m) s v

  enabled-Survives :
      (role : ClientRole) (o : Option Bool) (s : Server J)
      → IsAlive s
      → Survives (elim o [
        | none ↦ reply J role error_reply s
        | some enabled ↦
            reply J role status_reply
              (with_client J role (record (client_of J role s) { header_only = enabled }) s)
      ])
  unfolding Survives
  enabled-Survives role none s v = ((s, (role, error_reply) ∷ []), refl, v)
  enabled-Survives role (some enabled) s v =
      let c = record (client_of J role s) { header_only = enabled } in
      (
        (with_client J role c s, (role, status_reply) ∷ []),
        refl,
        with_client-IsAlive role c s (client_session role s v) v,
      )

  pub handle_set_header_only-Survives :
      (role : ClientRole) (m : Value) (s : Server J)
      → IsAlive s
      → Survives (handle_set_header_only J role m s)
  unfolding handle_set_header_only
  handle_set_header_only-Survives role m s v = enabled-Survives role (enabled_of J m) s v
