-- ===== src/Server/Induction.antt =====
-- A property of the server that holds through all events: it is enough that it depends on the phase
-- only, and that the five commands that change the phase keep it.
use cherupi_v4l.Base.{
  Bool, Bool-cases, List, Option, String, [], arith, false, inl, inr, none, refl, some, subst, true,
  ◌∷◌, ◌≡◌,
}
use cherupi_v4l.Command.{
  CommandKind, discover, get_focus_fom_region, get_frame_duration_limits, get_lens_position_limits,
  get_state, reset_frame_counts, set_header_only, set_process_mode, start_cameras, start_stream,
  stop_cameras, stop_stream, trigger_capture, unconfigure,
}
use cherupi_v4l.Command.Json.{Json}
use cherupi_v4l.Manager.Fleet.{reset_camera_counts}
use cherupi_v4l.Manager.Phase.{for_all-states}
use cherupi_v4l.Server.Cameras.{
  arm_for, handle_get_state, handle_reset_frame_counts, handle_set_process_mode,
  handle_trigger_capture,
}
use cherupi_v4l.Server.State.{Outcome, Outputs, Server, Surroundings, with_client}
use cherupi_v4l.Types.{ClientRole}
use cherupi_v4l.Camera.{Camera}
use cherupi_v4l.Server.Controls.{
  handle_get_focus_fom_region, handle_get_frame_duration_limits, handle_get_lens_position_limits,
}
use cherupi_v4l.Server.Loop.{dispatch, gate, handle, on_message, parse_command}
use cherupi_v4l.Server.Streams.{handle_set_header_only, handle_stop_stream}
use cherupi_v4l.Server.Phase.{IsQuiet}
use cherupi_v4l.Server.Quiet.{
  handle_set_exposure_time-IsQuiet, handle_set_frame_duration-IsQuiet,
  handle_set_lens_position-IsQuiet, handle_start_stream-IsQuiet,
}
use cherupi_v4l.Server.Events.{
  ServerEvent, closed, completes, drained, opened, received, serve, serve_all, ticks, works,
}
use cherupi_v4l.Server.Callbacks.{
  on_close-IsQuiet, on_complete-IsQuiet, on_open-IsQuiet, on_tick-IsQuiet,
}

abbrev pub changes_phase : CommandKind → Bool
changes_phase discover = true
changes_phase CommandKind.configure = true
changes_phase unconfigure = true
changes_phase start_cameras = true
changes_phase stop_cameras = true
changes_phase kind = false

module _ {J : Json} where
  open J use {Value, Double, number, to_float, to_int}

  handle-IsQuiet :
      (w : Surroundings J) (role : ClientRole) (kind : CommandKind) (m : Value) (s : Server J)
      (r : Server J × Outputs J)
      → changes_phase kind ≡ false
      → handle J w role kind m s ≡ some r
      → IsQuiet s r.0
  unfolding handle handle_get_state handle_set_process_mode handle_trigger_capture arm_for
      handle_stop_stream handle_reset_frame_counts reset_camera_counts handle_set_header_only
      handle_get_frame_duration_limits handle_get_lens_position_limits handle_get_focus_fom_region
      with_client
  handle-IsQuiet w role discover m s r q h = cc
  handle-IsQuiet w role CommandKind.configure m s r q h = cc
  handle-IsQuiet w role unconfigure m s r q h = cc
  handle-IsQuiet w role start_cameras m s r q h = cc
  handle-IsQuiet w role stop_cameras m s r q h = cc
  handle-IsQuiet w role get_state m s r q h = ground arith
  handle-IsQuiet w role set_process_mode m s r q h = ground arith
  handle-IsQuiet w role trigger_capture m s r q h = ground arith
  handle-IsQuiet w role stop_stream m s r q h = ground arith
  handle-IsQuiet w role set_header_only m s r q h = ground arith
  handle-IsQuiet w role get_frame_duration_limits m s r q h = ground arith
  handle-IsQuiet w role get_lens_position_limits m s r q h = ground arith
  handle-IsQuiet w role get_focus_fom_region m s r q h = ground arith
  handle-IsQuiet w role reset_frame_counts m s r q h = ground (
    arith,
    for_all-states (λ (c : Camera Double). record c { frame_counter = 0 }) s.cameras (λ c. refl),
  )
  handle-IsQuiet w role start_stream m s r q h = handle_start_stream-IsQuiet role m s r h
  handle-IsQuiet w role CommandKind.set_lens_position m s r q h =
      handle_set_lens_position-IsQuiet w role m s r h
  handle-IsQuiet w role CommandKind.set_exposure_time m s r q h =
      handle_set_exposure_time-IsQuiet role m s r h
  handle-IsQuiet w role CommandKind.set_frame_duration m s r q h =
      handle_set_frame_duration-IsQuiet w role m s r h

-- `steady` and `acts` are the two conditions on the property `P`.
module _ {J : Json} (P : Server J → Type 0) (steady : (s s' : Server J) → IsQuiet s s' → P s → P s')
    (acts : (w : Surroundings J) (role : ClientRole) (kind : CommandKind) (m : J.Value)
        (s : Server J) (r : Server J × Outputs J)
      → changes_phase kind ≡ true
      → P s
      → handle J w role kind m s ≡ some r
      → P r.0) where
  handle-keeps :
      (w : Surroundings J) (role : ClientRole) (kind : CommandKind) (m : J.Value) (s : Server J)
      (r : Server J × Outputs J)
      → P s
      → handle J w role kind m s ≡ some r
      → P r.0
  handle-keeps w role kind m s r v h = elim (Bool-cases (changes_phase kind)) [
    | inl e ↦ acts w role kind m s r e v h
    | inr e ↦ steady s r.0 (handle-IsQuiet w role kind m s r e h) v
  ]

  dispatch-keeps :
      (w : Surroundings J) (role : ClientRole) (raw : String) (o : Option (CommandKind × J.Value))
      (s : Server J) (r : Server J × Outputs J)
      → P s
      → dispatch J w role raw o s ≡ some r
      → P r.0
  unfolding dispatch gate
  dispatch-keeps w role raw none s r v h = ground (arith, steady s r.0)
  dispatch-keeps w role raw (some (kind, m)) s r v h =
      ground (arith, handle-keeps w role kind m s r v, steady s r.0)

  on_message-keeps :
      (w : Surroundings J) (role : ClientRole) (is_text : Bool) (raw : String) (s : Server J)
      (r : Server J × Outputs J)
      → P s
      → on_message J w role is_text raw s ≡ some r
      → P r.0
  unfolding on_message
  on_message-keeps w role is_text raw s r v h =
      ground (arith, dispatch-keeps w role raw (parse_command J raw) s r v, steady s r.0)

  serve-keeps :
      (w : Surroundings J) (e : ServerEvent) (s : Server J) (r : Server J × Outputs J)
      → P s
      → serve J w e s ≡ some r
      → P r.0
  unfolding serve with_client
  serve-keeps w (received role is_text raw) s r v h =
      ground (arith, on_message-keeps w role is_text raw s r v, steady s r.0)
  serve-keeps w (opened role) s r v h = steady s r.0 (on_open-IsQuiet role s r h) v
  serve-keeps w (closed role) s r v h = ground (arith, steady s r.0, on_close-IsQuiet role s r)
  serve-keeps w (drained role buffered now) s r v h = ground (arith, steady s r.0)
  serve-keeps w (completes i now a) s r v h =
      ground (arith, steady s r.0, on_complete-IsQuiet i now a s)
  serve-keeps w (ticks now) s r v h = steady s r.0 (on_tick-IsQuiet now s r h) v
  serve-keeps w (works e) s r v h = ground (arith, steady s r.0)

  continued-keeps :
      (w : Surroundings J) (es : List ServerEvent) (o : Outcome J) (q : Server J)
      → ((r : Server J × Outputs J) → o ≡ some r → serve_all J w es r.0 ≡ some q → P q)
      → elim o [ none ↦ none | some (s', out) ↦ serve_all J w es s' ] ≡ some q
      → P q
  continued-keeps w es none q k h = cc
  continued-keeps w es (some r) q k h = k r refl h

  pub serve_all-keeps :
      (w : Surroundings J) (es : List ServerEvent) (s q : Server J)
      → P s
      → serve_all J w es s ≡ some q
      → P q
  unfolding serve_all
  serve_all-keeps w [] s q v h = subst P (cc h) v
  serve_all-keeps w (e ∷ es) s q v h =
      continued-keeps w es (serve J w e s) q
        (λ r g k. serve_all-keeps w es r.0 q (serve-keeps w e s r v g) k) h
