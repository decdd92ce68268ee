-- ===== src/Server/Controls.antt =====
-- The handlers of src/websocket_server.cpp that set and query the controls of the cameras.
use cherupi_v4l.Base.{Bool, Option, String, if◌then◌else◌, leb, ltb, none, not, some, true, ◌&&◌}
use cherupi_v4l.Base.Int.{negsuc, pos, ℤ}
use cherupi_v4l.Camera.Settings.{set_exposure_time, set_frame_duration, set_lens_position}
use cherupi_v4l.Command.{
  CommandKind, get_focus_fom_region, get_frame_duration_limits, get_lens_position_limits,
  is_command_allowed,
}
use cherupi_v4l.Command.Json.{Json}
use cherupi_v4l.Manager.Fleet.{for_all}
use cherupi_v4l.Processor.OutputDir.{is_nil}
use cherupi_v4l.Server.State.{
  Outcome, Server, Surroundings, duration_limits, error_reply, fom_report, lens_limits, reply,
  status_reply,
}
use cherupi_v4l.Types.{ClientRole, commander}

module _ (J : Json) where
  open J use {Value, Double, field, number, to_int, lt, of_ℕ, to_float}

  abbrev field_of : Value → String → (Value → Option Double) → Option Value
  field_of message key reads = elim (field message key) [
    | none ↦ none
    | some v ↦ elim (reads v) [ none ↦ none | some d ↦ some v ]
  ]

  -- The value under a key, where it is a number.
  unfoldable pub number_field : Value → String → Option Value
  number_field message key = field_of message key number

  unfoldable pub lens_ok : Surroundings J → Double → Bool
  lens_ok w lp = w.is_finite lp && not (lt (of_ℕ 32) lp)

  unfoldable pub set_lens_with : Surroundings J → ClientRole → Option Double → Server J → Outcome J
  set_lens_with w role none s = reply J role error_reply s
  set_lens_with w role (some d) s =
      let lp = to_float d in
      if lens_ok w lp
      then reply J role status_reply
          (record s { cameras = for_all (set_lens_position w.below_zero lp) s.cameras })
      else reply J role error_reply s

  unfoldable pub handle_set_lens_position :
      Surroundings J → ClientRole → Value → Server J → Outcome J
  handle_set_lens_position w role message s =
      if not (is_command_allowed CommandKind.set_lens_position s.system_state commander)
      then reply J role error_reply s
      else elim (number_field message "lens_position") [
        | none ↦ reply J role error_reply s
        | some v ↦ set_lens_with w role (number v) s
      ]

  -- 0 and more than a second are refused.
  unfoldable pub exposure_ok : ℤ → Bool
  exposure_ok (negsuc n) = true
  exposure_ok (pos n) = ltb 0 n && leb n 1000000

  -- A conversion that throws is answered like a refused value.
  unfoldable pub set_exposure_with : ClientRole → Option ℤ → Server J → Outcome J
  set_exposure_with role none s = reply J role error_reply s
  set_exposure_with role (some z) s =
      if exposure_ok z
      then reply J role status_reply
          (record s { cameras = for_all (set_exposure_time z) s.cameras })
      else reply J role error_reply s

  unfoldable pub handle_set_exposure_time : ClientRole → Value → Server J → Outcome J
  handle_set_exposure_time role message s =
      if not (is_command_allowed CommandKind.set_exposure_time s.system_state commander)
      then reply J role error_reply s
      else elim (number_field message "exposure_time") [
        | none ↦ reply J role error_reply s
        | some v ↦ set_exposure_with role (to_int v) s
      ]

  unfoldable pub duration_ok : ℤ → Bool
  duration_ok (negsuc n) = true
  duration_ok (pos n) = leb n 1000000000

  unfoldable pub set_duration_with : ClientRole → Option ℤ → Server J → Outcome J
  set_duration_with role none s = reply J role error_reply s
  set_duration_with role (some z) s =
      if duration_ok z
      then reply J role status_reply
          (record s { cameras = for_all (set_frame_duration z) s.cameras })
      else reply J role error_reply s

  unfoldable pub handle_set_frame_duration :
      Surroundings J → ClientRole → Value → Server J → Outcome J
  handle_set_frame_duration w role message s =
      if not (is_command_allowed CommandKind.set_frame_duration s.system_state commander)
      then reply J role error_reply s
      else elim (number_field message "frame_duration") [
        | none ↦ reply J role error_reply s
        | some v ↦ set_duration_with role (w.to_int64 v) s
      ]

  unfoldable pub handle_get_frame_duration_limits : ClientRole → Server J → Outcome J
  handle_get_frame_duration_limits role s =
      if is_command_allowed get_frame_duration_limits s.system_state commander
      then reply J role duration_limits s
      else reply J role error_reply s

  unfoldable pub handle_get_lens_position_limits : ClientRole → Server J → Outcome J
  handle_get_lens_position_limits role s =
      if is_command_allowed get_lens_position_limits s.system_state commander
      then reply J role lens_limits s
      else reply J role error_reply s

  unfoldable pub handle_get_focus_fom_region : ClientRole → Server J → Outcome J
  handle_get_focus_fom_region role s =
      if is_command_allowed get_focus_fom_region s.system_state commander && not (is_nil s.cameras)
      then reply J role fom_report s
      else reply J role error_reply s
