-- ===== src/Command/Names.antt =====
-- The command names and the mode names of src/types.hpp and src/command_parser.cpp: the parsers
-- are inverse to the tables of names.
use cherupi_v4l.Base.{
  All, Bool-cases, List, Option, String, [], eq_iff, if◌then◌else◌, inl, inr, none, refl, some,
  subst, sym, ◌↔◌, ◌∙◌, ◌∷◌, ◌≡◌,
}
use text.Mathlib.Text.{◌==◌ as str_eq}
use cherupi_v4l.Types.{
  ProcessMode, aruco, aruco2x2, batch, buffer, checkerboard, checkerboard2x2, none_mode, trigger,
}
use cherupi_v4l.Command.{
  CommandKind, configure, discover, get_focus_fom_region, get_frame_duration_limits,
  get_lens_position_limits, get_state, kind_of_name, parse_process_mode, reset_frame_counts,
  set_exposure_time, set_frame_duration, set_header_only, set_lens_position, set_process_mode,
  start_cameras, start_stream, stop_cameras, stop_stream, trigger_capture, unconfigure,
}

-- The constants Protocol::CMD_*.
unfoldable pub command_name : CommandKind → String
command_name discover = "discover"
command_name get_state = "get_state"
command_name configure = "configure"
command_name unconfigure = "unconfigure"
command_name set_process_mode = "set_process_mode"
command_name trigger_capture = "trigger_capture"
command_name start_cameras = "start_cameras"
command_name start_stream = "start_stream"
command_name stop_stream = "stop_stream"
command_name stop_cameras = "stop_cameras"
command_name reset_frame_counts = "reset_frame_counts"
command_name set_header_only = "set_header_only"
command_name set_lens_position = "set_lens_position"
command_name set_exposure_time = "set_exposure_time"
command_name set_frame_duration = "set_frame_duration"
command_name get_frame_duration_limits = "get_frame_duration_limits"
command_name get_lens_position_limits = "get_lens_position_limits"
command_name get_focus_fom_region = "get_focus_fom_region"

name-kind : (k : CommandKind) → kind_of_name (command_name k) ≡ some k
unfolding kind_of_name command_name
name-kind discover = refl
name-kind k = refl

-- An if-chain of comparisons is a search in a table.
module _ {ℓ} {A : Type ℓ} where
  abbrev first_match : List (String × A) → String → Option A
  first_match [] s = none
  first_match ((n, a) ∷ table) s = if str_eq s n then some a else first_match table s

  first_match-All :
      (P : String → A → Type 0) (table : List (String × A)) (s : String) (a : A)
      → All (λ e. P e.0 e.1) table
      → first_match table s ≡ some a
      → P s a
  first_match-All P [] s a h e = cc
  first_match-All P ((n, b) ∷ table) s a h e = elim (Bool-cases (str_eq s n)) [
    | inl hit ↦
        let found : some b ≡ some a = rw (hit, first_match) at e in
        subst (λ t. P t a) (sym ((eq_iff s n).0 hit)) (subst (P n) (cc found) h.0)
    | inr miss ↦ first_match-All P table s a h.1 (rw (miss, first_match) at e)
  ]

command_table : List (String × CommandKind)
command_table =
    ("discover", discover)
    ∷ ("get_state", get_state)
    ∷ ("configure", configure)
    ∷ ("unconfigure", unconfigure)
    ∷ ("set_process_mode", set_process_mode)
    ∷ ("trigger_capture", trigger_capture)
    ∷ ("start_cameras", start_cameras)
    ∷ ("start_stream", start_stream)
    ∷ ("stop_stream", stop_stream)
    ∷ ("stop_cameras", stop_cameras)
    ∷ ("reset_frame_counts", reset_frame_counts)
    ∷ ("set_header_only", set_header_only)
    ∷ ("set_lens_position", set_lens_position)
    ∷ ("set_exposure_time", set_exposure_time)
    ∷ ("set_frame_duration", set_frame_duration)
    ∷ ("get_frame_duration_limits", get_frame_duration_limits)
    ∷ ("get_lens_position_limits", get_lens_position_limits)
    ∷ ("get_focus_fom_region", get_focus_fom_region)
    ∷ []

command_table-named : All (λ e. e.0 ≡ command_name e.1) command_table
unfolding command_table command_name
command_table-named = (
  refl,
  (
    refl,
    (
      refl,
      (
        refl,
        (
          refl,
          (
            refl,
            (
              refl,
              (
                refl,
                (refl, (refl, (refl, (refl, (refl, (refl, (refl, (refl, (refl, (refl, tt)))))))))),
              ),
            ),
          ),
        ),
      ),
    ),
  ),
)

kind_of_name-first_match : (s : String) → kind_of_name s ≡ first_match command_table s
unfolding kind_of_name command_table
kind_of_name-first_match s = refl

kind-name : (s : String) (k : CommandKind) → kind_of_name s ≡ some k → s ≡ command_name k
kind-name s k h =
    first_match-All (λ n v. n ≡ command_name v) command_table s k command_table-named
      (sym (kind_of_name-first_match s) ∙ h)

-- A text is recognised as a command exactly when it is that command's name.
kind_of_name-some :
    (s : String) (k : CommandKind) → (kind_of_name s ≡ some k) ↔ (s ≡ command_name k)
kind_of_name-some s k = (kind-name s k, λ e. rw e (name-kind k))

unfoldable pub mode_name : ProcessMode → String
mode_name none_mode = "none"
mode_name buffer = "buffer"
mode_name batch = "batch"
mode_name trigger = "trigger"
mode_name checkerboard = "checkerboard"
mode_name checkerboard2x2 = "checkerboard2x2"
mode_name aruco = "aruco"
mode_name aruco2x2 = "aruco2x2"

name-mode : (m : ProcessMode) → parse_process_mode (mode_name m) ≡ some m
unfolding parse_process_mode mode_name
name-mode none_mode = refl
name-mode m = refl

mode_table : List (String × ProcessMode)
mode_table =
    ("none", none_mode)
    ∷ ("buffer", buffer)
    ∷ ("batch", batch)
    ∷ ("trigger", trigger)
    ∷ ("checkerboard", checkerboard)
    ∷ ("checkerboard2x2", checkerboard2x2)
    ∷ ("aruco", aruco)
    ∷ ("aruco2x2", aruco2x2)
    ∷ []

mode_table-named : All (λ e. e.0 ≡ mode_name e.1) mode_table
unfolding mode_table mode_name
mode_table-named = (refl, (refl, (refl, (refl, (refl, (refl, (refl, (refl, tt))))))))

parse_process_mode-first_match : (s : String) → parse_process_mode s ≡ first_match mode_table s
unfolding parse_process_mode mode_table
parse_process_mode-first_match s = refl

mode-name : (s : String) (m : ProcessMode) → parse_process_mode s ≡ some m → s ≡ mode_name m
mode-name s m h =
    first_match-All (λ n v. n ≡ mode_name v) mode_table s m mode_table-named
      (sym (parse_process_mode-first_match s) ∙ h)

-- A text is recognised as a process mode exactly when it is that mode's name.
parse_process_mode-some :
    (s : String) (m : ProcessMode) → (parse_process_mode s ≡ some m) ↔ (s ≡ mode_name m)
parse_process_mode-some s m = (mode-name s m, λ e. rw e (name-mode m))
