-- ===== src/Command.antt =====
-- src/command_parser.hpp and src/command_parser.cpp: the commands of the protocol, the role gate
-- and the state gate. The children parse requests and hold the proofs.
pub mod Json
pub mod Path
pub mod Request
pub mod Config
pub mod Names
mod Tests
use text.Mathlib.Text.{◌==◌ as str_eq}
use cherupi_v4l.Base.{Bool, Option, String, false, if◌then◌else◌, none, some, true, ◌||◌}
use cherupi_v4l.Types.{
  CameraState, ClientRole, ProcessMode, aruco, aruco2x2, batch, buffer, checkerboard,
  checkerboard2x2, commander, is_configured, is_idle, is_observer, is_running, none_mode, observer,
  trigger,
}

pub data CommandKind : Type 0 where
  discover get_state configure unconfigure set_process_mode trigger_capture start_cameras
        start_stream stop_stream stop_cameras reset_frame_counts set_header_only set_lens_position
        set_exposure_time set_frame_duration get_frame_duration_limits get_lens_position_limits
        get_focus_fom_region :
      CommandKind

-- The chain of comparisons in parseCommand.
unfoldable pub kind_of_name : String → Option CommandKind
kind_of_name cmd =
    if str_eq cmd "discover"
    then some discover
    else if str_eq cmd "get_state"
    then some get_state
    else if str_eq cmd "configure"
    then some configure
    else if str_eq cmd "unconfigure"
    then some unconfigure
    else if str_eq cmd "set_process_mode"
    then some set_process_mode
    else if str_eq cmd "trigger_capture"
    then some trigger_capture
    else if str_eq cmd "start_cameras"
    then some start_cameras
    else if str_eq cmd "start_stream"
    then some start_stream
    else if str_eq cmd "stop_stream"
    then some stop_stream
    else if str_eq cmd "stop_cameras"
    then some stop_cameras
    else if str_eq cmd "reset_frame_counts"
    then some reset_frame_counts
    else if str_eq cmd "set_header_only"
    then some set_header_only
    else if str_eq cmd "set_lens_position"
    then some set_lens_position
    else if str_eq cmd "set_exposure_time"
    then some set_exposure_time
    else if str_eq cmd "set_frame_duration"
    then some set_frame_duration
    else if str_eq cmd "get_frame_duration_limits"
    then some get_frame_duration_limits
    else if str_eq cmd "get_lens_position_limits"
    then some get_lens_position_limits
    else if str_eq cmd "get_focus_fom_region"
    then some get_focus_fom_region
    else none

unfoldable pub parse_process_mode : String → Option ProcessMode
parse_process_mode mode =
    if str_eq mode "none"
    then some none_mode
    else if str_eq mode "buffer"
    then some buffer
    else if str_eq mode "batch"
    then some batch
    else if str_eq mode "trigger"
    then some trigger
    else if str_eq mode "checkerboard"
    then some checkerboard
    else if str_eq mode "checkerboard2x2"
    then some checkerboard2x2
    else if str_eq mode "aruco"
    then some aruco
    else if str_eq mode "aruco2x2"
    then some aruco2x2
    else none

unfoldable pub is_command_permitted : CommandKind → ClientRole → Bool
is_command_permitted kind commander = true
is_command_permitted discover observer = true
is_command_permitted get_state observer = true
is_command_permitted start_stream observer = true
is_command_permitted stop_stream observer = true
is_command_permitted set_header_only observer = true
is_command_permitted get_frame_duration_limits observer = true
is_command_permitted get_lens_position_limits observer = true
is_command_permitted get_focus_fom_region observer = true
is_command_permitted configure observer = false
is_command_permitted unconfigure observer = false
is_command_permitted set_process_mode observer = false
is_command_permitted trigger_capture observer = false
is_command_permitted start_cameras observer = false
is_command_permitted stop_cameras observer = false
is_command_permitted reset_frame_counts observer = false
is_command_permitted set_lens_position observer = false
is_command_permitted set_exposure_time observer = false
is_command_permitted set_frame_duration observer = false

unfoldable pub is_command_allowed : CommandKind → CameraState → ClientRole → Bool
is_command_allowed discover current role = true
is_command_allowed get_state current role = true
is_command_allowed set_process_mode current role = true
is_command_allowed reset_frame_counts current role = true
is_command_allowed set_header_only current role = true
is_command_allowed configure current role = is_idle current
is_command_allowed unconfigure current role = is_configured current
is_command_allowed start_cameras current role = is_configured current
is_command_allowed start_stream current role = is_observer role || is_running current
is_command_allowed stop_stream current role = is_observer role || is_running current
is_command_allowed stop_cameras current role = is_running current
is_command_allowed trigger_capture current role = is_running current
is_command_allowed set_lens_position current role = is_configured current || is_running current
is_command_allowed set_exposure_time current role = is_configured current || is_running current
is_command_allowed set_frame_duration current role = is_configured current || is_running current
is_command_allowed get_frame_duration_limits current role =
    is_configured current || is_running current
is_command_allowed get_lens_position_limits current role =
    is_configured current || is_running current
is_command_allowed get_focus_fom_region current role = is_configured current || is_running current
