-- ===== src/Server/Tests.antt =====
-- The server at concrete states, with a small document type for the JSON library.
-- A message is its command, without parameters.
use text.Mathlib.Text.{◌==◌ as str_eq}
use cherupi_v4l.Processor.Tests.{disk, no_detectors, processor_of}
use cherupi_v4l.Base.{
  Bool, List, Option, String, [], arith, false, if◌then◌else◌, leb, ltb, none, refl, some, true, ℕ,
  ◌*◌, ◌==◌, ◌||◌, ◌∷◌, ◌≡◌,
}
use cherupi_v4l.Base.Int.{pos}
use cherupi_v4l.Camera.Setup.{
  SetupAnswers, adjust, all_ready, buffer_ready, commit, configure_camera, finds_mode, fresh_camera,
  fresh_setting, has_raw, is_invalid, note_sensor_mode, release_configured_resources, setup,
  unconfigure_camera, valid,
}
use cherupi_v4l.Command.{is_command_allowed, is_command_permitted, kind_of_name}
use cherupi_v4l.Command.Json.{Json}
use cherupi_v4l.Command.Request.{StreamOptions}
use cherupi_v4l.Manager.Discover.{
  contains, discover_cameras, is_match, is_prefix, lower_all, number_matches, to_lower,
}
use cherupi_v4l.Manager.Fleet.{any_running, configure_all, configure_each, unconfigure_all}
use cherupi_v4l.Processor.Lifecycle.{codes}
use cherupi_v4l.Processor.OutputDir.{is_nil}
use cherupi_v4l.Server.Cameras.{
  configure_with, handle_configure, handle_discover, handle_unconfigure, params_of,
}
use cherupi_v4l.Server.Events.{ServerEvent, opened, received, serve, serve_all}
use cherupi_v4l.Server.Loop.{
  command_text, dispatch, gate, handle, on_message, on_open, parse_command,
}
use cherupi_v4l.Server.State.{
  Client, Outcome, Outputs, Server, Surroundings, broadcast_state, client_of, other_role,
  push_state_to, state_message, with_client,
}
use cherupi_v4l.Stream.Session.{Session, has_subscription, set_sink}
use cherupi_v4l.Types.{commander, configured, idle, none_mode, observer}
use cherupi_v4l.Command.Config.{build_camera_config, build_sensor_filter}
use cherupi_v4l.Manager.Phase.{Ready}
use cherupi_v4l.Manager.Uniform.{any_configured}
use cherupi_v4l.Server.Answers.{IsAnswered}
use cherupi_v4l.Server.Replies.{on_message-IsAnswered}
use cherupi_v4l.Server.Invariant.{serve_all-IsInPhase}
use cherupi_v4l.Server.Phase.{IsInPhase}
use cherupi_v4l.Server.Privilege.{IsUntouched, on_message-IsUntouched}
use cherupi_v4l.Server.Refinement.{Follows, commanded, serve-Follows}
use cherupi_v4l.Server.Wedge.{IsWedged, serve_all-IsWedged}

data Packet : Type 0 where
  message_of text_of : String → Packet

abbrev packet_field : Packet → String → Option Packet
packet_field (message_of cmd) key = if str_eq key "cmd" then some (text_of cmd) else none
packet_field other key = none

abbrev packet_string : Packet → Option String
packet_string (text_of s) = some s
packet_string other = none

abbrev packets : Json
packets = record {
  Value = Packet;
  Double = ℕ;
  parse = λ s. some (message_of s);
  field = packet_field;
  string = packet_string;
  boolean = λ v. none;
  integer = λ v. none;
  unsigned = λ v. none;
  number = λ v. none;
  to_int = λ v. none;
  to_size = λ v. none;
  to_u32 = λ v. none;
  le = leb;
  lt = ltb;
  of_ℕ = λ n. n;
  to_float = λ n. n;
  gamma_default = 2;
}

abbrev new_stream : Session (StreamOptions ℕ)
new_stream = record {
  camera_count = 0;
  sink_attached = false;
  subscriptions = [];
  streaming_active = false;
  should_stop_loop = false;
  thread_joinable = false;
  transfer_camera = none;
  transfer_in_progress = false;
  under_pressure = false;
  pressure_since = 0;
}

abbrev new_client : Client (StreamOptions ℕ)
new_client = record {
  connected = false;
  attached = false;
  in_backpressure = false;
  stream = new_stream;
  header_only = false;
  hears_trigger = false;
}

abbrev new_server : Server packets
new_server = record {
  system_state = idle;
  cameras = [];
  processor = processor_of none_mode;
  callback_set = false;
  watchdog_running = false;
  commander_client = new_client;
  observer_client = new_client;
}

abbrev good_setup : SetupAnswers
good_setup = record {
  acquires = true;
  generates = true;
  raw_formats = none;
  status = valid;
  raw_size = (2328, 1748);
  configures = true;
  allocates = true;
  allocates_raw = true;
  buffers = [];
}

-- Two cameras, of which the second may refuse to be configured.
abbrev world : Bool → Surroundings packets
world second = record {
  empty_object = text_of "";
  to_int64 = λ v. none;
  is_finite = λ d. true;
  below_zero = λ d. false;
  dumps_error = λ raw. true;
  manager_starts = true;
  models = some (codes "imx519") ∷ some (codes "IMX519") ∷ [];
  sets_up = λ i. record good_setup { acquires = (i == 0) || second };
  start_answers = λ i. record { starts_up = true; queues_all = true };
  start_times = λ i. 0;
  hw_min_duration = pos 0;
  lasts_two_seconds = λ budget rate. leb (2 * rate) budget;
  mem_available = 0;
  disk_rate = 0;
  file_system = disk;
  opens = λ n. true;
  writes = record { can_write = λ t. true; finishing = λ ts. ts };
  detectors = no_detectors;
}

-- The server that an outcome leads to.
abbrev then_server : Option (Server packets) → Server packets
then_server none = new_server
then_server (some s) = s

abbrev then_result : Outcome packets → Server packets × Outputs packets
then_result none = (new_server, [])
then_result (some r) = r

abbrev start_up : List ServerEvent
start_up =
    opened commander ∷ received commander true "discover" ∷ received commander true "configure" ∷ []

start_up-runs :
    serve_all packets (world true) start_up new_server
    ≡ some (then_server (serve_all packets (world true) start_up new_server))
unfolding serve_all serve on_open set_sink client_of with_client push_state_to on_message dispatch
    gate parse_command command_text kind_of_name is_command_permitted handle handle_discover
    discover_cameras params_of number_matches is_match contains lower_all to_lower is_prefix
    fresh_camera fresh_setting other_role has_subscription is_command_allowed handle_configure
    configure_with configure_all configure_each any_running configure_camera setup commit
    release_configured_resources all_ready buffer_ready is_nil finds_mode is_invalid has_raw adjust
    note_sensor_mode broadcast_state state_message build_camera_config build_sensor_filter
start_up-runs = refl

start_up-configured :
    (then_server (serve_all packets (world true) start_up new_server)).system_state ≡ configured
unfolding serve_all serve on_open set_sink client_of with_client push_state_to on_message dispatch
    gate parse_command command_text kind_of_name is_command_permitted handle handle_discover
    discover_cameras params_of number_matches is_match contains lower_all to_lower is_prefix
    fresh_camera fresh_setting other_role has_subscription is_command_allowed handle_configure
    configure_with configure_all configure_each any_running configure_camera setup commit
    release_configured_resources all_ready buffer_ready is_nil finds_mode is_invalid has_raw adjust
    note_sensor_mode broadcast_state state_message build_camera_config build_sensor_filter
start_up-configured = refl

new_server-IsInPhase : IsInPhase new_server
unfolding any_running Ready
new_server-IsInPhase = ground arith

serve_all-IsInPhase_example :
    IsInPhase (then_server (serve_all packets (world true) start_up new_server))
serve_all-IsInPhase_example =
    serve_all-IsInPhase (world true) start_up new_server
      (then_server (serve_all packets (world true) start_up new_server)) new_server-IsInPhase
      start_up-runs

-- Both clients are connected, and there are two cameras.
abbrev ready_server : Server packets
ready_server = record new_server {
  cameras = fresh_camera 0 ∷ fresh_camera 1 ∷ [];
  commander_client = record new_client { connected = true; attached = true };
  observer_client = record new_client { connected = true; attached = true };
}

abbrev wants_configure : ServerEvent
wants_configure = received commander true "configure"

configure-runs :
    serve packets (world true) wants_configure ready_server
    ≡ some (then_result (serve packets (world true) wants_configure ready_server))
unfolding serve_all serve on_open set_sink client_of with_client push_state_to on_message dispatch
    gate parse_command command_text kind_of_name is_command_permitted handle handle_discover
    discover_cameras params_of number_matches is_match contains lower_all to_lower is_prefix
    fresh_camera fresh_setting other_role has_subscription is_command_allowed handle_configure
    configure_with configure_all configure_each any_running configure_camera setup commit
    release_configured_resources all_ready buffer_ready is_nil finds_mode is_invalid has_raw adjust
    note_sensor_mode broadcast_state state_message build_camera_config build_sensor_filter
configure-runs = refl

serve-Follows_example :
    Follows
      (commanded wants_configure ready_server)
      idle
      (then_result (serve packets (world true) wants_configure ready_server)).0.system_state
serve-Follows_example =
    serve-Follows (world true) wants_configure ready_server
      (then_result (serve packets (world true) wants_configure ready_server)) configure-runs

abbrev observer_asks : Outcome packets
observer_asks = on_message packets (world true) observer true "discover" ready_server

observer_asks-runs : observer_asks ≡ some (then_result observer_asks)
unfolding serve_all serve on_open set_sink client_of with_client push_state_to on_message dispatch
    gate parse_command command_text kind_of_name is_command_permitted handle handle_discover
    discover_cameras params_of number_matches is_match contains lower_all to_lower is_prefix
    fresh_camera fresh_setting other_role has_subscription is_command_allowed handle_configure
    configure_with configure_all configure_each any_running configure_camera setup commit
    release_configured_resources all_ready buffer_ready is_nil finds_mode is_invalid has_raw adjust
    note_sensor_mode broadcast_state state_message build_camera_config build_sensor_filter
observer_asks-runs = refl

on_message-IsUntouched_example : IsUntouched ready_server (then_result observer_asks).0
on_message-IsUntouched_example =
    on_message-IsUntouched (world true) true "discover" ready_server (then_result observer_asks)
      observer_asks-runs

on_message-IsAnswered_example :
    IsAnswered observer (then_result observer_asks).0 (then_result observer_asks).1
on_message-IsAnswered_example =
    on_message-IsAnswered (world true) observer true "discover" ready_server
      (then_result observer_asks) observer_asks-runs

-- The second camera cannot be configured the first time.
abbrev wedged : Server packets
wedged = (then_result (serve packets (world false) wants_configure ready_server)).0

wedged-IsWedged : IsWedged wedged
unfolding serve_all serve on_open set_sink client_of with_client push_state_to on_message dispatch
    gate parse_command command_text kind_of_name is_command_permitted handle handle_discover
    discover_cameras params_of number_matches is_match contains lower_all to_lower is_prefix
    fresh_camera fresh_setting other_role has_subscription is_command_allowed handle_configure
    configure_with configure_all configure_each any_running configure_camera setup commit
    release_configured_resources all_ready buffer_ready is_nil finds_mode is_invalid has_raw adjust
    note_sensor_mode broadcast_state state_message build_camera_config build_sensor_filter
    any_configured
wedged-IsWedged = record { still_idle = refl; has_configured = refl }

abbrev retries : List ServerEvent
retries = wants_configure ∷ received commander true "unconfigure" ∷ wants_configure ∷ []

abbrev after_retries : Server packets
after_retries = then_server (serve_all packets (world true) retries wedged)

retries-run : serve_all packets (world true) retries wedged ≡ some after_retries
unfolding serve_all serve on_open set_sink client_of with_client push_state_to on_message dispatch
    gate parse_command command_text kind_of_name is_command_permitted handle handle_discover
    discover_cameras params_of number_matches is_match contains lower_all to_lower is_prefix
    fresh_camera fresh_setting other_role has_subscription is_command_allowed handle_configure
    configure_with configure_all configure_each any_running configure_camera setup commit
    release_configured_resources all_ready buffer_ready is_nil finds_mode is_invalid has_raw adjust
    note_sensor_mode broadcast_state state_message build_camera_config build_sensor_filter
    handle_unconfigure unconfigure_all unconfigure_camera
retries-run = refl

serve_all-IsWedged_example : IsWedged after_retries
serve_all-IsWedged_example =
    serve_all-IsWedged (world true) retries wedged after_retries wedged-IsWedged retries-run

abbrev prepares : List ServerEvent
prepares = received commander true "set_process_mode" ∷ wants_configure ∷ []
