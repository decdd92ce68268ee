-- ===== src/Server/State.antt =====
-- The state of WebSocketServer, what it sends, and what surrounds it.
-- ClientSession; `attached` says whether `sink` is set, and `in_backpressure` is of UwsSocketData.
use cherupi_v4l.Base.{
  Bool, List, Option, String, [], drop, if◌then◌else◌, length, some, ℕ, ◌++◌, ◌∷◌,
}
use cherupi_v4l.Base.Int.{ℤ}
use cherupi_v4l.Camera.{Camera}
use cherupi_v4l.Camera.Capture.{StartAnswers}
use cherupi_v4l.Camera.Setup.{SetupAnswers}
use cherupi_v4l.Command.Json.{Json}
use cherupi_v4l.Command.Request.{StreamOptions}
use cherupi_v4l.Processor.{Processor, TriggerResult}
use cherupi_v4l.Processor.Detection.{Detectors}
use cherupi_v4l.Processor.OutputDir.{FileSystem}
use cherupi_v4l.Stream.Session.{Session}
use cherupi_v4l.Types.{CameraState, ClientRole, commander, observer}
use cherupi_v4l.Processor.Writer.{Writers}

pub record Client (O : Type 0) : Type 0 where
  pub connected : Bool
  pub attached : Bool
  pub in_backpressure : Bool
  pub stream : Session O
  pub header_only : Bool
  pub hears_trigger : Bool  -- the callback of the pending trigger holds this connection's sink

pub data Cause : Type 0 where
  query configure_cause unconfigure_cause start_cause stop_cause commander_came commander_went
        observer_came observer_went :
      Cause

-- The messages of the protocol. `capture_timeout` is the report on a stalled camera.
pub data Message : Type 0 where
  discovery : ℕ → Message
  -- state, cause, recipient, commander_connected, observer_connected
  state_report : CameraState → Cause → ClientRole → Bool → Bool → Message
  status_reply error_reply forbidden_reply : Message
  -- frames_saved, bytes_written, frames_dropped_backlog
  stopped_reply : ℕ → ℕ → ℕ → Message
  duration_limits lens_limits fom_report : Message
  capture_timeout : ℕ → Message
  trigger_result : TriggerResult → Message

module _ (J : Json) where
  open J use {Value, Double}

  pub record Server : Type 0 where
    pub system_state : CameraState
    pub cameras : List (Camera Double)
    pub processor : Processor Double
    pub callback_set : Bool  -- the cameras hand their frames to the processor
    pub watchdog_running : Bool
    pub commander_client : Client (StreamOptions Double)
    pub observer_client : Client (StreamOptions Double)

  -- What libcamera, the file system, the clock, the detectors and the JSON library answer.
  pub record Surroundings : Type 0 where
    pub empty_object : Value
    pub to_int64 : Value → Option ℤ
    pub is_finite : Double → Bool
    pub below_zero : Double → Bool
    -- Whether dump() accepts the text of the parse error of a message. The text quotes the message up
    -- to the byte that does not parse, and dump() throws where it is not valid UTF-8.
    pub dumps_error : String → Bool
    pub manager_starts : Bool
    pub models : List (Option (List ℕ))
    pub sets_up : ℕ → SetupAnswers
    pub start_answers : ℕ → StartAnswers
    pub start_times : ℕ → ℕ
    pub hw_min_duration : ℤ
    pub lasts_two_seconds : ℕ → ℕ → Bool  -- whether a number of bytes lasts that long at a rate
    pub mem_available : ℕ
    pub disk_rate : ℕ
    pub file_system : FileSystem
    pub opens : List ℕ → Bool
    pub writes : Writers
    pub detectors : Detectors Double

  -- What goes out, and to whom.
  abbrev pub Outputs : Type 0
  Outputs = List (ClientRole × Message)

  -- `none` is std::terminate.
  abbrev pub Outcome : Type 0
  Outcome = Option (Server × Outputs)

  unfoldable pub client_of : ClientRole → Server → Client (StreamOptions Double)
  client_of commander s = s.commander_client
  client_of observer s = s.observer_client

  unfoldable pub with_client : ClientRole → Client (StreamOptions Double) → Server → Server
  with_client commander c s = record s { commander_client = c }
  with_client observer c s = record s { observer_client = c }

  abbrev pub reply : ClientRole → Message → Server → Outcome
  reply role m s = some (s, (role, m) ∷ [])

  unfoldable pub state_message : ClientRole → Cause → Server → Message
  state_message recipient cause s =
      state_report s.system_state cause recipient s.commander_client.connected
        s.observer_client.connected

  unfoldable pub push_state_to : ClientRole → Cause → Server → Outputs
  push_state_to role cause s =
      if (client_of role s).attached then (role, state_message role cause s) ∷ [] else []

  unfoldable pub broadcast_state : Cause → Server → Outputs
  broadcast_state cause s = push_state_to commander cause s ++ push_state_to observer cause s

  -- The reply, and then the broadcast.
  abbrev pub reply_and_broadcast : ClientRole → Message → Cause → Server → Outcome
  reply_and_broadcast role m cause s = some (s, (role, m) ∷ broadcast_state cause s)

unfoldable pub result_messages : List TriggerResult → List (ClientRole × Message)
result_messages [] = []
result_messages (r ∷ rs) = (commander, trigger_result r) ∷ result_messages rs

module _ (J : Json) where
  open J use {Double}

  -- What the callback of the trigger sends for the results that the processor has handed out since it
  -- was `before`. Only a commander can arm a trigger.
  unfoldable pub trigger_results : Processor Double → Server J → Outputs J
  trigger_results before s =
      if s.commander_client.hears_trigger
      then result_messages (drop (length before.acks) s.processor.acks)
      else []

-- otherRole
unfoldable pub other_role : ClientRole → ClientRole
other_role commander = observer
other_role observer = commander
