-- ===== src/Server/Events.antt =====
-- What reaches WebSocketServer, as explicit events: the callbacks of its event loop, a tick of the
-- watchdog, a request that libcamera completes, and a step of the frame processor's threads. A
-- message, a close and a drain come from an open connection only.
use cherupi_v4l.Base.{Bool, List, Option, String, [], if◌then◌else◌, none, some, suc, zero, ℕ, ◌∷◌}
use cherupi_v4l.Camera.{Camera}
use cherupi_v4l.Camera.Capture.{Completion, on_request_complete}
use cherupi_v4l.Command.Json.{Json}
use cherupi_v4l.Processor.Save.{save_frame}
use cherupi_v4l.Processor.Session.{Event, step}
use cherupi_v4l.Server.Loop.{on_close, on_drain, on_message, on_open, on_tick}
use cherupi_v4l.Server.State.{
  Outcome, Server, Surroundings, client_of, trigger_results, with_client,
}
use cherupi_v4l.Types.{ClientRole, FrameData}

-- `completes i` is a request of the camera at place i.
pub data ServerEvent : Type 0 where
  received : ClientRole → Bool → String → ServerEvent
  opened closed : ClientRole → ServerEvent
  drained : ClientRole → ℕ → ℕ → ServerEvent
  completes : ℕ → ℕ → Completion → ServerEvent
  ticks : ℕ → ServerEvent
  works : Event → ServerEvent

module _ {D : Type 0} where
  unfoldable pub complete_at :
      ℕ → ℕ → Completion → List (Camera D) → List (Camera D) × Option FrameData
  complete_at i now r [] = ([], none)
  complete_at zero now r (c ∷ cs) =
      let (c', frame) = on_request_complete now r c in (c' ∷ cs, frame)
  complete_at (suc i) now r (c ∷ cs) = let (cs', frame) = complete_at i now r cs in (c ∷ cs', frame)

module _ (J : Json) where
  open J use {Double}

  -- The frame goes to the processor where the callback is set.
  unfoldable pub deliver_frame : Option FrameData → Server J → Server J
  deliver_frame none s = s
  deliver_frame (some f) s =
      if s.callback_set then record s { processor = save_frame s.processor f } else s

  unfoldable pub on_complete : ℕ → ℕ → Completion → Server J → Server J
  on_complete i now r s =
      let (cs, frame) = complete_at i now r s.cameras in
      deliver_frame frame (record s { cameras = cs })

  abbrev pub drain : ClientRole → ℕ → ℕ → Server J → Outcome J
  drain role buffered now s =
      some (with_client J role (on_drain J buffered now (client_of J role s)) s, [])

  unfoldable pub serve : Surroundings J → ServerEvent → Server J → Outcome J
  serve w (received role is_text raw) s =
      if (client_of J role s).connected then on_message J w role is_text raw s else some (s, [])
  serve w (opened role) s = on_open J role s
  serve w (closed role) s =
      if (client_of J role s).connected then on_close J role s else some (s, [])
  serve w (drained role buffered now) s =
      if (client_of J role s).connected then drain role buffered now s else some (s, [])
  serve w (completes i now r) s =
      let s' = on_complete i now r s in some (s', trigger_results J s.processor s')
  serve w (ticks now) s = on_tick J now s
  serve w (works e) s =
      let s' = record s { processor = step w.detectors e s.processor } in
      some (s', trigger_results J s.processor s')

  unfoldable pub serve_all : Surroundings J → List ServerEvent → Server J → Option (Server J)
  serve_all w [] s = some s
  serve_all w (e ∷ es) s = elim (serve w e s) [ none ↦ none | some (s', out) ↦ serve_all w es s' ]
