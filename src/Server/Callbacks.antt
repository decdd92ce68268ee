-- ===== src/Server/Callbacks.antt =====
-- The callbacks other than a message leave the phase as it is.
use cherupi_v4l.Base.{List, Option, [], arith, none, refl, some, suc, zero, ℕ, ◌∷◌, ◌≡◌}
use cherupi_v4l.Command.Json.{Json}
use cherupi_v4l.Manager.Phase.{poll_stalled-states, states}
use cherupi_v4l.Server.State.{Outputs, Server, with_client}
use cherupi_v4l.Types.{ClientRole, FrameData}
use cherupi_v4l.Camera.{Camera}
use cherupi_v4l.Server.Loop.{on_close, on_open, on_tick}
use cherupi_v4l.Server.Phase.{IsQuiet}
use cherupi_v4l.Camera.Capture.{
  Completion, feed_watchdog, on_request_complete, publish_frame, requeue,
}
use cherupi_v4l.Server.Events.{complete_at, deliver_frame, on_complete}

module _ {D : Type 0} where
  on_request_complete-state :
      (now : ℕ) (a : Completion) (c : Camera D) → (on_request_complete now a c).0.state ≡ c.state
  unfolding on_request_complete requeue publish_frame feed_watchdog
  on_request_complete-state now a c = ground arith

  complete_at-states :
      (i now : ℕ) (a : Completion) (cs : List (Camera D))
      → states (complete_at i now a cs).0 ≡ states cs
  unfolding complete_at states
  complete_at-states i now a [] = refl
  complete_at-states zero now a (c ∷ cs) = ground (arith, on_request_complete-state now a c)
  complete_at-states (suc i) now a (c ∷ cs) = ground (arith, complete_at-states i now a cs)

module _ {J : Json} where
  open J use {Value, Double, number, to_float, to_int}

  deliver_frame-IsQuiet : (o : Option FrameData) (s : Server J) → IsQuiet s (deliver_frame J o s)
  unfolding deliver_frame
  deliver_frame-IsQuiet none s = ground arith
  deliver_frame-IsQuiet (some f) s = ground arith

  pub on_complete-IsQuiet :
      (i now : ℕ) (a : Completion) (s : Server J) → IsQuiet s (on_complete J i now a s)
  unfolding on_complete
  on_complete-IsQuiet i now a s = ground (
    arith,
    complete_at-states i now a s.cameras,
    deliver_frame-IsQuiet (complete_at i now a s.cameras).1
        (record s { cameras = (complete_at i now a s.cameras).0 }),
  )

  pub on_tick-IsQuiet :
      (now : ℕ) (s : Server J) (r : Server J × Outputs J) → on_tick J now s ≡ some r → IsQuiet s r.0
  unfolding on_tick
  on_tick-IsQuiet now s r h = ground (arith, poll_stalled-states now s.cameras)

  pub on_open-IsQuiet :
      (role : ClientRole) (s : Server J) (r : Server J × Outputs J)
      → on_open J role s ≡ some r
      → IsQuiet s r.0
  unfolding on_open with_client
  on_open-IsQuiet role s r h = ground arith

  pub on_close-IsQuiet :
      (role : ClientRole) (s : Server J) (r : Server J × Outputs J)
      → on_close J role s ≡ some r
      → IsQuiet s r.0
  unfolding on_close with_client
  on_close-IsQuiet role s r h = ground arith
