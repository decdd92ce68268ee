-- ===== src/Server/Endurance.antt =====
-- The server survives its events, as long as the process mode is not changed while it runs.
use cherupi_v4l.Base.{List, [], some, true, ◌∷◌, ◌≡◌, ◌≢◌}
use cherupi_v4l.Command.{set_process_mode}
use cherupi_v4l.Command.Json.{Json}
use cherupi_v4l.Server.State.{Outputs, Server, Surroundings}
use cherupi_v4l.Types.{running}
use cherupi_v4l.Server.Loop.{is_answerable}
use cherupi_v4l.Server.Events.{ServerEvent, received, serve}
use cherupi_v4l.Server.Refinement.{commanded}
use cherupi_v4l.Stream.Session.{Session}

module _ {J : Json} where
  open J use {Value, Double}

  -- The message that an event brings, if any, is one whose error reply can be dumped.
  abbrev Answerable : Surroundings J → ServerEvent → Type 0
  Answerable w (received role is_text raw) = is_text ≡ true → is_answerable J w raw ≡ true
  Answerable w e = Unit

  -- Along the events the process mode is never changed while the server runs, and every message has an
  -- error reply that can be dumped.
  unfoldable pub IsOrderly : Surroundings J → List ServerEvent → Server J → Type 0
  IsOrderly w [] s = Unit {0}
  IsOrderly w (e ∷ es) s =
      Answerable w e
      × (commanded e s ≡ some set_process_mode → s.system_state ≢ running)
      × ((r : Server J × Outputs J) → serve J w e s ≡ some r → IsOrderly w es r.0)
