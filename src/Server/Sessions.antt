-- ===== src/Server/Sessions.antt =====
-- What keeps the server running: consistent sessions, and a detection thread that is joined.
use cherupi_v4l.Base.{arith, false, true, ◌≡◌, ◌≢◌}
use cherupi_v4l.Command.Json.{Json}
use cherupi_v4l.Command.Request.{StreamOptions}
use cherupi_v4l.Processor.{Processor}
use cherupi_v4l.Processor.Threads.{IsSameThread}
use cherupi_v4l.Server.State.{Client, Server, client_of, with_client}
use cherupi_v4l.Server.Streams.{stream_of}
use cherupi_v4l.Stream.Session.{IsConsistent}
use cherupi_v4l.Types.{ClientRole, commander, is_detector_mode, observer, running}

module _ {J : Json} where
  open J use {Value, Double}

  -- Both sessions are consistent; the detection thread is there only while the server runs, and in a
  -- detector mode.
  pub record IsAlive (s : Server J) : Type 0 where
    pub commander_session : IsConsistent s.commander_client.stream
    pub observer_session : IsConsistent s.observer_client.stream
    pub joined : s.system_state ≢ running → s.processor.detection_thread ≡ false
    pub own_mode :
        s.processor.detection_thread ≡ true → is_detector_mode s.processor.config.mode ≡ true

  pub client_session :
      (role : ClientRole) (s : Server J) → IsAlive s → IsConsistent (client_of J role s).stream
  unfolding client_of
  client_session commander s v = v.commander_session
  client_session observer s v = v.observer_session

  pub with_client-IsAlive :
      (role : ClientRole) (c : Client (StreamOptions Double)) (s : Server J)
      → IsConsistent c.stream
      → IsAlive s
      → IsAlive (with_client J role c s)
  unfolding with_client
  with_client-IsAlive commander c s k v = record {
    commander_session = k;
    observer_session = v.observer_session;
    joined = v.joined;
    own_mode = v.own_mode;
  }
  with_client-IsAlive observer c s k v = record {
    commander_session = v.commander_session;
    observer_session = k;
    joined = v.joined;
    own_mode = v.own_mode;
  }

  pub stream_of-IsConsistent :
      (role : ClientRole) (s : Server J) → IsAlive s → IsConsistent (stream_of J role s)
  stream_of-IsConsistent role s v =
      let k = client_session role s v in
      record {
        thread_matches = k.thread_matches;
        active_attached = k.active_attached;
        serves = k.serves;
        not_stopping = k.not_stopping;
      }

  -- The processor may change where its configuration and its detection thread do not.
  pub processor-IsAlive :
      (p : Processor Double) (s s' : Server J)
      → IsSameThread s.processor p
      → s'.processor ≡ p
      → s'.system_state ≡ s.system_state
      → s'.commander_client ≡ s.commander_client
      → s'.observer_client ≡ s.observer_client
      → IsAlive s
      → IsAlive s'
  processor-IsAlive p s s' same e f g h v = record {
    commander_session = rw g v.commander_session;
    observer_session = rw h v.observer_session;
    joined = ground (arith, same, v);
    own_mode = ground (arith, same, v);
  }
