-- ===== src/Server/Phase.antt =====
-- The phase of the server: what its state says of the cameras and of the watchdog.
use cherupi_v4l.Base.{arith, false, sym, true, ◌∙◌, ◌≡◌, ◌≢◌}
use cherupi_v4l.Command.Json.{Json}
use cherupi_v4l.Manager.Fleet.{any_running}
use cherupi_v4l.Manager.Phase.{Ready, states, states-Ready, states-any}
use cherupi_v4l.Server.State.{Server}
use cherupi_v4l.Types.{configured, error, idle, running}

module _ {J : Json} where
  open J use {Value, Double, number, to_float, to_int}

  -- The cameras and the watchdog are as the state says.
  pub record IsInPhase (s : Server J) : Type 0 where
    pub no_error : s.system_state ≢ error
    pub when_idle :
        s.system_state ≡ idle → (any_running s.cameras ≡ false) × (s.watchdog_running ≡ false)
    pub when_configured :
        s.system_state ≡ configured → Ready configured s.cameras × (s.watchdog_running ≡ false)
    pub when_running :
        s.system_state ≡ running → Ready running s.cameras × (s.watchdog_running ≡ true)

  -- What keeps the state, the states of the cameras and the watchdog.
  pub record IsQuiet (s s' : Server J) : Type 0 where
    pub same_state : s'.system_state ≡ s.system_state
    pub same_watchdog : s'.watchdog_running ≡ s.watchdog_running
    pub same_cameras : states s'.cameras ≡ states s.cameras

  pub IsQuiet-IsInPhase : (s s' : Server J) → IsQuiet s s' → IsInPhase s → IsInPhase s'
  IsQuiet-IsInPhase s s' q v =
      let same = states-any s.cameras s'.cameras q.same_cameras in
      record {
        no_error = rw q.same_state v.no_error;
        when_idle = ground (arith, q, v, same);
        when_configured = λ h. (
          states-Ready configured s.cameras s'.cameras q.same_cameras
              (v.when_configured (sym q.same_state ∙ h)).0,
          q.same_watchdog ∙ (v.when_configured (sym q.same_state ∙ h)).1,
        );
        when_running = λ h. (
          states-Ready running s.cameras s'.cameras q.same_cameras
              (v.when_running (sym q.same_state ∙ h)).0,
          q.same_watchdog ∙ (v.when_running (sym q.same_state ∙ h)).1,
        );
      }
