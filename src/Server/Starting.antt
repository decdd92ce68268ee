-- ===== src/Server/Starting.antt =====
-- What starts and stops the processor ends in no std::terminate.
use cherupi_v4l.Processor.Lifecycle.{start as start_processor, configure as configure_processor}
use cherupi_v4l.Base.{
  Bool-cases, Option, [], arith, if◌then◌else◌, inl, inr, none, refl, some, true, ◌∷◌, ◌≡◌, ◌≢◌,
}
use cherupi_v4l.Command.{is_command_allowed}
use cherupi_v4l.Command.Json.{Json}
use cherupi_v4l.Processor.{Processor}
use cherupi_v4l.Processor.Threads.{flush_buffered_frames-IsSameThread}
use cherupi_v4l.Processor.Joining.{start-runs, stop-joins}
use cherupi_v4l.Processor.Writer.{flush_buffered_frames}
use cherupi_v4l.Server.Cameras.{
  handle_set_process_mode, handle_start_cameras, handle_stop_cameras, start_with, stopped_processor,
}
use cherupi_v4l.Server.Sessions.{IsAlive}
use cherupi_v4l.Server.State.{
  Outcome, Outputs, Server, Surroundings, error_reply, reply, status_reply,
}
use cherupi_v4l.Stream.Session.{stop_all_streaming-IsConsistent}
use cherupi_v4l.Types.{ClientRole, configured, is_buffer, is_configured, is_detector_mode, running}
use cherupi_v4l.Command.Config.{ProcessConfig, build_process_config}
use cherupi_v4l.Processor.OutputDir.{FileSystem}
use cherupi_v4l.Base.Result.{Result, err, ok}

configure-same :
    {D : Type 0} (fs : FileSystem) (c : ProcessConfig D) (p : Processor D)
    → (configure_processor fs c p).detection_thread ≡ p.detection_thread
unfolding configure_processor
configure-same fs c p = ground arith

module _ {J : Json} where
  open J use {Value, Double}

  -- The outcome is no std::terminate, and leads to a server that is alive.
  unfoldable pub Survives : Outcome J → Type 0
  Survives o = (r : Server J × Outputs J) × (o ≡ some r) × IsAlive r.0

  pub survived :
      (o : Outcome J)
      → o ≢ none
      → ((r : Server J × Outputs J) → o ≡ some r → IsAlive r.0)
      → Survives o
  unfolding Survives
  survived none n k = absurd (n refl)
  survived (some r) n k = (r, refl, k r refl)

  start_with-IsAlive :
      (w : Surroundings J) (role : ClientRole) (p : Processor Double) (s : Server J)
      (r : Server J × Outputs J)
      → s.system_state ≡ configured
      → (p.detection_thread ≡ true → is_detector_mode p.config.mode ≡ true)
      → IsAlive s
      → start_with J w role p s ≡ some r
      → IsAlive r.0
  unfolding start_with
  start_with-IsAlive w role p s r c m v h = ground (arith, stop-joins w.detectors w.writes p m)

  started-IsAlive :
      (w : Surroundings J) (role : ClientRole) (o : Option (Processor Double))
      (p : Processor Double) (s : Server J) (r : Server J × Outputs J)
      → o ≡ some p
      → s.system_state ≡ configured
      → (p.detection_thread ≡ true → is_detector_mode p.config.mode ≡ true)
      → IsAlive s
      → elim o [ none ↦ none | some q ↦ start_with J w role q s ] ≡ some r
      → IsAlive r.0
  started-IsAlive w role none p s r e c m v h = cc
  started-IsAlive w role (some q) p s r e c m v h =
      start_with-IsAlive w role q s r c (ground (arith, e, m)) v h

  started-some :
      (w : Surroundings J) (role : ClientRole) (o : Option (Processor Double))
      (p : Processor Double) (s : Server J)
      → o ≡ some p
      → elim o as (λ x. Outcome J) [ none ↦ none | some q ↦ start_with J w role q s ] ≢ none
  unfolding start_with
  started-some w role none p s e = cc
  started-some w role (some q) p s e = ground arith

  pub handle_start_cameras-Survives :
      (w : Surroundings J) (role : ClientRole) (s : Server J)
      → IsAlive s
      → Survives (handle_start_cameras J w role s)
  unfolding handle_start_cameras is_command_allowed Survives
  handle_start_cameras-Survives w role s v = elim (Bool-cases (is_configured s.system_state)) [
    | inl e ↦
        let (p, q, m) = start-runs w.mem_available s.processor (ground (arith, v, e)) in
        survived (handle_start_cameras J w role s)
          (ground
            (arith, e, started-some w role (start_processor w.mem_available s.processor) p s q))
          (λ r h. ground (
            arith,
            e,
            started-IsAlive w role (start_processor w.mem_available s.processor) p s r q
                (ground (arith, e)) m v,
            h,
          ))
    | inr e ↦ ((s, (role, error_reply) ∷ []), ground (arith, e), v)
  ]

  pub handle_stop_cameras-Survives :
      (w : Surroundings J) (role : ClientRole) (s : Server J)
      → IsAlive s
      → Survives (handle_stop_cameras J w role s)
  unfolding handle_stop_cameras stopped_processor
  handle_stop_cameras-Survives w role s v =
      let p =
        if is_buffer s.processor.config.mode
        then flush_buffered_frames w.opens s.processor
        else s.processor in
      survived (handle_stop_cameras J w role s) (ground arith) (λ r h. ground (
        arith,
        v,
        h,
        stop_all_streaming-IsConsistent s.commander_client.stream v.commander_session,
        flush_buffered_frames-IsSameThread w.opens s.processor,
        stop-joins w.detectors w.writes p,
      ))

  processed-Survives :
      (w : Surroundings J) (role : ClientRole) (o : Result (Option (ProcessConfig Double)))
      (s : Server J)
      → s.system_state ≢ running
      → IsAlive s
      → Survives (elim o [
        | err e ↦ reply J role error_reply s
        | ok none ↦ reply J role error_reply s
        | ok (some cfg) ↦
            reply J role status_reply
              (record s { processor = configure_processor w.file_system cfg s.processor })
      ])
  unfolding Survives
  processed-Survives w role (err e) s n v = ((s, (role, error_reply) ∷ []), refl, v)
  processed-Survives w role (ok none) s n v = ((s, (role, error_reply) ∷ []), refl, v)
  processed-Survives w role (ok (some cfg)) s n v = (
    (
      record s { processor = configure_processor w.file_system cfg s.processor },
      (role, status_reply) ∷ [],
    ),
    refl,
    ground (arith, v, v.joined n, configure-same w.file_system cfg s.processor),
  )

  pub handle_set_process_mode-Survives :
      (w : Surroundings J) (role : ClientRole) (m : Value) (s : Server J)
      → s.system_state ≢ running
      → IsAlive s
      → Survives (handle_set_process_mode J w role m s)
  unfolding handle_set_process_mode
  handle_set_process_mode-Survives w role m s n v =
      processed-Survives w role (build_process_config J m) s n v
