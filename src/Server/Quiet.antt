-- ===== src/Server/Quiet.antt =====
-- What leaves the phase as it is: the settings, the streams, and what the clients do.
use cherupi_v4l.Base.{Option, arith, none, refl, some, ◌≡◌}
use cherupi_v4l.Camera.Settings.{set_exposure_time, set_frame_duration, set_lens_position}
use cherupi_v4l.Command.Json.{Json}
use cherupi_v4l.Manager.Fleet.{for_all}
use cherupi_v4l.Manager.Phase.{for_all-states}
use cherupi_v4l.Server.State.{
  Client, Outcome, Outputs, Server, Surroundings, error_reply, reply, with_client,
}
use cherupi_v4l.Types.{ClientRole, commander, observer}
use cherupi_v4l.Base.Int.{negsuc, pos, ℤ}
use cherupi_v4l.Camera.{Camera}
use cherupi_v4l.Command.Request.{StreamOptions}
use cherupi_v4l.Server.Controls.{
  handle_set_exposure_time, handle_set_frame_duration, handle_set_lens_position, number_field,
  set_duration_with, set_exposure_with, set_lens_with,
}
use cherupi_v4l.Server.Streams.{handle_start_stream, start_stream_with}
use cherupi_v4l.Server.Phase.{IsQuiet}

set_exposure_time-state :
    {D : Type 0} (z : ℤ) (c : Camera D) → (set_exposure_time z c).state ≡ c.state
unfolding set_exposure_time
set_exposure_time-state (negsuc n) c = refl
set_exposure_time-state (pos n) c = refl

module _ {J : Json} where
  open J use {Value, Double, number, to_float, to_int}

  pub with_client-IsQuiet :
      (role : ClientRole) (c : Client (StreamOptions Double)) (s : Server J)
      → IsQuiet s (with_client J role c s)
  unfolding with_client
  with_client-IsQuiet commander c s = ground arith
  with_client-IsQuiet observer c s = ground arith

  pub for_all-IsQuiet :
      (f : Camera Double → Camera Double) (s : Server J)
      → ((c : Camera Double) → (f c).state ≡ c.state)
      → IsQuiet s (record s { cameras = for_all f s.cameras })
  for_all-IsQuiet f s k = ground (arith, for_all-states f s.cameras k)

  set_lens_with-IsQuiet :
      (w : Surroundings J) (role : ClientRole) (o : Option Double) (s : Server J)
      (r : Server J × Outputs J)
      → set_lens_with J w role o s ≡ some r
      → IsQuiet s r.0
  unfolding set_lens_with set_lens_position
  set_lens_with-IsQuiet w role none s r h = ground arith
  set_lens_with-IsQuiet w role (some d) s r h =
      ground (arith, for_all-IsQuiet (set_lens_position w.below_zero (to_float d)) s (λ c. refl))

  set_exposure_with-IsQuiet :
      (role : ClientRole) (o : Option ℤ) (s : Server J) (r : Server J × Outputs J)
      → set_exposure_with J role o s ≡ some r
      → IsQuiet s r.0
  unfolding set_exposure_with
  set_exposure_with-IsQuiet role none s r h = ground arith
  set_exposure_with-IsQuiet role (some z) s r h =
      ground (arith, for_all-IsQuiet (set_exposure_time z) s (set_exposure_time-state z))

  set_duration_with-IsQuiet :
      (role : ClientRole) (o : Option ℤ) (s : Server J) (r : Server J × Outputs J)
      → set_duration_with J role o s ≡ some r
      → IsQuiet s r.0
  unfolding set_duration_with set_frame_duration
  set_duration_with-IsQuiet role none s r h = ground arith
  set_duration_with-IsQuiet role (some z) s r h =
      ground (arith, for_all-IsQuiet (set_frame_duration z) s (λ c. refl))

  -- An error reply where a field is missing, and otherwise what follows.
  field-IsQuiet :
      (role : ClientRole) (o : Option Value) (k : Value → Outcome J) (s : Server J)
      (r : Server J × Outputs J)
      → ((v : Value) → k v ≡ some r → IsQuiet s r.0)
      → elim o [ none ↦ reply J role error_reply s | some v ↦ k v ] ≡ some r
      → IsQuiet s r.0
  field-IsQuiet role none k s r q h = ground arith
  field-IsQuiet role (some v) k s r q h = q v h

  pub handle_set_lens_position-IsQuiet :
      (w : Surroundings J) (role : ClientRole) (m : Value) (s : Server J) (r : Server J × Outputs J)
      → handle_set_lens_position J w role m s ≡ some r
      → IsQuiet s r.0
  unfolding handle_set_lens_position
  handle_set_lens_position-IsQuiet w role m s r h = ground (
    arith,
    field-IsQuiet role (number_field J m "lens_position") (λ v. set_lens_with J w role (number v) s)
        s r (λ v g. set_lens_with-IsQuiet w role (number v) s r g),
  )

  pub handle_set_exposure_time-IsQuiet :
      (role : ClientRole) (m : Value) (s : Server J) (r : Server J × Outputs J)
      → handle_set_exposure_time J role m s ≡ some r
      → IsQuiet s r.0
  unfolding handle_set_exposure_time
  handle_set_exposure_time-IsQuiet role m s r h = ground (
    arith,
    field-IsQuiet role (number_field J m "exposure_time")
        (λ v. set_exposure_with J role (to_int v) s) s r
        (λ v g. set_exposure_with-IsQuiet role (to_int v) s r g),
  )

  pub handle_set_frame_duration-IsQuiet :
      (w : Surroundings J) (role : ClientRole) (m : Value) (s : Server J) (r : Server J × Outputs J)
      → handle_set_frame_duration J w role m s ≡ some r
      → IsQuiet s r.0
  unfolding handle_set_frame_duration
  handle_set_frame_duration-IsQuiet w role m s r h = ground (
    arith,
    field-IsQuiet role (number_field J m "frame_duration")
        (λ v. set_duration_with J role (w.to_int64 v) s) s r
        (λ v g. set_duration_with-IsQuiet role (w.to_int64 v) s r g),
  )

  pub handle_start_stream-IsQuiet :
      (role : ClientRole) (m : Value) (s : Server J) (r : Server J × Outputs J)
      → handle_start_stream J role m s ≡ some r
      → IsQuiet s r.0
  unfolding handle_start_stream start_stream_with with_client
  handle_start_stream-IsQuiet role m s r h = ground arith
