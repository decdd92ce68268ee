-- ===== src/Stream/Session.antt =====
-- The life of a streaming session: setSink, clearSink, startStreamingCamera, stopStreamingCamera,
-- stopAllStreaming and cleanupTransfer of src/stream_manager.cpp. They run on the server's event
-- loop. `thread_joinable` says whether `streaming_thread` holds a joinable thread; to assign over one
-- is std::terminate, which `none` stands for. `O` is the type of the options. The cursors of a
-- subscription stand in Stream/Visit, and the rate controller's reset is left out.
use cherupi_v4l.Base.{
  Bool, Bool-cases, List, Option, [], ap, arith, erase, false, if◌then◌else◌, inl, inr,
  insert_sorted, leb, lookup, none, not, refl, some, true, ℕ, ◌&&◌, ◌==◌, ◌∙◌, ◌∷◌, ◌≡◌,
}

pub record Session (O : Type 0) : Type 0 where
  pub camera_count : ℕ
  pub sink_attached : Bool
  pub subscriptions : List (ℕ × O)  -- streaming_cameras
  pub streaming_active : Bool
  pub should_stop_loop : Bool
  pub thread_joinable : Bool
  pub transfer_camera : Option ℕ  -- of current_transfer
  pub transfer_in_progress : Bool
  pub under_pressure : Bool  -- has_backpressure
  pub pressure_since : ℕ  -- last_backpressure_us

unfoldable pub is_transfer_of : ℕ → Option ℕ → Bool
is_transfer_of camera_id none = false
is_transfer_of camera_id (some c) = c == camera_id

-- What the event loop calls.
pub data Call (O : Type 0) : Type 0 where
  attaches detaches stops_all : Call O
  starts : ℕ → O → Call O
  stops : ℕ → Call O

module _ {O : Type 0} where
  unfoldable pub has_subscription : List (ℕ × O) → Bool
  has_subscription [] = false
  has_subscription (e ∷ es) = true

  -- should_stop = false; streaming_active = true; streaming_thread = make_unique<thread>(...)
  unfoldable pub start_loop : Session O → Option (Session O)
  start_loop s =
      if s.thread_joinable
      then none
      else some
          (record s { should_stop_loop = false; streaming_active = true; thread_joinable = true })

  unfoldable pub set_sink : Session O → Option (Session O)
  set_sink s =
      let s' = record s { sink_attached = true; under_pressure = false; pressure_since = 0 } in
      if not s'.streaming_active && has_subscription s'.subscriptions
      then start_loop s'
      else some s'

  unfoldable pub release_transfer : Session O → Session O
  release_transfer s = record s { transfer_camera = none; transfer_in_progress = false }

  -- The join waits for the loop to see should_stop.
  unfoldable pub stop_all_streaming : Session O → Session O
  stop_all_streaming s = release_transfer (
      if s.streaming_active
      then record s {
        subscriptions = [];
        should_stop_loop = true;
        thread_joinable = false;
        streaming_active = false;
      }
      else record s { subscriptions = [] })

  unfoldable pub clear_sink : Session O → Session O
  clear_sink s = release_transfer (record (stop_all_streaming s) { sink_attached = false })

  unfoldable pub start_streaming_camera : ℕ → O → Session O → Option (Session O × Bool)
  start_streaming_camera camera_id options s =
      if leb s.camera_count camera_id
      then some (s, false)
      else (let s' = record s { subscriptions = insert_sorted camera_id options s.subscriptions } in
          if not s'.streaming_active && s'.sink_attached
          then elim (start_loop s') [ none ↦ none | some q ↦ some (q, true) ]
          else some (s', true))

  unfoldable pub stop_streaming_camera : ℕ → Session O → Session O × Bool
  stop_streaming_camera camera_id s = elim (lookup camera_id s.subscriptions) [
    | none ↦ (s, false)
    | some options ↦ (
      record s {
        subscriptions = erase camera_id s.subscriptions;
        transfer_in_progress =
            if is_transfer_of camera_id s.transfer_camera then false else s.transfer_in_progress;
      },
      true,
    )
  ]

  unfoldable pub call : Call O → Session O → Option (Session O)
  call attaches s = set_sink s
  call detaches s = some (clear_sink s)
  call stops_all s = some (stop_all_streaming s)
  call (starts c options) s = elim (start_streaming_camera c options s) [
    | none ↦ none
    | some (q, accepted) ↦ some q
  ]
  call (stops c) s = some (stop_streaming_camera c s).0

  unfoldable pub calls : List (Call O) → Session O → Option (Session O)
  calls [] s = some s
  calls (c ∷ cs) s = elim (call c s) [ none ↦ none | some q ↦ calls cs q ]

  -- The loop's thread is there exactly while the session is active, the session is active only with
  -- a sink, and a session with a sink and a subscription is active.
  pub record IsConsistent (s : Session O) : Type 0 where
    pub thread_matches : s.thread_joinable ≡ s.streaming_active
    pub active_attached : s.streaming_active ≡ true → s.sink_attached ≡ true
    pub serves :
        (s.sink_attached && has_subscription s.subscriptions) ≡ true → s.streaming_active ≡ true
    pub not_stopping : s.streaming_active ≡ true → s.should_stop_loop ≡ false

  erase-has_subscription :
      (c : ℕ) (m : List (ℕ × O)) → has_subscription (erase c m) ≡ true → has_subscription m ≡ true
  unfolding has_subscription
  erase-has_subscription c [] h = h
  erase-has_subscription c (e ∷ m) h = refl

  abbrev pub Continues : Option (Session O) → Type 0
  Continues o = (q : Session O) × (o ≡ some q) × IsConsistent q

  started : Session O → Session O
  started s = record s { should_stop_loop = false; streaming_active = true; thread_joinable = true }

  pub set_sink-Continues : (s : Session O) → IsConsistent s → Continues (set_sink s)
  unfolding set_sink start_loop started
  set_sink-Continues s v =
      let s' : Session O = record s {
        sink_attached = true;
        under_pressure = false;
        pressure_since = 0;
      } in
      elim (Bool-cases (not s.streaming_active && has_subscription s.subscriptions)) [
        | inl e ↦ (started s', ground arith, ground arith)
        | inr e ↦ (s', ground arith, ground arith)
      ]

  pub stop_all_streaming-IsConsistent :
      (s : Session O) → IsConsistent s → IsConsistent (stop_all_streaming s)
  unfolding stop_all_streaming release_transfer has_subscription
  stop_all_streaming-IsConsistent s v = ground arith

  stop_all_streaming-inactive : (s : Session O) → (stop_all_streaming s).streaming_active ≡ false
  unfolding stop_all_streaming release_transfer
  stop_all_streaming-inactive s = ground arith

  pub clear_sink-IsConsistent : (s : Session O) → IsConsistent s → IsConsistent (clear_sink s)
  unfolding clear_sink release_transfer
  clear_sink-IsConsistent s v =
      ground (arith, stop_all_streaming-IsConsistent s v, stop_all_streaming-inactive s)

  start_streaming_camera-Continues :
      (c : ℕ) (options : O) (s : Session O) → IsConsistent s → Continues (call (starts c options) s)
  unfolding call start_streaming_camera start_loop started
  start_streaming_camera-Continues c options s v =
      let s' : Session O = record s { subscriptions = insert_sorted c options s.subscriptions } in
      elim (Bool-cases (leb s.camera_count c)) [
        | inl e ↦ (s, ground arith, v)
        | inr e ↦ elim (Bool-cases (not s.streaming_active && s.sink_attached)) [
          | inl e' ↦ (started s', ground arith, ground arith)
          | inr e' ↦ (s', ground arith, ground arith)
        ]
      ]

  pub stop_streaming_camera-IsConsistent :
      (c : ℕ) (s : Session O) → IsConsistent s → IsConsistent (stop_streaming_camera c s).0
  unfolding stop_streaming_camera
  stop_streaming_camera-IsConsistent c s v =
      ground (arith, erase-has_subscription c s.subscriptions)

  pub call-Continues : (c : Call O) (s : Session O) → IsConsistent s → Continues (call c s)
  unfolding call
  call-Continues attaches s v = set_sink-Continues s v
  call-Continues detaches s v = (clear_sink s, refl, clear_sink-IsConsistent s v)
  call-Continues stops_all s v = (stop_all_streaming s, refl, stop_all_streaming-IsConsistent s v)
  call-Continues (starts c options) s v = start_streaming_camera-Continues c options s v
  call-Continues (stops c) s v =
      ((stop_streaming_camera c s).0, refl, stop_streaming_camera-IsConsistent c s v)

  -- From a consistent session, whatever the server calls, the streaming thread is never started
  -- over one that is not joined; it is there exactly while the session is active, a session is
  -- active only with a sink, and one with a sink and a subscription is active.
  pub calls-IsConsistent :
      (cs : List (Call O)) (s : Session O)
      → IsConsistent s
      → (q : Session O) × (calls cs s ≡ some q) × IsConsistent q
  unfolding calls
  calls-IsConsistent [] s v = (s, refl, v)
  calls-IsConsistent (c ∷ cs) s v =
      let (q, e, w) = call-Continues c s v in
      let (r, e', u) = calls-IsConsistent cs q w in
      (r, ap (λ o. elim o [ none ↦ none | some x ↦ calls cs x ]) e ∙ e', u)
