-- ===== src/Priority.antt =====
-- src/stream_priority.hpp, and notifyBackpressure and prioritySnapshot of src/stream_manager.cpp:
-- when the observer's stream may send. Times are in microseconds.
use cherupi_v4l.Base.{
  Bool, List, [], arith, false, if◌then◌else◌, leb, ltb, not, suc, true, ℕ, ◌&&◌, ◌*◌, ◌+◌, ◌-◌,
  ◌<◌, ◌||◌, ◌↔◌, ◌∷◌, ◌≡◌, ◌≤◌, ◌⊎◌,
}
use cherupi_v4l.Stream.Send.{soft_buffer_limit}

pub record Snapshot : Type 0 where
  pub snapshot_has_sink : Bool
  pub streaming_payload : Bool
  pub buffered_bytes : ℕ
  pub in_backpressure : Bool
  pub since_last_backpressure : ℕ

abbrev pub backpressure_hold : ℕ
backpressure_hold = 1000000

unfoldable pub is_clear : Snapshot → ℕ → Bool
is_clear s soft_limit =
    if not s.snapshot_has_sink || not s.streaming_payload
    then true
    else if s.in_backpressure
    then false
    else if ltb soft_limit s.buffered_bytes
    then false
    else leb backpressure_hold s.since_last_backpressure

-- The part of a StreamManager that the other session's priority reads.
pub record Link : Type 0 where
  pub link_has_sink : Bool
  pub link_buffered : ℕ
  pub streaming_cameras : List ℕ
  pub header_only_mode : Bool
  pub pressure : Bool  -- has_backpressure
  pub last_backpressure_us : ℕ
  pub backpressure_pauses : ℕ

unfoldable pub notify_backpressure : Bool → ℕ → Link → Link
notify_backpressure has_pressure now l =
    let l' = record l { pressure = has_pressure } in
    if has_pressure && not l.pressure
    then record l' { last_backpressure_us = now; backpressure_pauses = suc l.backpressure_pauses }
    else l'

abbrev pub is_empty_list : List ℕ → Bool
is_empty_list [] = true
is_empty_list (x ∷ xs) = false

unfoldable pub priority_snapshot : ℕ → Link → Snapshot
priority_snapshot now l = record {
  snapshot_has_sink = l.link_has_sink;
  streaming_payload = not (is_empty_list l.streaming_cameras) && not l.header_only_mode;
  buffered_bytes = if l.link_has_sink then l.link_buffered else 0;
  in_backpressure = l.pressure;
  since_last_backpressure =
      if ltb 0 l.last_backpressure_us then now - l.last_backpressure_us else 24 * 60 * 60 * 1000000;
}

unfoldable pub is_clear_for_lower_priority : ℕ → Link → Bool
is_clear_for_lower_priority now l = is_clear (priority_snapshot now l) soft_buffer_limit

-- The observer may send exactly when the commander streams no payload, or shows no congestion: no
-- backpressure now or in the last second, and at most the soft limit of unsent bytes.
is_clear_iff :
    (s : Snapshot) (soft_limit : ℕ)
    → (is_clear s soft_limit ≡ true) ↔ (
        ((s.snapshot_has_sink && s.streaming_payload) ≡ false)
        ⊎ ((s.in_backpressure ≡ false)
            × (s.buffered_bytes ≤ soft_limit)
            × (backpressure_hold ≤ s.since_last_backpressure)))
unfolding is_clear
is_clear_iff s soft_limit = ground arith

-- Once a streaming commander has entered backpressure at a time after 0, the observer stays blocked
-- until a second has passed, also when the backpressure is over before.
notify_backpressure-holds :
    (l : Link) (began ended now : ℕ)
    → l.link_has_sink ≡ true
    → is_empty_list l.streaming_cameras ≡ false
    → l.header_only_mode ≡ false
    → l.pressure ≡ false
    → 0 < began
    → now < began + backpressure_hold
    → is_clear_for_lower_priority now
        (notify_backpressure false ended (notify_backpressure true began l))
      ≡ false
unfolding is_clear_for_lower_priority priority_snapshot notify_backpressure is_clear
notify_backpressure-holds l began ended now sink cameras payload calm pos soon = ground arith
