-- ===== src/Stream/Send.antt =====
-- The sending of one frame (sendChunkedFrame, waitForBufferDrain, waitForPriorityClear and
-- cleanupTransfer of src/stream_manager.cpp) beside the threads that change what it looks at. Each
-- look happens at a tick, and `Environment` says what it finds: this covers every interleaving with
-- the server's threads. The pauses of the rate controller have no effect but time; its state is a
-- parameter, `R`.
use cherupi_v4l.Base.{
  Bool, List, Option, [], false, if◌then◌else◌, leb, length, none, not, some, suc, true, zero, ℕ,
  ◌&&◌, ◌*◌, ◌++◌, ◌+◌, ◌||◌, ◌∷◌,
}

pub record Observed : Type 0 where
  pub should_stop : Bool
  pub is_streaming : Bool  -- !streaming_active || isStreamingCamera(camera_id)
  pub has_backpressure : Bool
  pub has_sink : Bool
  pub buffered_amount : ℕ
  pub is_priority_clear : Bool  -- !yield_to_ || yield_to_->isClearForLowerPriority()
  pub is_past_deadline : Bool
  pub accepts : Bool  -- sink->send

abbrev pub Environment : Type 0
Environment = ℕ → Observed

abbrev pub soft_buffer_limit : ℕ
soft_buffer_limit = 512 * 1024

-- The outcome of a guard, with the next tick.
pub data Guard : Type 0 where
  go : ℕ → Guard
  quit : Guard
  yields : Guard
  exhausted : Guard

infixl 5 ◌⟫◌
abbrev pub ◌⟫◌ : Guard → (ℕ → Guard) → Guard
go t ⟫ f = f t
quit ⟫ f = quit
yields ⟫ f = yields
exhausted ⟫ f = exhausted

abbrev pub guard : Bool → ℕ → Guard
guard true t = go t
guard false t = quit

module _ (env : Environment) where
  -- while (has_backpressure && count < 50), then the test for the time-out.
  unfoldable pub wait_for_backpressure : ℕ → ℕ → Guard
  wait_for_backpressure zero t = guard (not (env t).has_backpressure) (suc t)
  wait_for_backpressure (suc n) t =
      let rest = wait_for_backpressure n (suc (suc t)) in
      if (env t).has_backpressure
      then guard (not (env (suc t)).should_stop) t ⟫ (λ u. rest)
      else guard (not (env (suc t)).has_backpressure) (suc (suc t))

  abbrev pub has_drained : ℕ → Bool
  has_drained t = not (env t).has_sink || leb (env t).buffered_amount soft_buffer_limit

  unfoldable pub poll_buffer : ℕ → ℕ → Guard
  poll_buffer zero t = go t
  poll_buffer (suc n) t =
      let rest = poll_buffer n (suc (suc t)) in
      if (env t).should_stop then quit else if has_drained (suc t) then go (suc (suc t)) else rest

  unfoldable pub wait_for_buffer_drain : ℕ → Guard
  wait_for_buffer_drain t = if has_drained t then go (suc t) else poll_buffer 400 (suc t)

  -- The refused wait is followed by `if (!should_stop)`.
  unfoldable pub wait_for_priority_clear : ℕ → ℕ → Guard
  wait_for_priority_clear zero t = exhausted
  wait_for_priority_clear (suc fuel) t =
      let rest = wait_for_priority_clear fuel (suc t) in
      if (env t).is_priority_clear
      then go (suc t)
      else if (env t).should_stop || (env t).is_past_deadline
      then (if (env (suc t)).should_stop then quit else yields)
      else rest

  unfoldable pub send_guard : ℕ → Guard
  send_guard t = guard ((env t).has_sink && (env t).accepts) (suc t)

  -- The body of the loop over the chunks, up to and with the send.
  unfoldable pub chunk_guard : ℕ → ℕ → Guard
  chunk_guard fuel t =
      guard (not (env t).should_stop) (suc t)
      ⟫ (λ t₁. guard (env t₁).is_streaming (suc t₁))
      ⟫ (λ t₂. wait_for_backpressure 50 t₂)
      ⟫ (λ t₃. wait_for_buffer_drain t₃)
      ⟫ (λ t₄. wait_for_priority_clear fuel t₄)
      ⟫ (λ t₅. send_guard t₅)

pub record Streamer (R : Type 0) : Type 0 where
  pub wire : List (List ℕ)  -- the messages that the sink has accepted
  pub bytes_sent : ℕ
  pub chunks_sent : ℕ
  pub priority_abandoned : ℕ
  pub current_transfer : Option ℕ  -- its current_chunk
  pub rate : R

-- The result that sendChunkedFrame returns: `none` stands for a wait cut off by the fuel.
pub record Sent (R : Type 0) : Type 0 where
  pub success : Option Bool
  pub streamer : Streamer R

module _ {R : Type 0} (record_chunk_sent : R → R) (env : Environment) where
  abbrev pub deliver_message : List ℕ → Streamer R → Streamer R
  deliver_message message s = record s {
    wire = s.wire ++ message ∷ [];
    bytes_sent = s.bytes_sent + length message;
  }

  unfoldable pub note_chunk : ℕ → ℕ → Streamer R → Streamer R
  note_chunk index t s = record s {
    current_transfer = some (suc index);
    chunks_sent = suc s.chunks_sent;
    rate = if (env t).has_backpressure then s.rate else record_chunk_sent s.rate;
  }

  abbrev pub cleanup_transfer : Streamer R → Streamer R
  cleanup_transfer s = record s { current_transfer = none }

  abbrev pub count_yield : Streamer R → Streamer R
  count_yield s = record s { priority_abandoned = suc s.priority_abandoned }

  abbrev pub carry_on : Guard → (ℕ → Sent R) → Streamer R → Sent R
  carry_on (go t) next s = next t
  carry_on quit next s = record { success = some false; streamer = cleanup_transfer s }
  carry_on yields next s = record {
    success = some false;
    streamer = cleanup_transfer (count_yield s);
  }
  carry_on exhausted next s = record { success = none; streamer = s }

  unfoldable pub send_chunks : ℕ → List (List ℕ) → ℕ → ℕ → Streamer R → Sent R
  send_chunks fuel [] index t s = record { success = some true; streamer = cleanup_transfer s }
  send_chunks fuel (message ∷ messages) index t s =
      carry_on (chunk_guard env fuel t)
        (λ u.
          send_chunks fuel messages (suc index) (suc u)
            (note_chunk index u (deliver_message message s)))
        s

  -- `header` and `messages` are the messages of Stream.Header.
  unfoldable pub send_chunked_frame : ℕ → List ℕ → List (List ℕ) → Streamer R → Sent R
  send_chunked_frame fuel header messages s =
      let begun : Streamer R = record s { current_transfer = some 0 } in
      carry_on (send_guard env 0)
        (λ t. send_chunks fuel messages 0 t (deliver_message header begun)) begun
