-- ===== src/Stream/Delivery.antt =====
-- What a client receives of one frame, whatever the other threads do meanwhile.
-- What the sink took from a run: the first of the messages, and all of them when it succeeds.
use cherupi_v4l.Base.{
  Bool, List, [], ap, append-nil, append_assoc, none, refl, some, suc, sym, true, ℕ, ◌++◌, ◌∙◌, ◌∷◌,
  ◌≡◌,
}
use cherupi_v4l.Stream.Send.{
  Environment, Guard, Sent, Streamer, carry_on, chunk_guard, deliver_message, exhausted, go,
  note_chunk, quit, send_chunked_frame, send_chunks, send_guard, yields,
}

abbrev pub SentPrefix : {R : Type 0} → List (List ℕ) → Streamer R → Sent R → Type 0
SentPrefix messages s r =
    (front : List (List ℕ)) × (back : List (List ℕ)) × (messages ≡ front ++ back)
    × (r.streamer.wire ≡ s.wire ++ front)
    × (r.success ≡ some true → back ≡ [])

abbrev pub IsReleased : {R : Type 0} → Sent R → Type 0
IsReleased r = (a : Bool) → r.success ≡ some a → r.streamer.current_transfer ≡ none

module _ {R : Type 0} (record_chunk_sent : R → R) (env : Environment) where
  carry_on-SentPrefix :
      (g : Guard) (message : List ℕ) (messages : List (List ℕ)) (s : Streamer R) (next : ℕ → Sent R)
      (after : ℕ → Streamer R)
      → ((u : ℕ) → (after u).wire ≡ s.wire ++ message ∷ [])
      → ((u : ℕ) → SentPrefix messages (after u) (next u))
      → SentPrefix (message ∷ messages) s (carry_on record_chunk_sent env g next s)
  carry_on-SentPrefix (go u) message messages s next after grown h =
      let r = h u in
      (
        message ∷ r.0,
        r.1,
        ap (◌∷◌ message) r.2,
        r.3 ∙ ap (λ w. w ++ r.0) (grown u) ∙ append_assoc s.wire (message ∷ []) r.0,
        r.4,
      )
  carry_on-SentPrefix quit message messages s next after grown h =
      ([], message ∷ messages, refl, sym (append-nil s.wire), λ e. cc)
  carry_on-SentPrefix yields message messages s next after grown h =
      ([], message ∷ messages, refl, sym (append-nil s.wire), λ e. cc)
  carry_on-SentPrefix exhausted message messages s next after grown h =
      ([], message ∷ messages, refl, sym (append-nil s.wire), λ e. cc)

  note_chunk-wire :
      (index : ℕ) (message : List ℕ) (s : Streamer R) (u : ℕ)
      → (note_chunk record_chunk_sent env index u
          (deliver_message record_chunk_sent env message s)).wire
        ≡ s.wire ++ message ∷ []
  unfolding note_chunk
  note_chunk-wire index message s u = refl

  send_chunks-SentPrefix :
      (fuel : ℕ) (messages : List (List ℕ)) (index t : ℕ) (s : Streamer R)
      → SentPrefix messages s (send_chunks record_chunk_sent env fuel messages index t s)
  unfolding send_chunks
  send_chunks-SentPrefix fuel [] index t s = ([], [], refl, sym (append-nil s.wire), λ h. refl)
  send_chunks-SentPrefix fuel (message ∷ messages) index t s =
      let after : ℕ → Streamer R = λ u.
        note_chunk record_chunk_sent env index u
          (deliver_message record_chunk_sent env message s) in
      carry_on-SentPrefix (chunk_guard env fuel t) message messages s
        (λ u. send_chunks record_chunk_sent env fuel messages (suc index) (suc u) (after u)) after
        (note_chunk-wire index message s)
        (λ u. send_chunks-SentPrefix fuel messages (suc index) (suc u) (after u))

  -- What the client receives of a frame is the header message and then the chunks in order, without
  -- a gap or a repetition, cut off at some point; when the transfer reports success, nothing is cut
  -- off.
  pub send_chunked_frame-prefix :
      (fuel : ℕ) (header : List ℕ) (messages : List (List ℕ)) (s : Streamer R)
      → SentPrefix
          (header ∷ messages)
          s
          (send_chunked_frame record_chunk_sent env fuel header messages s)
  unfolding send_chunked_frame
  send_chunked_frame-prefix fuel header messages s =
      let begun : Streamer R = record s { current_transfer = some 0 } in
      carry_on-SentPrefix (send_guard env 0) header messages begun
        (λ t.
          send_chunks record_chunk_sent env fuel messages 0 t
            (deliver_message record_chunk_sent env header begun))
        (λ t. deliver_message record_chunk_sent env header begun) (λ t. refl)
        (λ t.
          send_chunks-SentPrefix fuel messages 0 t
            (deliver_message record_chunk_sent env header begun))
