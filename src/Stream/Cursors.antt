-- ===== src/Stream/Cursors.antt =====
-- The cursors of a subscription through a turn of StreamManager::streamingLoop
-- (src/stream_manager.cpp), while the client does not unsubscribe.
use cherupi_v4l.Base.{
  All, Bool, List, Option, arith, false, lookup, none, refl, some, true, ℕ, ◌+◌, ◌<◌, ◌∙◌, ◌≡◌, ◌≢◌,
  ◌≤◌,
}
use cherupi_v4l.Stream.Visit.{
  CameraStream, Handed, Pacing, Streaming, Taken, Visit, change_all, changed_before, conclude_turn,
  find_taken, note_answer, persist_cursors, persisted, send_taken, shape, update_stream, visit,
}
use cherupi_v4l.Stream.Freshness.{find_taken-MayTake}
use cherupi_v4l.Stream.Subscriptions.{
  HasCursors, KeepsCamera, change_all-HasCursors, update_stream-HasCursors, update_stream-other,
  update_stream_self,
}

module _ {D F T : Type 0} where
  -- The cursors have not moved down, and one has moved up where a frame went out.
  abbrev pub MovesUp : CameraStream D T → Streaming D F T × Bool → ℕ → Type 0
  MovesUp cs r c =
      (cs' : CameraStream D T) × (lookup c r.0.streams ≡ some cs')
      × (cs.camera_cursor ≤ cs'.camera_cursor)
      × (cs.detected_cursor ≤ cs'.detected_cursor)
      × (r.1 ≡ true
          → cs.camera_cursor + cs.detected_cursor < cs'.camera_cursor + cs'.detected_cursor)

module _ {D F L T : Type 0} (pace : Pacing D F T) where
  -- The client stays subscribed to the camera through the turn.
  abbrev pub KeepsTurn : ℕ → Visit D F L T → Type 0
  KeepsTurn c v =
      All (λ ch. KeepsCamera c ch) v.changes_before
      × All (λ ch. KeepsCamera c ch) v.changes_between
      × All (λ ch. KeepsCamera c ch) v.changes_during

  persisted-own :
      (v : Visit D F L T) (c : ℕ) (t : Taken D F T) (s : Streaming D F T) (like : CameraStream D T)
      → KeepsTurn c v
      → HasCursors (lookup c s.streams) like
      → HasCursors (lookup c (persisted pace v c t s).streams) t.stream
  unfolding persisted persist_cursors
  persisted-own v c t s like k h =
      let m : List (ℕ × CameraStream D T) = change_all pace.epoch v.changes_between s.streams in
      let (cs, e, p, q) =
        change_all-HasCursors pace.epoch v.changes_between c s.streams like k.1 h in
      change_all-HasCursors pace.epoch v.changes_during c
        (update_stream c (persist_cursors t.stream) m) t.stream k.2
        (
          persist_cursors t.stream cs,
          update_stream_self c (persist_cursors t.stream) m cs e,
          refl,
          refl,
        )

  persisted-other :
      (v : Visit D F L T) (c d : ℕ) (t : Taken D F T) (s : Streaming D F T)
      (like : CameraStream D T)
      → d ≢ c
      → KeepsTurn c v
      → HasCursors (lookup c s.streams) like
      → HasCursors (lookup c (persisted pace v d t s).streams) like
  unfolding persisted
  persisted-other v c d t s like n k h =
      let m : List (ℕ × CameraStream D T) = change_all pace.epoch v.changes_between s.streams in
      let (cs, e, p, q) =
        change_all-HasCursors pace.epoch v.changes_between c s.streams like k.1 h in
      change_all-HasCursors pace.epoch v.changes_during c
        (update_stream d (persist_cursors t.stream) m) like k.2
        (cs, update_stream-other c d (persist_cursors t.stream) m n ∙ e, p, q)

  note_answer-HasCursors :
      (answer : Bool) (v : Visit D F L T) (h : Handed F) (s : Streaming D F T) (c : ℕ)
      (like : CameraStream D T)
      → HasCursors (lookup c s.streams) like
      → HasCursors (lookup c (note_answer pace answer v h s).0.streams) like
  unfolding note_answer
  note_answer-HasCursors true v h s c like k =
      update_stream-HasCursors c h.camera_id (λ cs. record cs { last_sent = v.sent_time }) s.streams
        like (λ cs. refl) (λ cs. refl) k
  note_answer-HasCursors false v h s c like k = k

  changed_before-HasCursors :
      (v : Visit D F L T) (s : Streaming D F T) (c : ℕ) (like : CameraStream D T)
      → KeepsTurn c v
      → HasCursors (lookup c s.streams) like
      → HasCursors (lookup c (changed_before pace v s).streams) like
  unfolding changed_before
  changed_before-HasCursors v s c like k h =
      change_all-HasCursors pace.epoch v.changes_before c s.streams like k.0 h

  conclude_own-MovesUp :
      (v : Visit D F L T) (c : ℕ) (s : Streaming D F T) (cs : CameraStream D T)
      (o : Option (Taken D F T))
      → KeepsTurn c v
      → HasCursors (lookup c s.streams) cs
      → find_taken pace v c s ≡ o
      → MovesUp cs (conclude_turn pace v c s o) c
  unfolding conclude_turn send_taken
  conclude_own-MovesUp v c s cs none k (x, e, p, q) f =
      (x, e, omega arith, omega arith, ground arith)
  conclude_own-MovesUp v c s cs (some t) k h f =
      let (x, e, p, q) = h in
      let (y, e', due, new, advances) = find_taken-MayTake pace v c s t f in
      let (z, e'', p', q') =
        note_answer-HasCursors v.sends v (shape pace v c t) (persisted pace v c t s) c t.stream
          (persisted-own v c t s cs k h) in
      let same : x ≡ y = cc in (z, e'', ground arith, ground arith, ground arith)

  conclude_other-HasCursors :
      (v : Visit D F L T) (c d : ℕ) (s : Streaming D F T) (cs : CameraStream D T)
      (o : Option (Taken D F T))
      → d ≢ c
      → KeepsTurn c v
      → HasCursors (lookup c s.streams) cs
      → HasCursors (lookup c (conclude_turn pace v d s o).0.streams) cs
  unfolding conclude_turn send_taken
  conclude_other-HasCursors v c d s cs none n k h = h
  conclude_other-HasCursors v c d s cs (some t) n k h =
      note_answer-HasCursors v.sends v (shape pace v d t) (persisted pace v d t s) c cs
        (persisted-other v c d t s cs n k h)

  -- While the client stays subscribed to a camera, whatever else it subscribes or changes: a turn
  -- of that camera moves neither cursor down, and moves one up if a frame went out; a turn of another
  -- camera leaves both cursors as they are.
  pub visit-MovesUp :
      (v : Visit D F L T) (c d : ℕ) (s : Streaming D F T) (cs : CameraStream D T)
      → lookup c s.streams ≡ some cs
      → d ≢ c
      → KeepsTurn c v
      → MovesUp cs (visit pace v c s) c × HasCursors (lookup c (visit pace v d s).0.streams) cs
  unfolding visit
  visit-MovesUp v c d s cs e n k =
      let before = changed_before-HasCursors v s c cs k (cs, e, refl, refl) in
      let s' : Streaming D F T = changed_before pace v s in
      (
        conclude_own-MovesUp v c s' cs (find_taken pace v c s') k before refl,
        conclude_other-HasCursors v c d s' cs (find_taken pace v d s') n k before,
      )
