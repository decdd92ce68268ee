-- ===== src/Stream/Loop.antt =====
-- StreamManager::streamingLoop of src/stream_manager.cpp: a round of the loop, with its guards and
-- the inner loop over the cameras. `Look` is what a round's guards find, and `turns` what each turn
-- of its inner loop meets. A round tells which cameras it asked for a frame.
use cherupi_v4l.Base.{
  Bool, List, [], false, get_or, if◌then◌else◌, length, not, suc, true, zero, ℕ, ◌%◌, ◌&&◌, ◌++◌,
  ◌+◌, ◌==◌, ◌||◌, ◌∷◌,
}
use cherupi_v4l.Stream.Send.{Environment, go, wait_for_buffer_drain}
use cherupi_v4l.Stream.Visit.{Change, Pacing, Streaming, Visit, change_all, visit}

pub record Look (D F L T : Type 0) : Type 0 where
  pub should_stop : Bool
  pub has_backpressure : Bool
  pub has_sink : Bool
  pub changes : List (Change D)  -- before the snapshot of the subscriptions
  pub is_transfer_timed_out : Bool
  pub drain : Environment  -- what waitForBufferDrain finds
  pub is_priority_clear : Bool  -- !yield_to_ || yield_to_->isClearForLowerPriority()
  pub has_transfer_in_progress : Bool
  pub turns : ℕ → Visit D F L T

pub record Loop (D F T : Type 0) : Type 0 where
  pub camera_order : List ℕ
  pub current_index : ℕ
  pub streaming : Streaming D F T

-- `asked` is the cameras asked for a frame, in the order of asking. A search is cut short by a frame
-- found or by should_stop, and `is_stopped` tells of the latter.
pub record Search (D F T : Type 0) : Type 0 where
  pub loop : Loop D F T
  pub asked : List ℕ
  pub found_frame : Bool
  pub is_stopped : Bool

pub data Round (D F T : Type 0) : Type 0 where
  ends : Round D F T
  waits : Loop D F T → Round D F T
  searches : Search D F T → Round D F T

unfoldable pub same_keys : List ℕ → List ℕ → Bool
same_keys [] [] = true
same_keys (x ∷ xs) (y ∷ ys) = x == y && same_keys xs ys
same_keys xs ys = false

module _ {V : Type 0} where
  unfoldable pub keys : List (ℕ × V) → List ℕ
  keys [] = []
  keys ((k, v) ∷ m) = k ∷ keys m

module _ {D F T : Type 0} where
  unfoldable pub refresh_order : Loop D F T → Loop D F T
  refresh_order s =
      let now = keys s.streaming.streams in
      if same_keys now s.camera_order then s else record s { camera_order = now; current_index = 0 }

  unfoldable pub no_cameras : Loop D F T → Bool
  no_cameras s = length s.streaming.streams == 0

  -- camera_order[current_index]
  unfoldable pub turn_camera : Loop D F T → ℕ
  turn_camera s = get_or s.camera_order s.current_index 0

  unfoldable pub advance : Streaming D F T → Loop D F T → Loop D F T
  advance q s = record s {
    current_index = (s.current_index + 1) % length s.camera_order;
    streaming = q;
  }

  -- `stopped` and `found` are the turn's should_stop and found_frame, `after` is the loop after it.
  unfoldable pub end_turn :
      (stopped found : Bool) (camera_id : ℕ) (s after : Loop D F T) (rest : Search D F T)
      → Search D F T
  end_turn true found camera_id s after rest = record {
    loop = s;
    asked = [];
    found_frame = false;
    is_stopped = true;
  }
  end_turn false true camera_id s after rest = record {
    loop = after;
    asked = camera_id ∷ [];
    found_frame = true;
    is_stopped = false;
  }
  end_turn false false camera_id s after rest = record rest { asked = camera_id ∷ rest.asked }

  -- The first guards: should_stop, then the backpressure and the missing sink.
  unfoldable pub pass_guards : (stopped held_back : Bool) → Loop D F T → Round D F T → Round D F T
  pass_guards true held_back s next = ends
  pass_guards false true s next = waits s
  pass_guards false false s next = next

  abbrev pub continue_loop :
      (Loop D F T → List ℕ × Loop D F T) → Round D F T → Loop D F T → List ℕ × Loop D F T
  continue_loop next ends s = ([], s)
  continue_loop next (waits q) s = next q
  continue_loop next (searches r) s = let (asked, q) = next r.loop in (r.asked ++ asked, q)

module _ {D F L T : Type 0} (pace : Pacing D F T) (turns : ℕ → Visit D F L T) where
  -- The inner loop, with the number of turns left and the number of turns done.
  unfoldable pub search_cameras : ℕ → ℕ → Loop D F T → Search D F T
  search_cameras zero turn s = record {
    loop = s;
    asked = [];
    found_frame = false;
    is_stopped = false;
  }
  search_cameras (suc n) turn s =
      let (q, found) = visit pace (turns turn) (turn_camera s) s.streaming in
      let after = advance q s in
      end_turn (turns turn).should_stop found (turn_camera s) s after
        (search_cameras n (suc turn) after)

module _ {D F L T : Type 0} (pace : Pacing D F T) where
  unfoldable pub may_fetch : Look D F L T → Bool
  may_fetch l =
      elim (wait_for_buffer_drain l.drain 0) [ go t ↦ true | other ↦ false ]
      && l.is_priority_clear
      && not (if l.is_transfer_timed_out then false else l.has_transfer_in_progress)

  unfoldable pub fetch : Look D F L T → Loop D F T → Round D F T
  fetch l s =
      if no_cameras s
      then waits s
      else if may_fetch l
      then searches (search_cameras pace l.turns (length s.camera_order) 0 s)
      else waits s

  unfoldable pub changed_by : Look D F L T → Loop D F T → Loop D F T
  changed_by l s =
      let streaming = s.streaming in
      record s {
        streaming = record streaming {
          streams = change_all pace.epoch l.changes streaming.streams;
        };
      }

  unfoldable pub round : Look D F L T → Loop D F T → Round D F T
  round l s =
      let changed = changed_by l s in
      pass_guards l.should_stop (l.has_backpressure || not l.has_sink) changed
        (fetch l (refresh_order changed))

  -- The rounds of the loop until it ends, and the cameras they asked.
  unfoldable pub streaming_loop : List (Look D F L T) → Loop D F T → List ℕ × Loop D F T
  streaming_loop [] s = ([], s)
  streaming_loop (l ∷ ls) s = continue_loop (λ q. streaming_loop ls q) (round l s) s
