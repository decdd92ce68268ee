-- ===== src/Processor/Buffer.antt =====
-- What `buffer` mode keeps of a capture.
use cherupi_v4l.Base.{
  All, List, [], ap, append-nil, append_assoc, arith, dec_lt, length, refl, suc, sym, take, true,
  zero, ℕ, ◌*◌, ◌++◌, ◌+◌, ◌-◌, ◌/◌, ◌<◌, ◌↔◌, ◌∙◌, ◌∷◌, ◌≡◌, ◌≤◌,
}
use cherupi_v4l.Processor.{Processor}
use cherupi_v4l.Processor.Save.{save_buffered, save_frame, save_in_mode}
use cherupi_v4l.Types.{FrameData, buffer}
use cherupi_v4l.Processor.Backlog.{reserve_backlog}

fits_iff : (b n k : ℕ) → 0 < n → (k * n + n ≤ b) ↔ (k < b / n)
fits_iff b n k h = (λ p. grind arith, λ p. grind arith)

take-nil {ℓ} : {A : Type ℓ} (k : ℕ) → take {A = A} k [] ≡ []
take-nil zero = refl
take-nil (suc k) = refl

module _ {D : Type 0} where
  -- saveFrame on one frame after the other.
  unfoldable pub save_all : List FrameData → Processor D → Processor D
  save_all [] p = p
  save_all (f ∷ fs) p = save_all fs (save_frame p f)

  -- A processor that is capturing into RAM and has accepted `kept` frames of `n` bytes each.
  pub record IsBuffering (n kept : ℕ) (p : Processor D) : Type 0 where
    pub is_enabled : p.enabled ≡ true
    pub buffers : p.config.mode ≡ buffer
    pub saves : p.config.save_frames ≡ true
    pub limited : 0 < p.backlog_budget
    pub counted : p.backlog_bytes ≡ kept * n

  save_frame-buffer :
      (n kept : ℕ) (p : Processor D) (f : FrameData)
      → IsBuffering n kept p
      → length f.bytes ≡ n
      → save_frame p f ≡ save_buffered p f
  unfolding save_frame save_in_mode
  save_frame-buffer n kept p f v h =
      rw (v.is_enabled, save_frame) (rw (v.buffers, save_in_mode) refl)

  -- The frame fits, and is kept.
  save_frame-keeps :
      (n kept : ℕ) (p : Processor D) (f : FrameData)
      → 0 < n
      → IsBuffering n kept p
      → length f.bytes ≡ n
      → kept < p.backlog_budget / n
      → save_frame p f ≡ record p {
        backlog_bytes = p.backlog_bytes + length f.bytes;
        buffered_frames = p.buffered_frames ++ f ∷ [];
      }
  unfolding save_buffered reserve_backlog
  save_frame-keeps n kept p f pos v h room =
      let fits : kept * n + n ≤ p.backlog_budget = (fits_iff p.backlog_budget n kept pos).1 room in
      save_frame-buffer n kept p f v h ∙ ground arith

  -- The frame does not fit, and is counted as dropped.
  save_frame-drops :
      (n kept : ℕ) (p : Processor D) (f : FrameData)
      → 0 < n
      → IsBuffering n kept p
      → length f.bytes ≡ n
      → p.backlog_budget / n ≤ kept
      → save_frame p f
        ≡ record p { frames_dropped_backlog = p.frames_dropped_backlog + 1; backlog_warned = true }
  unfolding save_buffered reserve_backlog
  save_frame-drops n kept p f pos v h full =
      let over : ¬ (kept * n + n ≤ p.backlog_budget) =
        λ fits. omega (arith, (fits_iff p.backlog_budget n kept pos).0 fits) in
      save_frame-buffer n kept p f v h ∙ ground arith

  save_all-drops :
      (n kept : ℕ) (p : Processor D) (fs : List FrameData)
      → 0 < n
      → IsBuffering n kept p
      → All (λ f. length f.bytes ≡ n) fs
      → p.backlog_budget / n ≤ kept
      → ((save_all fs p).buffered_frames ≡ p.buffered_frames)
        × ((save_all fs p).frames_dropped_backlog ≡ p.frames_dropped_backlog + length fs)
  unfolding save_all
  save_all-drops n kept p [] pos v sizes full = (refl, omega arith)
  save_all-drops n kept p (f ∷ fs) pos v sizes full =
      let p' : Processor D = record p {
        frames_dropped_backlog = p.frames_dropped_backlog + 1;
        backlog_warned = true;
      } in
      let v' : IsBuffering n kept p' = ground arith in
      let rest = save_all-drops n kept p' fs pos v' sizes.1 full in
      rw (save_frame-drops n kept p f pos v sizes.0 full, save_all) (rest.0, omega (arith, rest.1))

  -- In `buffer` mode with frames of one size, the kept frames are the first ones delivered, as many
  -- as the budget holds, and every later one is counted as dropped.
  save_all-prefix :
      (n kept : ℕ) (p : Processor D) (fs : List FrameData)
      → 0 < n
      → IsBuffering n kept p
      → All (λ f. length f.bytes ≡ n) fs
      → kept ≤ p.backlog_budget / n
      → ((save_all fs p).buffered_frames
          ≡ p.buffered_frames ++ take (p.backlog_budget / n - kept) fs)
        × ((save_all fs p).frames_dropped_backlog
            ≡ p.frames_dropped_backlog + (length fs - (p.backlog_budget / n - kept)))
  unfolding save_all
  save_all-prefix n kept p [] pos v sizes room =
      let none_left = take-nil {A = FrameData} (p.backlog_budget / n - kept) in
      (rw (none_left, append-nil p.buffered_frames) refl, omega arith)
  save_all-prefix n kept p (f ∷ fs) pos v sizes room = elim (dec_lt kept (p.backlog_budget / n)) [
    | yes fits ↦
        let p' : Processor D = record p {
          backlog_bytes = p.backlog_bytes + length f.bytes;
          buffered_frames = p.buffered_frames ++ f ∷ [];
        } in
        let v' : IsBuffering n (suc kept) p' = record {
          is_enabled = v.is_enabled;
          buffers = v.buffers;
          saves = v.saves;
          limited = v.limited;
          counted = omega (arith, v.counted, sizes.0);
        } in
        let less : suc (p.backlog_budget / n - suc kept) ≡ p.backlog_budget / n - kept =
          omega arith in
        let rest = save_all-prefix n (suc kept) p' fs pos v' sizes.1 fits in
        rw (save_frame-keeps n kept p f pos v sizes.0 fits, save_all)
          (
            rest.0
                ∙ append_assoc p.buffered_frames (f ∷ []) _
                ∙ ap (λ k. p.buffered_frames ++ take k (f ∷ fs)) less,
            omega (arith, rest.1, fits),
          )
    | no full ↦
        let rest = save_all-drops n kept p (f ∷ fs) pos v sizes (omega arith) in
        let no_room : p.backlog_budget / n - kept ≡ 0 = omega arith in
        rw no_room (rest.0 ∙ sym (append-nil p.buffered_frames), omega (arith, rest.1))
  ]
