-- ===== src/Subsample/Planes.antt =====
-- The planes of the frame that subsampleYuv420 (src/frame_subsample.cpp) makes.
use cherupi_v4l.Base.{List, get_or, length, ℕ, ◌*◌, ◌+◌, ◌/◌, ◌<◌, ◌≡◌}
use cherupi_v4l.Subsample.Pixels.{average}
use cherupi_v4l.Types.{FrameData}

-- From place `at` on, the bytes hold a plane of that size whose pixels are the averages of the blocks
-- of the plane that begins at `from` in the source, with rows `stride` bytes apart.
abbrev pub HoldsPlane :
    (out : List ℕ) (at width height : ℕ) (src : List ℕ) (from stride factor : ℕ) → Type 0
HoldsPlane out at width height src from stride factor =
    (r c : ℕ)
    → r < height
    → c < width
    → get_or out (at + (r * width + c)) 0
      ≡ average (λ i j. get_or src (from + ((r * factor + i) * stride + (c * factor + j))) 0) factor

-- A packed YUV420 frame of even size, whose pixels are averages of the source's.
pub record IsSubsampled (src : FrameData) (factor : ℕ) (out : FrameData) : Type 0 where
  pub size :
      length out.bytes
      ≡ out.height * out.width + out.height / 2 * (out.width / 2) + out.height / 2 * (out.width / 2)
  pub luma : HoldsPlane out.bytes 0 out.width out.height src.bytes 0 src.bytes_per_line factor
  pub chroma_u :
      HoldsPlane out.bytes
        (out.height * out.width)
        (out.width / 2)
        (out.height / 2)
        src.bytes
        (src.bytes_per_line * src.height)
        (src.bytes_per_line / 2)
        factor
  pub chroma_v :
      HoldsPlane out.bytes
        (out.height * out.width + out.height / 2 * (out.width / 2))
        (out.width / 2)
        (out.height / 2)
        src.bytes
        (src.bytes_per_line * src.height + src.bytes_per_line / 2 * (src.height / 2))
        (src.bytes_per_line / 2)
        factor

-- The bytes that a frame of YUV420 has.
abbrev pub frame_size : FrameData → ℕ
frame_size src = src.bytes_per_line * src.height + 2 * (src.bytes_per_line / 2) * (src.height / 2)
