-- ===== src/Converter/Decode.antt =====
-- decodeYuvFrame of src/tools/yuv420_convert.cpp. The sizes are not negative and their products fit
-- an int. OpenCV is a third-party library: `OpenCv` is what the converter calls of it. A call that
-- throws answers `none`, and so does here a memcpy outside of its buffers.
use cherupi_v4l.Base.{
  Bool, List, Option, drop, if◌then◌else◌, leb, length, ltb, none, replicate, some, suc, take, zero,
  ℕ, ◌*◌, ◌++◌, ◌+◌, ◌/◌,
}

-- Config of the tool, where the sizes are not negative.
pub record Config : Type 0 where
  pub width : ℕ
  pub height : ℕ
  pub stride : ℕ
  pub rotate180 : Bool
  pub split2x2 : Bool

pub record Roi : Type 0 where
  pub x : ℕ
  pub y : ℕ
  pub wide : ℕ
  pub high : ℕ

-- `M` is the type cv::Mat. `view` is the Mat over a buffer with a step, as clone() packs it; `to_bgr`
-- is cvtColor with COLOR_YUV2BGR_I420 on the Mat of so many rows and columns over a buffer.
pub record OpenCv (M : Type 0) : Type 0 where
  pub rows : M → ℕ
  pub cols : M → ℕ
  pub view : (rows cols : ℕ) (bytes : List ℕ) (stride : ℕ) → Option M
  pub to_bgr : (rows cols : ℕ) (bytes : List ℕ) → Option M
  pub crop : Roi → M → M
  pub rotate : M → M  -- ROTATE_180
  pub writes : List ℕ → M → Option Bool  -- imwrite

-- What a function of the tool does: it returns, or an exception leaves it.
pub data Conversion {ℓ} (A : Type ℓ) : Type ℓ where
  returns : A → Conversion A
  throws : Conversion A

abbrev pub or_throw {ℓ} : {A : Type ℓ} → Option A → Conversion A
or_throw none = throws
or_throw (some a) = returns a

unfoldable pub y_size : Config → ℕ
y_size cfg = cfg.stride * cfg.height

unfoldable pub u_size : Config → ℕ
u_size cfg = (cfg.stride / 2) * (cfg.height / 2)

unfoldable pub expected_data : Config → ℕ
unfolding y_size u_size
expected_data cfg = y_size cfg + u_size cfg + u_size cfg

unfoldable pub read_size : Bool → Config → ℕ
unfolding expected_data y_size
read_size grayscale cfg = if grayscale then y_size cfg else expected_data cfg

-- memcpy(dst + at, src + at, count)
unfoldable pub copy_bytes : ℕ → ℕ → List ℕ → List ℕ → Option (List ℕ)
copy_bytes at count src dst =
    if leb (at + count) (length src)
    then (if leb (at + count) (length dst)
        then some (take at dst ++ (take count (drop at src) ++ drop (at + count) dst))
        else none)
    else none

-- `count` rows of `wide` bytes; the two pointers move together.
unfoldable pub copy_rows : ℕ → ℕ → ℕ → List ℕ → List ℕ → Option (List ℕ)
copy_rows zero wide at src dst = some dst
copy_rows (suc count) wide at src dst = elim (copy_bytes at wide src dst) [
  | none ↦ none
  | some dst' ↦ copy_rows count wide (at + wide) src dst'
]

unfoldable pub i420_size : Config → ℕ
i420_size cfg = cfg.stride * cfg.height * 3 / 2

-- The planes Y, U and V, one after the other.
unfoldable pub pack_i420 : Config → List ℕ → Option (List ℕ)
pack_i420 cfg yuv =
    let half = cfg.stride / 2 in
    elim (copy_rows cfg.height cfg.stride 0 yuv (replicate (i420_size cfg) 0)) [
      | none ↦ none
      | some with_y ↦ elim (copy_rows (cfg.height / 2) half (y_size cfg) yuv with_y) [
        | none ↦ none
        | some with_u ↦
            copy_rows (cfg.height / 2) half (y_size cfg + (cfg.height / 2) * half) yuv with_u
      ]
    ]

module _ {M : Type 0} (cv : OpenCv M) where
  unfoldable pub decode_grayscale : Config → List ℕ → Option M
  decode_grayscale cfg yuv = cv.view cfg.height cfg.width yuv cfg.stride

  unfoldable pub crop_padding : Config → M → M
  crop_padding cfg m =
      if ltb cfg.width cfg.stride
      then cv.crop (record { x = 0; y = 0; wide = cfg.width; high = cfg.height }) m
      else m

  unfoldable pub decode_colour : Config → List ℕ → Option M
  decode_colour cfg yuv = elim (pack_i420 cfg yuv) [
    | none ↦ none
    | some buf ↦ elim (cv.to_bgr (cfg.height * 3 / 2) cfg.stride buf) [
      | none ↦ none
      | some m ↦ some (crop_padding cfg m)
    ]
  ]

  -- `file` is the bytes of the input, or `none` where it cannot be opened; `returns none` is false.
  unfoldable pub decode_yuv_frame : Option (List ℕ) → Config → Bool → Conversion (Option M)
  decode_yuv_frame none cfg grayscale = returns none
  decode_yuv_frame (some file) cfg grayscale =
      let size = read_size grayscale cfg in
      let yuv = take size file in
      if ltb (length file) size
      then returns none
      else elim (if grayscale then decode_grayscale cfg yuv else decode_colour cfg yuv) [
        | none ↦ throws
        | some m ↦ returns (some m)
      ]
