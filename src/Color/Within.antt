-- ===== src/Color/Within.antt =====
-- What `applyMatrix` and `applyAlpha` of VCamUtils/src/colorconvert.h give for the formats of the
-- table, after `loadMatrix`.
use akvirtualcamera.Base.{
  ℕ, ◌≡◌, arith, refl, if◌then◌else◌, Bool, true, false, leb, ◌&&◌, List, [], ◌∷◌, subst,
}
use akvirtualcamera.Base.Int.{ℤ, pos, ◌≤ℤ◌}
use akvirtualcamera.Color.{
  Limits, ColorConvert, Triple, bound, apply_matrix, apply_alpha, ColorMatrix, abc2xyz, rgb2yuv,
  yuv2rgb, rgb2gray, gray2rgb, yuv2gray, gray2yuv,
}
use akvirtualcamera.Color.Swing.{max_of}
use akvirtualcamera.Color.Matrix.{load_abc2xyz_matrix}
use akvirtualcamera.Color.Load.{
  chosen, Bits, no_bits, load_matrix_codes, load_color_matrix, load_alpha_matrix, load_matrix,
  matrix_for, channel_bits, matrix_of,
}
use akvirtualcamera.Color.Ordered.{
  FitsIn, LimitsFit, HasTwo, outputs, load_color_matrix-LimitsFit, load_alpha_matrix-LimitsFit,
  zero_to-FitsIn,
}
use akvirtualcamera.Video.Spec.{
  VideoFormatType, vft_rgb, vft_yuv, vft_gray, vft_unknown, VideoFormatSpec, component, contains,
  ct_a, find_in_planes, find_component, color_plane, add_components, add_component,
}
use akvirtualcamera.Video.Table.{VideoFmt, formats, find_format, format_specs, by_pixel_format}

-- Whether each channel of a format has two bits or more.
abbrev has_two : VideoFormatType → VideoFormatSpec → Bool
has_two t s = let b = channel_bits t s in leb 2 b.first && leb 2 b.second && leb 2 b.third

abbrev spec_of : VideoFmt → VideoFormatSpec
spec_of r = record { type = r.type; endianness = r.endianness; planes = r.planes }

abbrev is_wide_at : VideoFormatType → VideoFormatSpec → Bool
is_wide_at vft_unknown s = true
is_wide_at t s = has_two t s

abbrev is_wide : VideoFmt → Bool
is_wide r = is_wide_at r.type (spec_of r)

abbrev all_wide : List VideoFmt → Bool
all_wide [] = true
all_wide (r ∷ rs) = is_wide r && all_wide rs

formats_wide : all_wide formats ≡ true
unfolding formats channel_bits component find_in_planes find_component color_plane add_components
    add_component
formats_wide = refl

find_format_wide :
    (f : ℕ) (rs : List VideoFmt) → all_wide rs ≡ true → is_wide (find_format f rs) ≡ true
unfolding find_format
find_format_wide f [] h = refl
find_format_wide f (r ∷ rs) h = ground (arith, find_format_wide f rs)

abbrev pub InRange : ℕ → ℤ → Type 0
InRange bits v = (pos 0 ≤ℤ v) × (v ≤ℤ pos (max_of bits))

-- The three channels are values of their bits.
abbrev pub TripleFits : Bits → Triple → Type 0
TripleFits b (x, y, z) = InRange b.first x × InRange b.second y × InRange b.third z

bound-InRange :
    (bits : ℕ) (l : Limits) (v : ℤ) → FitsIn bits l → InRange bits (bound l.low v l.high)
unfolding bound
bound-InRange bits l v h = ground arith

-- The bits of an output of a type; those of a grey one are equal.
abbrev AreBits : VideoFormatType → Bits → Type 0
AreBits vft_unknown o = Unit
AreBits vft_gray o = HasTwo o × (outputs rgb2gray o ≡ o)
AreBits _ o = HasTwo o

abbrev ChosenFits : ColorConvert → ColorMatrix × Bits × Bits → Type 0
ChosenFits m (kind, i, o) = LimitsFit o (load_color_matrix kind i o m)

none-ChosenFits : (m : ColorConvert) → ChosenFits m (abc2xyz, no_bits, no_bits)
unfolding load_color_matrix load_abc2xyz_matrix
none-ChosenFits m = (zero_to-FitsIn 0, zero_to-FitsIn 0, zero_to-FitsIn 0)

chosen-ChosenFits :
    (u v : VideoFormatType) (i o : Bits) (m : ColorConvert)
    → AreBits v o
    → ChosenFits m (chosen (matrix_of u v) i o)
unfolding matrix_of
chosen-ChosenFits vft_rgb vft_rgb i o m h = load_color_matrix-LimitsFit abc2xyz i o m h
chosen-ChosenFits vft_rgb vft_yuv i o m h = load_color_matrix-LimitsFit rgb2yuv i o m h
chosen-ChosenFits vft_rgb vft_gray i o m (h, e) =
    subst (λ b. LimitsFit b (load_color_matrix rgb2gray i o m)) e
      (load_color_matrix-LimitsFit rgb2gray i o m h)
chosen-ChosenFits vft_yuv vft_rgb i o m h = load_color_matrix-LimitsFit yuv2rgb i o m h
chosen-ChosenFits vft_yuv vft_yuv i o m h = load_color_matrix-LimitsFit abc2xyz i o m h
chosen-ChosenFits vft_yuv vft_gray i o m (h, e) =
    subst (λ b. LimitsFit b (load_color_matrix yuv2gray i o m)) e
      (load_color_matrix-LimitsFit yuv2gray i o m h)
chosen-ChosenFits vft_gray vft_rgb i o m h = load_color_matrix-LimitsFit gray2rgb i o m h
chosen-ChosenFits vft_gray vft_yuv i o m h = load_color_matrix-LimitsFit gray2yuv i o m h
chosen-ChosenFits vft_gray vft_gray i o m (h, e) = load_color_matrix-LimitsFit abc2xyz i o m h
chosen-ChosenFits vft_unknown v i o m h = none-ChosenFits m
chosen-ChosenFits vft_rgb vft_unknown i o m h = none-ChosenFits m
chosen-ChosenFits vft_yuv vft_unknown i o m h = none-ChosenFits m
chosen-ChosenFits vft_gray vft_unknown i o m h = none-ChosenFits m

-- A test of the table, as a proposition.
wide-AreBits :
    (v : VideoFormatType) (s : VideoFormatSpec)
    → is_wide_at v s ≡ true
    → AreBits v (channel_bits v s)
unfolding channel_bits
wide-AreBits vft_unknown s h = tt
wide-AreBits vft_rgb s h = ground arith
wide-AreBits vft_yuv s h = ground arith
wide-AreBits vft_gray s h = (ground arith, refl)

matrix_for-ChosenFits :
    (f t : ℕ) (m : ColorConvert) → ChosenFits m (matrix_for (format_specs f) (format_specs t))
unfolding format_specs by_pixel_format matrix_for
matrix_for-ChosenFits f t m =
    let s = spec_of (find_format f formats) in
    let r = find_format t formats in
    let o = spec_of r in
    chosen-ChosenFits s.type o.type (channel_bits s.type s) (channel_bits o.type o) m
      (wide-AreBits o.type o (find_format_wide t formats formats_wide))

-- The bits of the channels of the output.
abbrev pub out_bits : ℕ → ℕ → Bits
out_bits f t = (matrix_for (format_specs f) (format_specs t)).2

load_matrix_codes-LimitsFit :
    (f t : ℕ) (m : ColorConvert) → LimitsFit (out_bits f t) (load_matrix_codes f t m)
unfolding load_matrix_codes load_matrix
load_matrix_codes-LimitsFit f t m =
    let i = format_specs f in
    let o = format_specs t in
    let (kind, from, to) = matrix_for i o in
    let loaded = load_color_matrix kind from to m in
    let fits = matrix_for-ChosenFits f t m in
    elim (contains i ct_a)
      as (λ (b : Bool).
        LimitsFit to
          (if b then load_alpha_matrix o.type (component i ct_a).depth to loaded else loaded)) [
            | true ↦ load_alpha_matrix-LimitsFit o.type (component i ct_a).depth to to loaded fits
            | false ↦ fits
          ]

-- Whatever the two formats, the colour space, its range and the values of the channels: the channels
-- of a converted pixel, and those of one blended with an alpha, are numbers of as many bits as the
-- channels of the output have.
pub apply_matrix-fits :
    (f t : ℕ) (m : ColorConvert) (a b c x y z alpha : ℤ)
    → let loaded = load_matrix_codes f t m in
      TripleFits (out_bits f t) (apply_matrix loaded a b c)
      × TripleFits (out_bits f t) (apply_alpha loaded x y z alpha)
unfolding apply_matrix apply_alpha
apply_matrix-fits f t m a b c x y z alpha =
    let (p, q, r) = load_matrix_codes-LimitsFit f t m in
    (
      (bound-InRange _ _ _ p, bound-InRange _ _ _ q, bound-InRange _ _ _ r),
      (bound-InRange _ _ _ p, bound-InRange _ _ _ q, bound-InRange _ _ _ r),
    )
