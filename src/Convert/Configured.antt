-- ===== src/Convert/Configured.antt =====
-- What `configure` of VCamUtils/src/videoconverter.cpp keeps of a conversion that was configured before.
use akvirtualcamera.Base.{ℕ, Bool, if◌then◌else◌, ◌≡◌, ◌⊎◌, inl, inr, refl, ap, arith, false, true}
use akvirtualcamera.Video.Spec.{
  VideoFormatType, vft_rgb, vft_yuv, VideoFormatSpec, depth, main_components, component, contains,
  ct_a,
}
use akvirtualcamera.Color.{
  YuvColorSpace, color_avg, YuvColorSpaceType, full_swing, ColorMatrix, abc2xyz, rgb2yuv, yuv2rgb,
  rgb2gray, gray2rgb, yuv2gray, gray2yuv, ColorConvert, color_convert,
}
use akvirtualcamera.Color.Load.{Bits, load_color_matrix, load_alpha_matrix, load_matrix, matrix_for}
use akvirtualcamera.Color.Matrix.{
  load_abc2xyz_matrix, load_rgb2yuv_matrix, load_yuv2rgb_matrix, load_rgb2gray_matrix,
  load_gray2rgb_matrix, load_yuv2gray_matrix, load_gray2yuv_matrix, load_alpha_rgb_matrix,
  load_alpha_yuv_matrix,
}
use akvirtualcamera.Convert.Parameters.{
  ConvertType, ConvertDataTypes, Channels, Parameters, data_types_of, convert_type_of,
  main_channels, channels_of, format_parameters, configure_colors, configure_specs,
}

-- A format of three channels, red, green and blue or YUV.
abbrev pub HasThree : VideoFormatSpec → Type 0
HasThree s = (s.type ≡ vft_rgb) ⊎ (s.type ≡ vft_yuv)

-- A depth that has a type of its own.
abbrev pub IsWord : ℕ → Type 0
IsWord d = (d ≡ 8) ⊎ (d ≡ 16) ⊎ (d ≡ 32)

main_components-HasThree : (s : VideoFormatSpec) → HasThree s → main_components s ≡ 3
unfolding main_components
main_components-HasThree s h = ground arith

data_types_of-IsWord :
    (i o : ℕ) (a b : ConvertDataTypes)
    → IsWord i
    → IsWord o
    → data_types_of i o a ≡ data_types_of i o b
unfolding data_types_of
data_types_of-IsWord i o a b h k = ground arith

convert_type_of-HasThree :
    (i o : VideoFormatSpec) (a b : ConvertType)
    → HasThree i
    → HasThree o
    → convert_type_of i o a ≡ convert_type_of i o b
unfolding convert_type_of
convert_type_of-HasThree i o a b h k =
    ground (arith, main_components-HasThree i h, main_components-HasThree o k)

channels_of-HasThree :
    (s : VideoFormatSpec) (c d : Channels) → HasThree s → channels_of s c ≡ channels_of s d
unfolding channels_of main_channels
channels_of-HasThree s c d (inl e) = rw e refl
channels_of-HasThree s c d (inr e) = rw e refl

-- What is configured but the rows of the alpha matrix, which are only loaded for an input with alpha.
abbrev pub loaded_part : Bool → ColorConvert → ColorConvert
loaded_part has_alpha m =
    let none = color_convert color_avg full_swing in
    if has_alpha
    then m
    else record m { a0 = none.a0; a1 = none.a1; a2 = none.a2; alpha_shift = none.alpha_shift }

abbrev set_spaces : YuvColorSpace → YuvColorSpaceType → ColorConvert → ColorConvert
set_spaces space swing m = record m { space = space; swing = swing }

-- The colour matrix is filled whole.
load_color_matrix-fills :
    (kind : ColorMatrix) (i o : Bits) (space : YuvColorSpace) (swing : YuvColorSpaceType)
    (m n : ColorConvert)
    → loaded_part false (load_color_matrix kind i o (set_spaces space swing m))
      ≡ loaded_part false (load_color_matrix kind i o (set_spaces space swing n))
unfolding load_color_matrix load_abc2xyz_matrix load_rgb2yuv_matrix load_yuv2rgb_matrix
    load_rgb2gray_matrix load_gray2rgb_matrix load_yuv2gray_matrix load_gray2yuv_matrix
load_color_matrix-fills abc2xyz i o space swing m n = refl
load_color_matrix-fills rgb2yuv i o space swing m n = refl
load_color_matrix-fills yuv2rgb i o space swing m n = refl
load_color_matrix-fills rgb2gray i o space swing m n = refl
load_color_matrix-fills gray2rgb i o space swing m n = refl
load_color_matrix-fills yuv2gray i o space swing m n = refl
load_color_matrix-fills gray2yuv i o space swing m n = refl

-- The alpha matrix fills the rest, from what is filled already.
load_alpha_matrix-fills :
    (t : VideoFormatType) (alpha : ℕ) (o : Bits) (m n : ColorConvert)
    → (t ≡ vft_rgb) ⊎ (t ≡ vft_yuv)
    → loaded_part false m ≡ loaded_part false n
    → load_alpha_matrix t alpha o m ≡ load_alpha_matrix t alpha o n
unfolding load_alpha_matrix load_alpha_rgb_matrix load_alpha_yuv_matrix
load_alpha_matrix-fills t alpha o m n (inl e) same =
    rw e (ap (λ (k : ColorConvert). load_alpha_rgb_matrix alpha k) same)
load_alpha_matrix-fills t alpha o m n (inr e) same =
    rw e (
      ap (λ (k : ColorConvert). load_alpha_yuv_matrix k.swing alpha o.first o.second o.third k)
        same)

loaded_either :
    (b : Bool) (t : VideoFormatType) (alpha : ℕ) (o : Bits) (m n : ColorConvert)
    → (t ≡ vft_rgb) ⊎ (t ≡ vft_yuv)
    → loaded_part false m ≡ loaded_part false n
    → loaded_part b (if b then load_alpha_matrix t alpha o m else m)
      ≡ loaded_part b (if b then load_alpha_matrix t alpha o n else n)
loaded_either true t alpha o m n h same = load_alpha_matrix-fills t alpha o m n h same
loaded_either false t alpha o m n h same = same

configure_colors-fills :
    (i o : VideoFormatSpec) (space : YuvColorSpace) (swing : YuvColorSpaceType) (m n : ColorConvert)
    → HasThree o
    → loaded_part (contains i ct_a) (configure_colors i o space swing m)
      ≡ loaded_part (contains i ct_a) (configure_colors i o space swing n)
unfolding configure_colors load_matrix
configure_colors-fills i o space swing m n h =
    let (kind, from, to) = matrix_for i o in
    loaded_either (contains i ct_a) o.type (component i ct_a).depth to
      (load_color_matrix kind from to (set_spaces space swing m))
      (load_color_matrix kind from to (set_spaces space swing n)) h
      (load_color_matrix-fills kind from to space swing m n)

format_parameters-forgets :
    (i o : VideoFormatSpec) (p q : Parameters)
    → HasThree i
    → HasThree o
    → IsWord (depth i)
    → IsWord (depth o)
    → format_parameters i o p ≡ format_parameters i o q
unfolding format_parameters
format_parameters-forgets i o p q h k d e =
    rw
      (
        convert_type_of-HasThree i o p.convert_type q.convert_type h k,
        data_types_of-IsWord (depth i) (depth o) p.data_types q.data_types d e,
        channels_of-HasThree i p.input q.input h,
        channels_of-HasThree o p.output q.output k,
      )
      refl

-- For formats of three channels whose depths are those of a type: the parameters of a conversion do not
-- depend on the one that was configured before, and neither does the colour converter, but for the rows
-- and the shift of its alpha matrix where the input has no alpha.
pub configure_specs-forgets :
    (i o : VideoFormatSpec) (space : YuvColorSpace) (swing : YuvColorSpaceType) (p q : Parameters)
    (m n : ColorConvert)
    → HasThree i
    → HasThree o
    → IsWord (depth i)
    → IsWord (depth o)
    → let one = configure_specs i o space swing (p, m) in
      let other = configure_specs i o space swing (q, n) in
      (one.0 ≡ other.0)
      × (loaded_part (contains i ct_a) one.1 ≡ loaded_part (contains i ct_a) other.1)
unfolding configure_specs
configure_specs-forgets i o space swing p q m n h k d e =
    (format_parameters-forgets i o p q h k d e, configure_colors-fills i o space swing m n k)

load_color_matrix-kept :
    (kind : ColorMatrix) (from to : Bits) (m : ColorConvert)
    → (load_color_matrix kind from to m).a0 ≡ m.a0
unfolding load_color_matrix load_abc2xyz_matrix load_rgb2yuv_matrix load_yuv2rgb_matrix
    load_rgb2gray_matrix load_gray2rgb_matrix load_yuv2gray_matrix load_gray2yuv_matrix
load_color_matrix-kept abc2xyz from to m = refl
load_color_matrix-kept rgb2yuv from to m = refl
load_color_matrix-kept yuv2rgb from to m = refl
load_color_matrix-kept rgb2gray from to m = refl
load_color_matrix-kept gray2rgb from to m = refl
load_color_matrix-kept yuv2gray from to m = refl
load_color_matrix-kept gray2yuv from to m = refl

-- Where the input has no alpha, the alpha matrix stays as it was.
pub configure_colors-kept :
    (i o : VideoFormatSpec) (space : YuvColorSpace) (swing : YuvColorSpaceType) (m : ColorConvert)
    → contains i ct_a ≡ false
    → (configure_colors i o space swing m).a0 ≡ m.a0
unfolding configure_colors load_matrix
configure_colors-kept i o space swing m none =
    let (kind, from, to) = matrix_for i o in
    rw none (load_color_matrix-kept kind from to (set_spaces space swing m))

-- A depth that no type has, on either side, leaves the types of the conversion before, or those of a
-- new one.
pub data_types_of-kept :
    (i o : ℕ) (before : ConvertDataTypes) → ¬ IsWord i → data_types_of i o before ≡ before
unfolding data_types_of
data_types_of-kept i o before none = ground arith
