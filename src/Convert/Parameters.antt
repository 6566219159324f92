-- ===== src/Convert/Parameters.antt =====
-- `FrameConvertParameters::configure` and `reset` of VCamUtils/src/videoconverter.cpp: how the formats of
-- both sides are turned into a way to convert.
use akvirtualcamera.Base.{
  ℕ, ◌-◌, ◌*◌, ◌^◌, Bool, true, false, ◌&&◌, Option, some, ◌==◌, if◌then◌else◌,
}
use akvirtualcamera.Number.Algorithm.{wrap64}
use akvirtualcamera.Video.PixelFormat
use akvirtualcamera.Video.Spec.{
  VideoFormatType, vft_rgb, vft_yuv, vft_gray, vft_unknown, ColorComponent, default_component,
  ComponentType, ct_r, ct_g, ct_b, ct_y, ct_u, ct_v, ct_a, VideoFormatSpec, component,
  component_plane, contains, depth, main_components, is_fast, endianness_bo,
}
use akvirtualcamera.Video.Table.{format_specs}
use akvirtualcamera.Color.{ColorConvert, YuvColorSpace, YuvColorSpaceType}
use akvirtualcamera.Color.Load.{load_matrix}

pub data ConvertType : Type 0 where
  convert_vector convert_1to1 convert_1to3 convert_3to1 convert_3to3 : ConvertType

pub data ConvertDataTypes : Type 0 where
  types_8_8 types_8_16 types_8_32 types_16_8 types_16_16 types_16_32 types_32_8 types_32_16
        types_32_32 :
      ConvertDataTypes

pub data ConvertAlphaMode : Type 0 where
  alpha_ai_ao alpha_ai_o alpha_i_ao alpha_i_o : ConvertAlphaMode

-- A channel: `none` is the plane -1.
pub record Channel : Type 0 where
  pub plane : Option ℕ
  pub comp : ColorComponent

-- The channels of one side.
pub record Channels : Type 0 where
  pub x : Channel
  pub y : Channel
  pub z : Channel
  pub a : Channel

-- What `configure` sets. The offsets, shifts and greatest values are those of the components.
pub record Parameters : Type 0 where
  pub convert_type : ConvertType
  pub data_types : ConvertDataTypes
  pub alpha_mode : ConvertAlphaMode
  pub from_endian : ℕ
  pub to_endian : ℕ
  pub input : Channels
  pub output : Channels
  pub fast : Bool

abbrev no_channel : Channel
no_channel = record { plane = some 0; comp = default_component }

abbrev no_channels : Channels
no_channels = record { x = no_channel; y = no_channel; z = no_channel; a = no_channel }

-- `reset`, of what `configure` sets.
unfoldable pub reset_parameters : Parameters
reset_parameters = record {
  convert_type = convert_vector;
  data_types = types_8_8;
  alpha_mode = alpha_ai_ao;
  from_endian = endianness_bo;
  to_endian = endianness_bo;
  input = no_channels;
  output = no_channels;
  fast = false;
}

-- DEFINE_CONVERT_TYPES: depths that are none of these leave what was there.
unfoldable pub data_types_of : ℕ → ℕ → ConvertDataTypes → ConvertDataTypes
data_types_of i o before =
    if i == 8 && o == 8
    then types_8_8
    else if i == 8 && o == 16
    then types_8_16
    else if i == 8 && o == 32
    then types_8_32
    else if i == 16 && o == 8
    then types_16_8
    else if i == 16 && o == 16
    then types_16_16
    else if i == 16 && o == 32
    then types_16_32
    else if i == 32 && o == 8
    then types_32_8
    else if i == 32 && o == 16
    then types_32_16
    else if i == 32 && o == 32
    then types_32_32
    else before

abbrev type_index : VideoFormatType → ℕ
type_index vft_unknown = 0
type_index vft_rgb = 1
type_index vft_yuv = 2
type_index vft_gray = 3

unfoldable pub convert_type_of : VideoFormatSpec → VideoFormatSpec → ConvertType → ConvertType
unfolding main_components
convert_type_of i o before =
    let n = main_components i in
    let m = main_components o in
    if n == 3 && type_index i.type == type_index o.type
    then convert_vector
    else if n == 3 && m == 3
    then convert_3to3
    else if n == 3 && m == 1
    then convert_3to1
    else if n == 1 && m == 3
    then convert_1to3
    else if n == 1 && m == 1
    then convert_1to1
    else before

unfoldable pub channel_of : VideoFormatSpec → ComponentType → Channel
unfolding component_plane component
channel_of s t = record { plane = component_plane s t; comp = component s t }

-- The switch on the type of a format: the channels that it does not name stay.
unfoldable pub main_channels : VideoFormatType → VideoFormatSpec → Channels → Channels
unfolding channel_of
main_channels vft_rgb s c = record c {
  x = channel_of s ct_r;
  y = channel_of s ct_g;
  z = channel_of s ct_b;
}
main_channels vft_yuv s c = record c {
  x = channel_of s ct_y;
  y = channel_of s ct_u;
  z = channel_of s ct_v;
}
main_channels vft_gray s c = record c { x = channel_of s ct_y }
main_channels vft_unknown s c = c

unfoldable pub channels_of : VideoFormatSpec → Channels → Channels
unfolding main_channels channel_of
channels_of s c = record (main_channels s.type s c) { a = channel_of s ct_a }

unfoldable pub alpha_mode_of : Bool → Bool → ConvertAlphaMode
alpha_mode_of true true = alpha_ai_ao
alpha_mode_of true false = alpha_ai_o
alpha_mode_of false true = alpha_i_ao
alpha_mode_of false false = alpha_i_o

-- The format of the output, which is that of the input where none is given.
unfoldable pub output_code : ℕ → ℕ → ℕ
output_code i o = if o == PixelFormat.unset then i else o

unfoldable pub format_parameters : VideoFormatSpec → VideoFormatSpec → Parameters → Parameters
unfolding data_types_of convert_type_of channels_of alpha_mode_of is_fast depth contains
format_parameters i o p = record {
  convert_type = convert_type_of i o p.convert_type;
  data_types = data_types_of (depth i) (depth o) p.data_types;
  alpha_mode = alpha_mode_of (contains i ct_a) (contains o ct_a);
  from_endian = i.endianness;
  to_endian = o.endianness;
  input = channels_of i p.input;
  output = channels_of o p.output;
  fast = is_fast i && is_fast o;
}

-- The colour converter that is passed to `configure`: its matrices are loaded in the same call.
unfoldable pub configure_colors :
    VideoFormatSpec
    → VideoFormatSpec
    → YuvColorSpace
    → YuvColorSpaceType
    → ColorConvert
    → ColorConvert
unfolding load_matrix
configure_colors i o space swing m = load_matrix i o (record m { space = space; swing = swing })

unfoldable pub configure_specs :
    VideoFormatSpec
    → VideoFormatSpec
    → YuvColorSpace
    → YuvColorSpaceType
    → Parameters × ColorConvert
    → Parameters × ColorConvert
unfolding format_parameters configure_colors
configure_specs i o space swing (p, m) =
    (format_parameters i o p, configure_colors i o space swing m)

unfoldable pub configure :
    ℕ
    → ℕ
    → YuvColorSpace
    → YuvColorSpaceType
    → Parameters × ColorConvert
    → Parameters × ColorConvert
unfolding configure_specs output_code
configure i o space swing before =
    configure_specs (format_specs i) (format_specs (output_code i o)) space swing before

-- `max<uint64_t>()` of a component, and the mask that clears its bits in a word.
unfoldable pub component_max : ColorComponent → ℕ
component_max c = wrap64 (2 ^ c.depth) - 1

unfoldable pub component_mask : ColorComponent → ℕ
unfolding component_max
component_mask c = 2 ^ 64 - 1 - wrap64 (component_max c * 2 ^ c.shift)
