-- ===== src/Lib.antt =====
-- A model of the core of akvirtualcamera, a virtual camera for Mac and Windows.
--
-- A client of the service sends frames of a device (a broadcast) or asks for them (a listen
-- request). Client and service exchange messages over a socket; a frame travels inside a message as
-- its format and its bytes, and its buffer is laid out by its format alone.
--
-- Parts, and where they come from:
--   Base: strings as lists of bytes, lists, buffers with bounds-checked reads, integers, std::map.
--   Number/Algorithm: VCamUtils/src/algorithm.h (alignUp, multBytesRequired).
--   Number/Fraction: VCamUtils/src/fraction.cpp (comparisons and tests; the products are
--     unbounded); FractionText has its text and the constructor from one, with strtol as a parameter.
--   Number/Rect: VCamUtils/src/rect.cpp (tests and intersection; sums of ints wrap around).
--   Color: VCamUtils/src/colorconvert.h, the state of a ColorConvert and what applies it; its
--     numbers are int64_t, whose products and sums wrap around. Rounding, Swing, Matrix and Load have
--     colorconvert.cpp: rbConstants, roundedDiv and nearestPowOf2, limitsY and limitsUV, the
--     functions that fill a matrix, and those that choose one. Nearest is about rounding, Ordered and
--     Within about the limits of a channel, Depth and Channels about channels that change their bits,
--     Alpha about alpha, RoundTrip about pixels converted back.
--   Convert: VCamUtils/src/videoconverter.cpp. Parameters has configure and reset, and Configured
--     what a conversion before leaves; Scaling is configureScaling up to the part of the source that
--     is read, with ints that wrap around, Geometry the same with exact numbers, and Exact where the
--     two agree; Defined is about its divisions, Tables what its tables hold, Blend the template
--     blend, Integral the image of sums (allocateDlBuffers, integralImage1, readDL1). Fits, Columns,
--     Shrink, Boxes and Weights are about the geometry and the tables, Integral/Rows and Means about
--     the sums.
--   Adjust: VCamUtils/src/videoadjusts.cpp; Hsl has the turn of hue, saturation and luminance,
--     Chain the order of adjust between its two conversions, Mirror and Ignored are about the
--     mirrors.
--   Video/PixelFormat: VCamUtils/src/videoformattypes.h and commons.h, the four-character codes.
--   Video/Spec: VCamUtils/src/colorcomponent.cpp, colorplane.cpp, videoformatspec.cpp.
--   Video/Table, Video/Format: VCamUtils/src/videoformat.cpp, the table of formats and VideoFormat.
--   Video/Frame: VCamUtils/src/videoframe.cpp, the constructor from a format, updateParams and
--     line; Layout on where planes and lines lie, Size on dataSize.
--   Message: VCamUtils/src/message.cpp and servicemsg.h; to_message is toMessage, and from_message
--     the constructor from a Message, in one module for each of the five messages. Frames has what
--     the two messages with a frame share.
--   Server: VCamUtils/src/messageserver.cpp; subscribe, unsubscribe, handle (the part of a round
--     under m_handlersMutex) and connection. Subscriptions and Replies are about any handlers,
--     Sessions about those of the service, up to the close of the connection.
--   Service: Service/src/service.cpp; broadcast_slots and take_frame are the body of broadcast,
--     enter_listen and leave_listen the two halves of listen around its wait, collect the loop of
--     clients, remove_client is removeClientById. Waiting has the interleavings of a waiting listener
--     with the closes of other connections as a step relation.
--   Text: VCamUtils/src/utils.cpp (trimmed, join, split, splitOnce, endsWith).
--   Settings: VCamUtils/src/settings.cpp; parse and parse_string read a line, Store has load and
--     the access to the values.
--   Sockets: VCamUtils/src/sockets.cpp and sockets.h, over a socket of the system that transfers
--     any part of what it is given; Framing has the three values of a message on the wire.
--   Client: VCamUtils/src/messageclient.cpp, the loop of connection behind the connect; Exchange
--     puts it against the loop of the server, Send is about send(inMessage, outMessage), and Ends
--     about callbacks that ask for a bounded number of rounds.
--   Registry: the registry of Windows as an interface with laws; Trees has deleteTree and copyTree
--     of windows/PlatformUtils/src/utils.cpp, Frame what they leave as it is.
--   Preferences: windows/PlatformUtils/src/preferences.cpp; write is setValue, read_value
--     readValue. Cameras has the functions on cameras, Options those on single values. View is the
--     list of the cameras that the settings show; Devices, Overwritten and Removal are about
--     addDevice, addCamera and removeCamera, Formats, FormatTrip and SetFormats about
--     cameraSetFormats on texts and ints, CommonFormats about the formats that these stand for.
--   Allocator: windows/dshow/BaseFilter/src/memallocator.cpp with the references of
--     mediasample.cpp; find_free is the loop of GetBuffer over the samples, try_take what follows a
--     wait. Calls has the calls in any order.
--   Enumerator: windows/dshow/BaseFilter/src/enummediatypes.cpp.
--   Examples: the theorems at concrete inputs.
--
-- Conventions. The machine is 64-bit and little-endian; a size_t is a natural number with the wrap
-- at 2 ^ 64 written out, an int, a bool and an enum in a message or a format are their bits. Signed
-- overflow wraps around, as the machines do it. Other undefined behaviour is an Option's `none`: a
-- read or a write outside a buffer, a reference to a slot that is gone. `heap n` is the contents of
-- n new bytes, of which only the length is known. A string is its bytes, a std::map a list in the
-- order of its keys. Loops are structural but for these: the digits of a size_t have fuel 20, which
-- is enough below 2 ^ 64; a transfer of n bytes has n rounds at most, since each transfers a byte
-- or ends it; a client's loop has as many rounds as its callbacks ask for, a parameter; and a tree
-- of the registry has the 512 levels that Windows allows; nearestPowOf2 has its value as fuel,
-- which it halves. A double that holds a sum is a number. In a connection the received messages,
-- the fresh query ids and whether an answer can be sent are inputs; in the step relation a wait
-- ends at any moment, by its time or by a notification.
--
-- The parameters are strtol, the tables of gamma and contrast, whose entries are floating-point
-- powers and products, and the system's socket (Socket) and registry (Registry): their calls, with
-- laws that say what is documented of them. A registry handle is the path of its key, and names
-- differ without regard to the case of ASCII letters. What fails may leave any state that the laws
-- allow.
--
-- Not modelled: the connect and accept of sockets, threads of the server, shared memory, the logger
-- and timers, the kernels of the conversion of frames (one loop in a variant for each number of
-- channels and size of words), file loading of frames, the C interface, the manager, and of the
-- plugins of the platforms all but the preferences of Windows, its allocator of samples and its
-- enumeration of media types.
pub mod Base
pub mod Number
pub mod Video
pub mod Message
pub mod Service
pub mod Server
pub mod Text
pub mod Settings
pub mod Sockets
pub mod Client
pub mod Registry
pub mod Preferences
pub mod Allocator
pub mod Enumerator
pub mod Color
pub mod Convert
pub mod Adjust
pub mod Examples
