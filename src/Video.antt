-- ===== src/Video.antt =====
-- The description of pixel formats and frames: VCamUtils/src/colorcomponent.cpp, colorplane.cpp,
-- videoformatspec.cpp, videoformat.cpp and the buffer layout of videoframe.cpp.
pub mod Spec
pub mod PixelFormat
pub mod Table
pub mod Format
pub mod Frame
