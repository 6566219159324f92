-- ===== src/Convert.antt =====
-- VCamUtils/src/videoconverter.cpp: how a conversion is scaled (`configureScaling`), and the arithmetic
-- of the two ways of reading a scaled pixel, the blend and the integral image.
pub mod Parameters
pub mod Configured
pub mod Geometry
pub mod Scaling
pub mod Exact
pub mod Defined
pub mod Tables
pub mod Fits
pub mod Columns
pub mod Shrink
pub mod Boxes
pub mod Blend
pub mod Weights
pub mod Integral
