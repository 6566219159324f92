-- ===== src/Number.antt =====
-- The small value types: VCamUtils/src/fraction.cpp, rect.cpp, algorithm.h and the templates of utils.h.
pub mod Fraction
pub mod FractionText
pub mod Rect
pub mod Algorithm
