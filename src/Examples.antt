-- ===== src/Examples.antt =====
-- The theorems at concrete inputs.
mod Messages
mod Slots
mod Frames
mod Connections
mod Texts
mod Transfers
mod Registries
mod Preferences
mod Pools
mod Enumerators
mod Conversions
mod Colors
mod Adjustments
