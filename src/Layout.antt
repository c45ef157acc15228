-- ===== src/Layout.antt =====
-- Fixed memory geometry: internal/concept/layout.go.
pub mod Align
pub mod Fields
pub mod Geometry
pub mod Regions
pub mod Streams
mod Tests
