-- ===== src/Capture.antt =====
-- The players of captured chip writes.
pub mod Imf
pub mod Tags
pub mod Dro2
pub mod Dro
pub mod Raw
pub mod Got
pub mod Sng
