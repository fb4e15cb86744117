-- ===== src/DirectInput.antt =====
-- The wrappers of DirectInput's objects, src/wrapper_*.cpp.
pub mod Effect
pub mod Device
pub mod Publish
pub mod CreateDevice
