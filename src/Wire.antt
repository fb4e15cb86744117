-- ===== src/Wire.antt =====
-- src/telemetry_protocol.h and src/telemetry_protocol.cpp.
pub mod Model
pub mod Writer
pub mod Text
mod Truncation
mod Copy
pub mod Kinds
pub mod Effect
pub mod Parameters
pub mod Frame
pub mod Flags
pub mod Reader
pub mod Agree
pub mod Groups
pub mod Size
pub mod RoundTrip
mod Runs
