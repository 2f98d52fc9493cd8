-- ===== src/Wave.antt =====
-- src/desmata/wave.py: the WAVE text of values, its printer and its parser.
pub mod Value
pub mod Numbers
pub mod Encode
pub mod Parser
pub mod Decode
mod Examples
pub mod Decimal
pub mod Tokens
pub mod Canonical
pub mod Render
pub mod Atoms
pub mod Steps
pub mod RoundTrip
pub mod Dicts
pub mod Uses
pub mod Fuel
