-- ===== src/Archive.antt =====
-- src/desmata/cell_archive.py: content-addressing a cell.
mod Samples
mod Examples
pub mod Lines
pub mod Cell
pub mod Manifest
pub mod Files
pub mod Pins
pub mod Sharing
pub mod Unpack
pub mod Stored
pub mod Parcel
pub mod Handover
