-- ===== src/Paint.antt =====
-- src/desmata/paint.py: witnessing calls and interfaces, and publishing what was witnessed. The node
-- that is published to, the engine that runs a component and the extractor of its interface are
-- outside the repository, and stand here as parameters.
pub mod Values
pub mod Desk
pub mod Witness
pub mod Node
pub mod References
pub mod Outbox
pub mod Blobs
pub mod Published
pub mod Called
mod Examples
