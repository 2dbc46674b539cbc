-- ===== src/Ingest.antt =====
-- The body cutters of the ingest slice (src/ohmyboring/ingest).
pub mod Chunk
mod Examples
