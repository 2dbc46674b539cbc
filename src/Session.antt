-- ===== src/Session.antt =====
-- How a finished session waits for distillation: the marker files (agents/shared/markers.py), the
-- hand-off queue (agents/shared/distill_queue.py) and the worker that drains it
-- (agents/hermes/ingest-worker.py).
pub mod Markers
pub mod Queue
pub mod Worker
mod Examples
