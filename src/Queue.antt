-- ===== src/Queue.antt =====
-- citra_queue/queue.py: the job queue on Redis streams.
pub mod Job
pub mod RoundTrip
pub mod Session
pub mod Consumer
pub mod Reader
pub mod Failures
pub mod Safety
pub mod Claims
