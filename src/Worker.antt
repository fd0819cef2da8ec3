-- ===== src/Worker.antt =====
-- What the ARQ workers (ingestion_worker.py, generation_worker.py) get from outside: the child
-- process, the clock, and what other processes do to the shared state at each wait.
mod Task
pub mod Behaviour
pub mod Ending
pub mod Writes
pub mod Ingestion
pub mod Deletion
pub mod Generation
pub use Task.{Exit, Poll, Run, IsUndisturbed, TaskResult, was_cancelled, finished}
unfoldable pub use Task.{unwanted, is_flagged, chosen, report_of, failure}
