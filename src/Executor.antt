-- ===== src/Executor.antt =====
-- citra_workflow/executor.py, the engine that runs a workflow's graph.
pub mod Branch
pub mod Graph
pub mod State
pub mod Visit
pub mod Loop
pub mod Start
pub mod Slots
pub mod Resume
