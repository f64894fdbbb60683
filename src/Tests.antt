-- ===== src/Tests.antt =====
-- Sample inputs, runs of the model on them, and the theorems at these inputs.
mod Executor
mod Resume
mod Services
mod Queue
mod More
mod Pool
mod Logic
mod Validator
mod Scheduler
mod Cron
mod Inputs
