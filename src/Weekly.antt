-- ===== src/Weekly.antt =====
-- The weekly updates: their sources (app/reports/sources.py), the workflow of one report
-- (app/reports/workflow.py) and the run over all groups (app/weekly_update.py).
pub mod Sources
pub mod Workflow
pub mod Run
pub mod Frame
pub mod Queueing
pub mod Settling
pub mod Keeping
pub mod Sending
pub mod Period
pub mod Stored
pub mod Dated
