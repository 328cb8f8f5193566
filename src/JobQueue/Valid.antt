-- ===== src/JobQueue/Valid.antt =====
-- The functions of queue.go and the place of each job.
pub mod Put
pub mod Take
