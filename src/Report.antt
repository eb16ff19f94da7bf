-- ===== src/Report.antt =====
-- pkg/report: the results of a run, their counts, and the document an agent reads.
pub mod Collector
pub mod Agent
