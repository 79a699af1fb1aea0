-- ===== src/Report.antt =====
-- internal/report/report.go: the log of the requests and the monthly reports that are made of it.
pub mod Log
pub mod Accs
pub mod Glob
pub mod Rows
pub mod Service
pub mod Totals
pub mod Counts
pub mod Fresh
pub mod Cached
mod Tests
