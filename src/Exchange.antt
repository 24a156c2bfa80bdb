-- ===== src/Exchange.antt =====
-- Publisher, server and downloader together.
pub mod Network
pub mod Served
pub mod Answers
pub mod Intact
pub mod Delivered
pub mod Distinct
pub mod Downloaded
pub mod Entries
pub mod Programs
pub mod Lifecycle
