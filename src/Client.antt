-- ===== src/Client.antt =====
-- subfile-exchange/src/subfile_client/mod.rs: the downloader.
pub mod Check
pub mod Constructor
pub mod DownloadSubfile
pub mod Targets
pub mod Request
pub mod Transfer
pub mod Rounds
