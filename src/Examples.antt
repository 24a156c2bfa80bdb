-- ===== src/Examples.antt =====
-- Concrete files, hosts and requests, and the theorems applied to them.
pub mod World
pub mod Files
pub mod Wire
pub mod Finding
pub mod Publishing
pub mod Storing
pub mod Clients
pub mod Downloading
pub mod Service
pub mod Administration
pub mod Chains
pub mod Programs
pub mod Delivery
pub mod Node
pub mod Lifecycle
