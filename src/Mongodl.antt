-- ===== src/Mongodl.antt =====
-- mongodl.py: download and expand builds of MongoDB.
pub mod Version
pub mod Pattern
pub mod Files
pub mod Extract
pub mod Retry
pub mod Url
pub mod Cache
pub mod Target
pub mod Database
pub mod Builds
pub mod Component
pub mod Refresh
pub mod Choice
pub mod Samples
pub mod Listing
pub mod Runs
pub mod Tests
