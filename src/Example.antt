-- ===== src/Example.antt =====
-- examples/: the article service, which drives every part of the library over HTTP.
pub mod Models
pub mod Wire
pub mod Store
pub mod Server
pub mod Shown
pub mod Startup
