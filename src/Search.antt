-- ===== src/Search.antt =====
-- src/ohmyboring/search: how the chunks that a query found are ranked and cut.
pub mod Rank
pub mod Related
mod Examples
