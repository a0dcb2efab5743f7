-- ===== src/Cover.antt =====
-- Book covers on the shelf (frontend/src/hooks/useCoverUrl.ts): the download queue and the cache of
-- object URLs.
pub mod Queue
pub mod UrlCache
mod Tests
