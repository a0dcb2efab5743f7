-- ===== src/Reader.antt =====
-- What a reader does beside reading: bookmarks (frontend/src/hooks/useReaderBookmarks.ts).
pub mod Bookmarks
mod Tests
