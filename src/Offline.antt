-- ===== src/Offline.antt =====
-- Copies of books on the device: frontend/src/lib/offline-books.ts and
-- frontend/src/lib/book-download.ts.
pub mod Store
pub mod Download
pub mod Library
pub mod Shared
pub mod OpenBook
mod Tests
