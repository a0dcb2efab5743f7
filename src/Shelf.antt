-- ===== src/Shelf.antt =====
-- The shelf: the layout of its grid (frontend/src/lib/shelf-grid.ts) and its list of books
-- (frontend/src/hooks/useShelfData.ts).
pub mod Grid
pub mod Books
pub mod Loading
pub mod Uploads
mod Tests
