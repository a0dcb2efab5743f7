-- ===== src/Shelf/Grid.antt =====
-- frontend/src/lib/shelf-grid.ts in whole pixels. A width of a column is a fraction, its numerator
-- and its denominator; a width that is not positive is 0.
use native.Mathlib.Nat.{div-add-mod', mod-lt}
use z_reader.Prelude.{
  ℕ, zero, suc, ◌+◌, ◌-◌, ◌*◌, ◌/◌, ◌%◌, ◌≤◌, ◌<◌, max, ◌≡◌, ◌||◌, if◌then◌else◌, ltb, leb, ◌==◌,
  arith, refl, false,
}

abbrev pub min_col_sm : ℕ
min_col_sm = 176

abbrev pub min_col_lg : ℕ
min_col_lg = 192

abbrev pub gap_mobile : ℕ
gap_mobile = 12

abbrev pub gap_desktop : ℕ
gap_desktop = 16

abbrev pub card_body_height : ℕ
card_body_height = 156

abbrev pub min_col : ℕ → ℕ
min_col container_width = if leb 1024 container_width then min_col_lg else min_col_sm

unfoldable pub get_shelf_column_count : ℕ → ℕ
get_shelf_column_count container_width =
    if ltb container_width 640
    then 2
    else max 2 ((container_width + gap_desktop) / (min_col container_width + gap_desktop))

-- `Math.ceil(itemCount / columnCount)`
unfoldable pub get_shelf_row_count : ℕ → ℕ → ℕ
get_shelf_row_count item_count column_count =
    if (item_count == 0) || (column_count == 0)
    then 0
    else (item_count + (column_count - 1)) / column_count

unfoldable pub get_shelf_gap_px : ℕ → ℕ
get_shelf_gap_px container_width = if ltb container_width 640 then gap_mobile else gap_desktop

unfoldable pub get_shelf_column_width : ℕ → ℕ → ℕ → ℕ × ℕ
get_shelf_column_width container_width column_count gap =
    if (container_width == 0) || (column_count == 0)
    then (160, 1)
    else (container_width - gap * (column_count - 1), column_count)

-- `Math.round(width * 6 / 5 + 156)`
unfoldable pub estimate_shelf_card_height : ℕ → ℕ → ℕ
unfolding get_shelf_gap_px get_shelf_column_width
estimate_shelf_card_height container_width column_count =
    let (n, d) =
      get_shelf_column_width container_width column_count (get_shelf_gap_px container_width) in
    (2 * (6 * n) + 5 * d) / (2 * (5 * d)) + card_body_height

unfoldable pub estimate_shelf_row_height : ℕ → ℕ → ℕ
unfolding estimate_shelf_card_height get_shelf_gap_px
estimate_shelf_row_height container_width column_count =
    estimate_shelf_card_height container_width column_count + get_shelf_gap_px container_width

-- From 640 pixels on, the columns of the least width and the gaps between them fit into the
-- container, and one column more would not.
pub columns_fit :
    (w : ℕ)
    → 640 ≤ w
    → (get_shelf_column_count w * min_col w + (get_shelf_column_count w - 1) * get_shelf_gap_px w
        ≤ w)
      × (w
          < (get_shelf_column_count w + 1) * min_col w
            + get_shelf_column_count w * get_shelf_gap_px w)
unfolding get_shelf_column_count get_shelf_gap_px
columns_fit w h = ground arith

products :
    (items cols q x r : ℕ)
    → 0 < items
    → x + r ≡ items + (cols - 1)
    → r < cols
    → q * cols ≡ x
    → (items ≤ q * cols) × ((q - 1) * cols < items)
products items cols zero x r some_item whole small e = ground arith
products items cols (suc q) x r some_item whole small e = grind (arith, whole, small, e)

-- With at least one item and one column, the rows hold all items and no row is empty.
pub rows_enough :
    (items cols : ℕ)
    → 0 < items
    → 0 < cols
    → (items ≤ get_shelf_row_count items cols * cols)
      × ((get_shelf_row_count items cols - 1) * cols < items)
unfolding get_shelf_row_count
rows_enough items cols hi hc =
    let some_items : (items == 0) ≡ false = ground arith in
    let some_cols : (cols == 0) ≡ false = ground arith in
    rw (some_items, some_cols)
      (products items cols ((items + (cols - 1)) / cols) ((items + (cols - 1)) / cols * cols)
        ((items + (cols - 1)) % cols) hi (div-add-mod' (items + (cols - 1)) cols)
        (mod-lt (items + (cols - 1)) hc) refl)
