-- ===== src/Tui/Samples.antt =====
-- The layout at small inputs. The characters from U+4E00 on stand for the wide ones.
use packrat.Prelude.{
  ℕ, ◌+◌, ◌-◌, ◌/◌, ◌%◌, ◌≡◌, ◌≤◌, ◌<◌, refl, Bool, true, none, some, List, [], ◌∷◌, leb, arith,
  length, get_elem?, All,
}
use packrat.Tui.Text.{
  Text, left, right, center, end, middle, cell_width, cell_pad, middle_elide, ellipsis_text,
}
use packrat.Tui.Text.Width.{cell_pad-width, middle_elide-le}
use packrat.Tui.Row.{
  Cell, between, row, grow_widths, grow_weight, fixed_total, fixed_width, any_grow,
}
use packrat.Tui.Row.Exact.{row-width, grow_widths-fill, sum}
use packrat.Tui.Fit.{fit, scroll, truncate}
use packrat.Tui.Fit.Pages.{fit-budget, scroll-shows_all}
use packrat.Tui.Wrap.{break_word, wrap_cells}
use packrat.Tui.Wrap.Total.{wrap_cells-fits, wrap_cells-diverges}

abbrev cjk : ℕ → Bool
cjk c = leb 19968 c

-- "ab" with a wide character between.
abbrev mixed : Text
mixed = 97 ∷ 28450 ∷ 98 ∷ []

cell_pad-width_example : cell_width cjk (cell_pad cjk mixed 3 right) ≡ 3
cell_pad-width_example = cell_pad-width cjk refl mixed 3 right

middle_elide-le_example : cell_width cjk (middle_elide cjk mixed 3 ellipsis_text) ≤ 3
middle_elide-le_example = middle_elide-le cjk mixed 3 ellipsis_text

abbrev fixed_cell : Cell
fixed_cell = record { text = mixed; width = some 4; grow = 0; align = left; elide = end }

abbrev growing_cell : Cell
growing_cell = record { text = mixed; width = none; grow = 2; align = center; elide = middle }

row-width_example : cell_width cjk (row cjk 20 (fixed_cell ∷ fixed_cell ∷ []) 1 between) ≡ 20
row-width_example = row-width cjk refl 20 (fixed_cell ∷ fixed_cell ∷ []) 1 between

abbrev two_growing : List Cell
two_growing = fixed_cell ∷ growing_cell ∷ growing_cell ∷ []

two_growing_grow : any_grow two_growing ≡ true
unfolding any_grow
two_growing_grow = refl

two_growing_fit : fixed_total cjk two_growing + 2 ≤ 21
unfolding fixed_total fixed_width
two_growing_fit = omega arith

grow_widths-fill_example :
    sum (
        grow_widths cjk
          (21 - fixed_total cjk two_growing - 2)
          (grow_weight two_growing)
          0
          two_growing)
      + 2
    ≡ 21
grow_widths-fill_example = grow_widths-fill cjk 21 2 two_growing two_growing_grow two_growing_fit

abbrev no_digits : ℕ → Text
no_digits n = 35 ∷ []

abbrev three_lines : List Text
three_lines = (97 ∷ []) ∷ (98 ∷ []) ∷ (99 ∷ []) ∷ []

fit-budget_example : length (fit no_digits three_lines 2 truncate 0).rows ≡ 2
fit-budget_example = fit-budget no_digits three_lines 2 truncate 0

scroll-shows_all_example :
    (2 / 2 < (fit no_digits three_lines 2 scroll (2 / 2)).total_pages)
    × (get_elem? (fit no_digits three_lines 2 scroll (2 / 2)).rows (2 % 2)
        ≡ get_elem? three_lines 2)
scroll-shows_all_example = scroll-shows_all no_digits three_lines 2 2 (omega arith) (omega arith)

wrap_cells-fits_example :
    (lines : List Text) × (wrap_cells cjk mixed 2 ≡ some lines)
    × All (λ l. cell_width cjk l ≤ 2) lines
wrap_cells-fits_example = wrap_cells-fits cjk refl 2 mixed (omega arith)

wrap_cells-diverges_example :
    (break_word cjk 100 1 (record { lines = []; cur = [] }) (28450 ∷ []) ≡ none)
    × (wrap_cells cjk (28450 ∷ []) 1 ≡ none)
wrap_cells-diverges_example =
    wrap_cells-diverges cjk 28450 100 (record { lines = []; cur = [] }) refl refl refl
