-- ===== src/Tui/Row.antt =====
-- One fixed-width line of cells (`row` and `pager_line` of tui/layout.py).
pub mod Exact
use packrat.Prelude.{
  ℕ, zero, suc, ◌+◌, ◌-◌, ◌*◌, ◌/◌, ◌%◌, ◌≡◌, Bool, true, false, Option, none, some, List, [], ◌∷◌,
  ◌++◌, ltb, leb, ◌==◌, ◌&&◌, ◌||◌, if◌then◌else◌, length, map,
}
use packrat.Tui.Text.{
  Text, spaces, Align, left, center, Elide, end, cell_width, cell_pad, elide, fit_width,
}

-- The semantic role of a cell, which the layout ignores, is left out.
pub record Cell : Type 0 where
  pub text : Text
  pub width : Option ℕ
  pub grow : ℕ
  pub align : Align
  pub elide : Elide

pub data Justify : Type 0 where
  pack between centered : Justify

unfoldable pub grow_weight : List Cell → ℕ
grow_weight [] = 0
grow_weight (c ∷ cs) = c.grow + grow_weight cs

-- sep.join
unfoldable pub join : Text → List Text → Text
join sep [] = []
join sep (t ∷ []) = t
join sep (t ∷ u ∷ ts) = t ++ (sep ++ join sep (u ∷ ts))

-- Whether a grow cell follows.
unfoldable pub any_grow : List Cell → Bool
any_grow [] = false
any_grow (c ∷ cs) = ltb 0 c.grow || any_grow cs

module _ (wide : ℕ → Bool) where
  unfoldable pub render_cell : Cell → ℕ → Text
  render_cell c width =
      if width == 0 then [] else cell_pad wide (elide wide c.text width c.elide) width c.align

  abbrev own_width : Text → Option ℕ → ℕ
  own_width text none = cell_width wide text
  own_width text (some w) = w

  -- The width of a cell in the first loop: a grow cell is passed over.
  unfoldable pub fixed_width : Cell → ℕ
  fixed_width c = if ltb 0 c.grow then 0 else own_width c.text c.width

  unfoldable pub fixed_total : List Cell → ℕ
  fixed_total [] = 0
  fixed_total (c ∷ cs) = fixed_width c + fixed_total cs

  -- The second loop: each grow cell takes its share, the last one what is left.
  unfoldable pub grow_widths : ℕ → ℕ → ℕ → List Cell → List ℕ
  grow_widths leftover weight assigned [] = []
  grow_widths leftover weight assigned (c ∷ cs) =
      let share = leftover * c.grow / weight in
      let w =
        if ltb 0 c.grow
        then (if any_grow cs then share else leftover - assigned)
        else fixed_width c in
      w ∷ grow_widths leftover weight (if ltb 0 c.grow then assigned + share else assigned) cs

  unfoldable pub render_all : List Cell → List ℕ → List Text
  render_all [] ws = []
  render_all (c ∷ cs) [] = []
  render_all (c ∷ cs) (w ∷ ws) = render_cell c w ∷ render_all cs ws

  -- The loop of the 'between' branch from cell i on.
  unfoldable pub spread : ℕ → ℕ → ℕ → ℕ → List Text → Text
  spread gap base extra i [] = []
  spread gap base extra i (t ∷ ts) =
      spaces (gap + base + (if leb i extra then 1 else 0))
      ++ (t ++ spread gap base extra (i + 1) ts)

  -- divmod(slack, n - 1), n cells.
  abbrev between_line : ℕ → ℕ → ℕ → List Text → Text
  between_line gap slack n [] = []
  between_line gap slack n (t ∷ ts) = t ++ spread gap (slack / (n - 1)) (slack % (n - 1)) 1 ts

  abbrev packed : ℕ → ℕ → ℕ → List Text → Text
  packed width gap slack rendered =
      fit_width wide (join (spaces gap) rendered ++ spaces slack) width

  -- The tail of `row` for cells that do not grow.
  abbrev pub justified : Justify → ℕ → ℕ → ℕ → ℕ → List Text → Text
  justified centered width gap slack n rendered =
      spaces (slack / 2) ++ (join (spaces gap) rendered ++ spaces (slack - slack / 2))
  justified between width gap slack n rendered =
      if ltb 1 n
      then fit_width wide (between_line gap slack n rendered) width
      else packed width gap slack rendered
  justified pack width gap slack n rendered = packed width gap slack rendered

  unfoldable pub row : ℕ → List Cell → ℕ → Justify → Text
  row width [] gap justify = spaces width
  row width (c ∷ cs) gap justify =
      let cells = c ∷ cs in
      let n = length cells in
      let gaps_total = gap * (n - 1) in
      let fixed = fixed_total cells in
      let leftover = width - fixed - gaps_total in
      let grown = render_all cells (grow_widths leftover (grow_weight cells) 0 cells) in
      let rendered = render_all cells (map fixed_width cells) in
      if ltb 0 (grow_weight cells)
      then fit_width wide (join (spaces gap) grown) width
      else if leftover == 0
      then fit_width wide (join (spaces gap) rendered) width
      else justified justify width gap leftover n rendered

  -- The decimal numerals are Python's `str`, the parameter `shown`.
  unfoldable pub pager_line : (ℕ → Text) → ℕ → ℕ → ℕ → Text
  pager_line shown width cur total =
      row width
        (record {
          text = (112 ∷ 97 ∷ 103 ∷ 101 ∷ 32 ∷ []) ++ (shown cur ++ (47 ∷ shown total));
          width = none;
          grow = 0;
          align = center;
          elide = end;
        }
          ∷ [])
        1 centered
