-- ===== src/Tui/Text/Width.antt =====
-- Every operation keeps within its width.
use mathlib.Core.List.{reverse, reverse-append}
use packrat.Prelude.{
  ℕ, zero, suc, ◌+◌, ◌-◌, ◌/◌, ◌≡◌, ◌≤◌, refl, Bool, false, [], ◌∷◌, ◌++◌, ◌==◌, if◌then◌else◌,
  arith, ap, ◌∙◌,
}
use packrat.Tui.Text.{
  Text, space, spaces, Align, left, right, center, char_width, cell_width, truncate_from,
  cell_truncate, pad_by, cell_pad, tail_by_cells, middle_elide, end_elide,
}

module _ (wide : ℕ → Bool) where
  pub cell_width-append :
      (a b : Text) → cell_width wide (a ++ b) ≡ cell_width wide a + cell_width wide b
  unfolding cell_width
  cell_width-append [] b = omega arith
  cell_width-append (c ∷ cs) b = omega (arith, cell_width-append cs b)

  pub cell_width-reverse : (a : Text) → cell_width wide (reverse a) ≡ cell_width wide a
  unfolding cell_width
  cell_width-reverse [] = refl
  cell_width-reverse (c ∷ cs) =
      ap (cell_width wide) (reverse-append (c ∷ []) cs)
      ∙ (cell_width-append (reverse cs) (c ∷ []) ∙ omega (arith, cell_width-reverse cs))

  pub truncate_from-le :
      (used width : ℕ) (t : Text)
      → used ≤ width
      → used + cell_width wide (truncate_from wide used width t) ≤ width
  unfolding truncate_from cell_width
  truncate_from-le used width [] h = omega arith
  truncate_from-le used width (c ∷ cs) h =
      ground (arith, truncate_from-le (used + char_width wide c) width cs)

  pub cell_truncate-le :
      (t : Text) (width : ℕ) → cell_width wide (cell_truncate wide t width) ≤ width
  unfolding cell_truncate cell_width
  cell_truncate-le t width = ground (arith, truncate_from-le 0 width t)

  pub tail_by_cells-le :
      (t : Text) (width : ℕ) → cell_width wide (tail_by_cells wide t width) ≤ width
  unfolding tail_by_cells cell_width
  tail_by_cells-le t width = ground (
    arith,
    truncate_from-le 0 width (reverse t),
    cell_width-reverse (truncate_from wide 0 width (reverse t)),
  )

  abbrev tail_part : Text → ℕ → Text
  tail_part t n = if n == 0 then [] else tail_by_cells wide t n

  tail_part-le : (t : Text) (n : ℕ) → cell_width wide (tail_part t n) ≤ n
  unfolding cell_width
  tail_part-le t n = ground (arith, tail_by_cells-le t n)

  -- Eliding from the middle keeps within the width, for any text, width and ellipsis.
  pub middle_elide-le :
      (t : Text) (width : ℕ) (e : Text) → cell_width wide (middle_elide wide t width e) ≤ width
  unfolding middle_elide
  middle_elide-le t width e =
      let keep : ℕ = width - cell_width wide e in
      let head : ℕ = (keep + 1) / 2 in
      ground (
        arith,
        cell_truncate-le e width,
        cell_truncate-le t head,
        tail_part-le t (keep - head),
        cell_width-append (cell_truncate wide t head) (e ++ tail_part t (keep - head)),
        cell_width-append e (tail_part t (keep - head)),
      )

  -- Eliding from the end keeps within the width, for any text, width and ellipsis.
  pub end_elide-le :
      (t : Text) (width : ℕ) (e : Text) → cell_width wide (end_elide wide t width e) ≤ width
  unfolding end_elide cell_width
  end_elide-le t width e = ground (
    arith,
    cell_truncate-le e width,
    cell_truncate-le t (width - cell_width wide e),
    cell_width-append (cell_truncate wide t (width - cell_width wide e)) e,
  )

module _ (wide : ℕ → Bool) (narrow : wide space ≡ false) where
  pub cell_width-spaces : (n : ℕ) → cell_width wide (spaces n) ≡ n
  unfolding cell_width char_width
  cell_width-spaces zero = refl
  cell_width-spaces (suc n) = ground (arith, cell_width-spaces n)

  pad_by-width :
      (a : Align) (pad : ℕ) (cut : Text)
      → cell_width wide (pad_by wide a pad cut) ≡ pad + cell_width wide cut
  pad_by-width left pad cut =
      omega (arith, cell_width-append wide cut (spaces pad), cell_width-spaces pad)
  pad_by-width right pad cut =
      omega (arith, cell_width-append wide (spaces pad) cut, cell_width-spaces pad)
  pad_by-width center pad cut = omega (
    arith,
    cell_width-append wide (spaces (pad / 2)) (cut ++ spaces (pad - pad / 2)),
    cell_width-append wide cut (spaces (pad - pad / 2)),
    cell_width-spaces (pad / 2),
    cell_width-spaces (pad - pad / 2),
  )

  -- Where a space is one cell wide, a text that is padded to a width has exactly that width,
  -- whatever the text, the width and the alignment.
  pub cell_pad-width :
      (t : Text) (width : ℕ) (a : Align) → cell_width wide (cell_pad wide t width a) ≡ width
  unfolding cell_pad
  cell_pad-width t width a = ground (
    arith,
    cell_truncate-le wide t width,
    pad_by-width a (width - cell_width wide (cell_truncate wide t width))
        (cell_truncate wide t width),
  )
