-- ===== src/Tui/Row/Exact.antt =====
-- A row has exactly its width, and grow cells share what the fixed ones leave.
use packrat.Prelude.{
  ℕ, suc, ◌+◌, ◌-◌, ◌*◌, ◌/◌, ◌≡◌, ◌≤◌, ◌<◌, Bool, true, false, List, [], ◌∷◌, ◌++◌, ltb, ◌==◌,
  length, map, arith, refl, ap, Bool-cases, inl, inr, ==_false,
}
use packrat.Tui.Text.{Text, space, spaces, left, cell_width, elide, fit_width}
use packrat.Tui.Text.Width.{cell_width-append, cell_width-spaces, cell_pad-width}
use packrat.Tui.Row.{
  Cell, Justify, pack, between, centered, grow_weight, join, any_grow, render_cell, fixed_width,
  fixed_total, grow_widths, render_all, justified, row, pager_line,
}

abbrev pub sum : List ℕ → ℕ
sum [] = 0
sum (n ∷ ns) = n + sum ns

module _ (wide : ℕ → Bool) (narrow : wide space ≡ false) where
  fit_width-exact : (t : Text) (width : ℕ) → cell_width wide (fit_width wide t width) ≡ width
  unfolding fit_width
  fit_width-exact t width = cell_pad-width wide narrow t width left

  render_cell-exact : (c : Cell) (w : ℕ) → cell_width wide (render_cell wide c w) ≡ w
  unfolding render_cell cell_width
  render_cell-exact c w =
      ground (arith, cell_pad-width wide narrow (elide wide c.text w c.elide) w c.align)

  -- The cells and the gaps between them.
  join-render_fixed :
      (gap : ℕ) (c : Cell) (cs : List Cell)
      → cell_width wide
          (join (spaces gap) (render_all wide (c ∷ cs) (map (fixed_width wide) (c ∷ cs))))
        ≡ fixed_total wide (c ∷ cs) + gap * length cs
  unfolding join render_all fixed_total
  join-render_fixed gap c [] = omega (arith, render_cell-exact c (fixed_width wide c))
  join-render_fixed gap c (d ∷ cs) = omega (
    arith,
    render_cell-exact c (fixed_width wide c),
    join-render_fixed gap d cs,
    cell_width-spaces wide narrow gap,
    cell_width-append wide (render_cell wide c (fixed_width wide c)) (
        spaces gap
        ++ join (spaces gap) (render_all wide (d ∷ cs) (map (fixed_width wide) (d ∷ cs)))),
    cell_width-append wide (spaces gap)
        (join (spaces gap) (render_all wide (d ∷ cs) (map (fixed_width wide) (d ∷ cs)))),
  )

  justified-width :
      (justify : Justify) (width gap slack : ℕ) (c : Cell) (cs : List Cell)
      → fixed_total wide (c ∷ cs) + gap * length cs + slack ≡ width
      → cell_width wide (
          justified wide justify width gap slack
            (suc (length cs))
            (render_all wide (c ∷ cs) (map (fixed_width wide) (c ∷ cs))))
        ≡ width
  justified-width centered width gap slack c cs fits =
      let line : Text =
        join (spaces gap) (render_all wide (c ∷ cs) (map (fixed_width wide) (c ∷ cs))) in
      omega (
        arith,
        fits,
        join-render_fixed gap c cs,
        cell_width-spaces wide narrow (slack / 2),
        cell_width-spaces wide narrow (slack - slack / 2),
        cell_width-append wide (spaces (slack / 2)) (line ++ spaces (slack - slack / 2)),
        cell_width-append wide line (spaces (slack - slack / 2)),
      )
  justified-width between width gap slack c cs fits = elim (Bool-cases (ltb 1 (suc (length cs)))) [
    | inl several ↦ rw several (fit_width-exact _ width)
    | inr one ↦ rw one (fit_width-exact _ width)
  ]
  justified-width pack width gap slack c cs fits = fit_width-exact _ width

  -- A row is exactly `width` cells wide, whatever its cells, its gap and its justification, where a
  -- space is one cell wide.
  pub row-width :
      (width : ℕ) (cells : List Cell) (gap : ℕ) (justify : Justify)
      → cell_width wide (row wide width cells gap justify) ≡ width
  unfolding row
  row-width width [] gap justify = cell_width-spaces wide narrow width
  row-width width (c ∷ cs) gap justify =
      let slack : ℕ = width - fixed_total wide (c ∷ cs) - gap * (suc (length cs) - 1) in
      elim (Bool-cases (ltb 0 (grow_weight (c ∷ cs)))) [
        | inl grows ↦ rw grows (fit_width-exact _ width)
        | inr fixed ↦ elim (Bool-cases (slack == 0)) [
          | inl tight ↦ rw (fixed, tight) (fit_width-exact _ width)
          | inr loose ↦
              rw (fixed, loose) (justified-width justify width gap slack c cs (room loose))
        ]
      ]
    where
      room :
          ((width - fixed_total wide (c ∷ cs) - gap * (suc (length cs) - 1)) == 0) ≡ false
          → fixed_total wide (c ∷ cs)
              + gap * length cs
              + (width - fixed_total wide (c ∷ cs) - gap * (suc (length cs) - 1))
            ≡ width
      room loose =
          let e : suc (length cs) - 1 ≡ length cs = omega arith in
          omega (arith, ap (λ (m : ℕ). gap * m) e, ==_false _ 0 loose)

  -- The pager line is as wide as asked.
  pub pager_line-width :
      (shown : ℕ → Text) (width cur total : ℕ)
      → cell_width wide (pager_line wide shown width cur total) ≡ width
  unfolding pager_line
  pager_line-width shown width cur total = row-width width _ 1 centered

share-le :
    (leftover grow weight : ℕ) → 0 < weight → leftover * grow / weight * weight ≤ leftover * grow
share-le leftover grow weight h = grind arith

le-of-mul : (a b w : ℕ) → 0 < w → a * w ≤ b * w → a ≤ b
le-of-mul a b w h k = grind arith

module _ (wide : ℕ → Bool) (leftover weight : ℕ) (some_weight : 0 < weight) where
  no_grow-sum :
      (assigned : ℕ) (cells : List Cell)
      → any_grow cells ≡ false
      → sum (grow_widths wide leftover weight assigned cells) ≡ fixed_total wide cells
  unfolding grow_widths fixed_total any_grow
  no_grow-sum assigned [] none_grow = refl
  no_grow-sum assigned (c ∷ cs) none_grow = ground (arith, no_grow-sum assigned cs)

  -- The shares given out so far and those to come fit into what is left over.
  abbrev Fits : ℕ → List Cell → Type 0
  Fits assigned cells = assigned * weight + leftover * grow_weight cells ≤ leftover * weight

  Fits-step :
      (assigned : ℕ) (c : Cell) (cs : List Cell)
      → Fits assigned (c ∷ cs)
      → Fits (assigned + leftover * c.grow / weight) cs
  unfolding grow_weight
  Fits-step assigned c cs room = omega (arith, share-le leftover c.grow weight some_weight, room)

  Fits-bound : (assigned : ℕ) (cells : List Cell) → Fits assigned cells → assigned ≤ leftover
  Fits-bound assigned cells room =
      le-of-mul assigned leftover weight some_weight (omega (arith, room))

  grows_none : (c : Cell) → ltb 0 c.grow ≡ true → fixed_width wide c ≡ 0
  unfolding fixed_width
  grows_none c grows = rw grows refl

  stays_Fits :
      (assigned : ℕ) (c : Cell) (cs : List Cell)
      → ltb 0 c.grow ≡ false
      → Fits assigned (c ∷ cs)
      → Fits assigned cs
  unfolding grow_weight
  stays_Fits assigned c cs stays room =
      let none_grows : c.grow ≡ 0 = ground arith in
      omega (arith, room, ap (λ (g : ℕ). leftover * g) none_grows)

  sum-grow_widths :
      (assigned : ℕ) (cells : List Cell)
      → any_grow cells ≡ true
      → Fits assigned cells
      → sum (grow_widths wide leftover weight assigned cells)
        ≡ fixed_total wide cells + (leftover - assigned)
  unfolding grow_widths fixed_total any_grow
  sum-grow_widths assigned [] some_grow room = cc
  sum-grow_widths assigned (c ∷ cs) some_grow room = elim (Bool-cases (ltb 0 c.grow)) [
    | inl grows ↦ elim (Bool-cases (any_grow cs)) [
      | inl more ↦
          rw (grows, more)
            (omega (
              arith,
              sum-grow_widths (assigned + leftover * c.grow / weight) cs more
                  (Fits-step assigned c cs room),
              Fits-bound (assigned + leftover * c.grow / weight) cs (Fits-step assigned c cs room),
              grows_none c grows,
            ))
      | inr last ↦
          rw (grows, last)
            (omega (
              arith,
              no_grow-sum (assigned + leftover * c.grow / weight) cs last,
              grows_none c grows,
            ))
    ]
    | inr stays ↦ rw stays (
        omega
          (arith, sum-grow_widths assigned cs (ground arith) (stays_Fits assigned c cs stays room)))
  ]

positive : (cells : List Cell) → any_grow cells ≡ true → 0 < grow_weight cells
unfolding any_grow grow_weight
positive [] h = cc
positive (c ∷ cs) h = ground (arith, positive cs)

-- Where some cell grows, the widths given to the cells and the gaps between them fill the row
-- exactly, unless the fixed cells and the gaps alone are too wide.
pub grow_widths-fill :
    (wide : ℕ → Bool) (width gaps : ℕ) (cells : List Cell)
    → any_grow cells ≡ true
    → fixed_total wide cells + gaps ≤ width
    → sum (grow_widths wide (width - fixed_total wide cells - gaps) (grow_weight cells) 0 cells)
        + gaps
      ≡ width
grow_widths-fill wide width gaps cells some_grow fits = omega (
  arith,
  fits,
  sum-grow_widths wide (width - fixed_total wide cells - gaps) (grow_weight cells)
      (positive cells some_grow) 0 cells some_grow (omega arith),
)
