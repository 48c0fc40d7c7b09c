-- ===== src/Tui/Text.antt =====
-- Display widths, padding and eliding (tui/layout.py). A text is its list of code points; whether
-- one is East-Asian wide is the parameter `wide` (unicodedata.east_asian_width). Widths are natural
-- numbers: the guards on a negative width act as at 0.
pub mod Width
use mathlib.Core.List.{reverse}
use packrat.Prelude.{
  ℕ, suc, ◌+◌, ◌-◌, ◌/◌, ◌≡◌, Bool, true, false, List, [], ◌∷◌, ◌++◌, replicate, ltb, leb, ◌==◌,
  if◌then◌else◌,
}

abbrev pub Text : Type 0
Text = List ℕ

abbrev pub space : ℕ
space = 32

abbrev pub spaces : ℕ → Text
spaces n = replicate n space

-- tokens.ELLIPSIS
abbrev pub ellipsis_text : Text
ellipsis_text = 8230 ∷ []

-- The two named values; any other text acts as `left`.
pub data Align : Type 0 where
  left right center : Align

pub data Elide : Type 0 where
  hard_cut middle end : Elide

module _ (wide : ℕ → Bool) where
  unfoldable pub char_width : ℕ → ℕ
  char_width c = if wide c then 2 else 1

  unfoldable pub cell_width : Text → ℕ
  cell_width [] = 0
  cell_width (c ∷ cs) = char_width c + cell_width cs

  -- The loop of `cell_truncate`, with `used` cells taken.
  unfoldable pub truncate_from : ℕ → ℕ → Text → Text
  truncate_from used width [] = []
  truncate_from used width (c ∷ cs) =
      let rest = truncate_from (used + char_width c) width cs in
      if ltb width (used + char_width c) then [] else c ∷ rest

  unfoldable pub cell_truncate : Text → ℕ → Text
  cell_truncate text width = if width == 0 then [] else truncate_from 0 width text

  -- The branches of `cell_pad` over a text that leaves `pad` cells free.
  abbrev pub pad_by : Align → ℕ → Text → Text
  pad_by right pad cut = spaces pad ++ cut
  pad_by center pad cut = spaces (pad / 2) ++ (cut ++ spaces (pad - pad / 2))
  pad_by left pad cut = cut ++ spaces pad

  unfoldable pub cell_pad : Text → ℕ → Align → Text
  cell_pad text width align =
      let cut = cell_truncate text width in
      let pad = width - cell_width cut in if pad == 0 then cut else pad_by align pad cut

  unfoldable pub tail_by_cells : Text → ℕ → Text
  tail_by_cells text width =
      if width == 0 then [] else reverse (truncate_from 0 width (reverse text))

  unfoldable pub middle_elide : Text → ℕ → Text → Text
  middle_elide text width ellipsis =
      let ell = cell_width ellipsis in
      let keep = width - ell in
      let head = (keep + 1) / 2 in
      let tail = keep - head in
      if leb (cell_width text) width
      then text
      else if leb width ell
      then cell_truncate ellipsis width
      else cell_truncate text head
        ++ (ellipsis ++ (if tail == 0 then [] else tail_by_cells text tail))

  unfoldable pub end_elide : Text → ℕ → Text → Text
  end_elide text width ellipsis =
      let ell = cell_width ellipsis in
      if width == 0
      then []
      else if leb (cell_width text) width
      then text
      else if leb width ell
      then cell_truncate ellipsis width
      else cell_truncate text (width - ell) ++ ellipsis

  abbrev pub elide_by : Elide → Text → ℕ → Text
  elide_by middle text width = middle_elide text width ellipsis_text
  elide_by hard_cut text width = cell_truncate text width
  elide_by end text width = end_elide text width ellipsis_text

  unfoldable pub elide : Text → ℕ → Elide → Text
  elide text width mode =
      if width == 0
      then []
      else if leb (cell_width text) width
      then text
      else elide_by mode text width

  unfoldable pub fit_width : Text → ℕ → Text
  fit_width s width = cell_pad s width left
