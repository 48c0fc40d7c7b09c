-- ===== src/Tui/Wrap.antt =====
-- Word wrapping (`wrap_cells` and `wrap_hints` of tui/layout.py). Lines are appended to an
-- accumulator. The loop that hard-breaks a word runs on fuel, one round more than the word has
-- characters; `none` means that it was used up.
pub mod Total
use packrat.Prelude.{
  ℕ, zero, suc, ◌+◌, ◌≡◌, Bool, true, false, Option, none, some, List, [], ◌∷◌, ◌++◌, ltb, leb,
  ◌==◌, if◌then◌else◌, length, drop,
}
use packrat.Tui.Text.{Text, space, cell_width, cell_truncate}

abbrev pub newline : ℕ
newline = 10

-- str.split of a one-character separator: never empty.
abbrev onto_head : ℕ → List Text → List Text
onto_head c [] = (c ∷ []) ∷ []
onto_head c (t ∷ ts) = (c ∷ t) ∷ ts

unfoldable pub split : ℕ → Text → List Text
split sep [] = [] ∷ []
split sep (c ∷ cs) = let rest = split sep cs in if c == sep then [] ∷ rest else onto_head c rest

-- `if cur: lines.append(cur)`
abbrev flush : List Text → Text → List Text
flush lines [] = lines
flush lines (c ∷ cs) = lines ++ (c ∷ cs) ∷ []

pub record Wrapping : Type 0 where
  pub lines : List Text
  pub cur : Text

module _ (wide : ℕ → Bool) where
  -- The while loop: the lines so far, the current line, and what is left of the word.
  unfoldable pub break_word : ℕ → ℕ → Wrapping → Text → Option (Wrapping × Text)
  break_word zero width s w = none
  break_word (suc fuel) width s w =
      let head = cell_truncate wide w width in
      let rest =
        break_word fuel width (record { lines = flush s.lines s.cur ++ head ∷ []; cur = [] })
          (drop (length head) w) in
      if ltb width (cell_width wide w) then rest else some (s, w)

  -- The word is put on the current line, or begins the next one.
  abbrev pub place : ℕ → List Text → Text → Text → Wrapping
  place width lines [] w = record { lines = lines; cur = w }
  place width lines (c ∷ cs) w =
      if leb (cell_width wide (c ∷ cs) + 1 + cell_width wide w) width
      then record { lines = lines; cur = (c ∷ cs) ++ (space ∷ w) }
      else record { lines = lines ++ (c ∷ cs) ∷ []; cur = w }

  abbrev place_broken : ℕ → Option (Wrapping × Text) → Option Wrapping
  place_broken width none = none
  place_broken width (some (s, w)) = some (place width s.lines s.cur w)

  unfoldable pub wrap_word : ℕ → Wrapping → Text → Option Wrapping
  wrap_word width s w = place_broken width (break_word (suc (length w)) width s w)

  unfoldable pub wrap_words : ℕ → Wrapping → List Text → Option Wrapping
  wrap_words width s [] = some s
  wrap_words width s (w ∷ ws) = elim (wrap_word width s w) [
    | none ↦ none
    | some t ↦ wrap_words width t ws
  ]

  unfoldable pub wrap_paras : ℕ → List Text → List Text → Option (List Text)
  wrap_paras width lines [] = some lines
  wrap_paras width lines (p ∷ ps) =
      elim (wrap_words width (record { lines = lines; cur = [] }) (split space p)) [
        | none ↦ none
        | some s ↦ wrap_paras width (s.lines ++ s.cur ∷ []) ps
      ]

  unfoldable pub wrap_cells : Text → ℕ → Option (List Text)
  wrap_cells text width =
      if width == 0 then some ([] ∷ []) else wrap_paras width [] (split newline text)

  -- The packing loop of `wrap_hints` over the groups into which the regular expression splits.
  abbrev join_hint : ℕ → Text → Wrapping → Text → Wrapping
  join_hint width sep s g =
      if leb (cell_width wide s.cur + cell_width wide sep + cell_width wide g) width
      then record s { cur = s.cur ++ (sep ++ g) }
      else record { lines = s.lines ++ s.cur ∷ []; cur = g }

  abbrev add_hint : ℕ → Text → List Text → Text → Text → Wrapping
  add_hint width sep lines [] g = record { lines = lines; cur = g }
  add_hint width sep lines (c ∷ cs) g =
      join_hint width sep (record { lines = lines; cur = c ∷ cs }) g

  unfoldable pub pack_hints : ℕ → Text → Wrapping → List Text → List Text
  pack_hints width sep s [] = flush s.lines s.cur
  pack_hints width sep s (g ∷ gs) = pack_hints width sep (add_hint width sep s.lines s.cur g) gs

  abbrev or_whole : Text → List Text → List Text
  or_whole footer [] = footer ∷ []
  or_whole footer (l ∷ ls) = l ∷ ls

  -- `groups` is what `re.split` and the filter of empty groups give for the stripped footer.
  unfoldable pub wrap_hints : Text → List Text → ℕ → Text → List Text
  wrap_hints footer groups width sep =
      if leb (cell_width wide footer) width
      then footer ∷ []
      else if width == 0
      then footer ∷ []
      else or_whole footer (pack_hints width sep (record { lines = []; cur = [] }) groups)
