-- ===== src/Tui/Wrap/Total.antt =====
-- Wrapping returns, and no line is too wide.
use packrat.Prelude.{
  ℕ, zero, suc, ◌+◌, ◌*◌, leb→le, ◌≡◌, ◌≤◌, ◌<◌, Bool, true, false, Option, none, some, List, [],
  ◌∷◌, ◌++◌, ltb, leb, ◌==◌, length, drop, length-drop, arith, refl, Bool-cases, inl, inr, All,
  All-snoc,
}
use packrat.Tui.Text.{Text, space, cell_width, char_width, cell_truncate, truncate_from}
use packrat.Tui.Text.Width.{cell_width-append, cell_truncate-le}
use packrat.Tui.Wrap.{
  Wrapping, break_word, place, wrap_word, wrap_words, wrap_paras, wrap_cells, split, newline, flush,
}

module _ (wide : ℕ → Bool) (narrow : wide space ≡ false) (width : ℕ) where
  abbrev Fits : Text → Type 0
  Fits t = cell_width wide t ≤ width

  record Ok (s : Wrapping) : Type 0 where
    done : All Fits s.lines
    now : Fits s.cur

  abbrev Broken : Option (Wrapping × Text) → Type 0
  Broken r = (s : Wrapping) × (w : Text) × (r ≡ some (s, w)) × Ok s × Fits w

  flush-ok :
      (lines : List Text) (cur : Text) → All Fits lines → Fits cur → All Fits (flush lines cur)
  flush-ok lines [] h c = h
  flush-ok lines (x ∷ xs) h c = All-snoc Fits lines (x ∷ xs) h c

  -- A head of a word that is too wide takes at least one character, where two cells fit.
  head-pos :
      (w : Text) → 2 ≤ width → width < cell_width wide w → 0 < length (cell_truncate wide w width)
  unfolding cell_truncate truncate_from cell_width char_width
  head-pos [] two h = absurd (omega arith)
  head-pos (c ∷ cs) two h = ground arith

  cell_width-le-length : (w : Text) → cell_width wide w ≤ 2 * length w
  unfolding cell_width char_width
  cell_width-le-length [] = omega arith
  cell_width-le-length (c ∷ cs) = ground (arith, cell_width-le-length cs)

  cell_width-space : (w : Text) → cell_width wide (space ∷ w) ≡ 1 + cell_width wide w
  unfolding cell_width char_width
  cell_width-space w = rw narrow refl

  break_word-total :
      (fuel : ℕ) (s : Wrapping) (w : Text)
      → 2 ≤ width
      → length w < fuel
      → Ok s
      → Broken (break_word wide fuel width s w)
  unfolding break_word
  break_word-total zero s w two room ok = absurd (omega arith)
  break_word-total (suc fuel) s w two room ok = elim (Bool-cases (ltb width (cell_width wide w))) [
    | inl over ↦ rw over (
        break_word-total fuel _ (drop (length (cell_truncate wide w width)) w) two
          (ground (
            arith,
            head-pos w two,
            cell_width-le-length w,
            length-drop {0} (length (cell_truncate wide w width)) w,
          ))
          (record {
            done =
                All-snoc Fits (flush s.lines s.cur) (cell_truncate wide w width)
                  (flush-ok s.lines s.cur ok.done ok.now) (cell_truncate-le wide w width);
            now = unfold cell_width in omega arith;
          }))
    | inr fits ↦ rw fits (s, w, refl, ok, ground arith)
  ]

  place-Ok : (s : Wrapping) (w : Text) → Ok s → Fits w → Ok (place wide width s.lines s.cur w)
  place-Ok s w ok fits = go s.lines s.cur ok.done ok.now
    where
      go :
          (lines : List Text) (cur : Text)
          → All Fits lines
          → Fits cur
          → Ok (place wide width lines cur w)
      go lines [] h c = record { done = h; now = fits }
      go lines (x ∷ xs) h c =
          elim (Bool-cases (leb (cell_width wide (x ∷ xs) + 1 + cell_width wide w) width)) [
            | inl joins ↦ rw joins (record {
              done = h;
              now = omega (
                arith,
                cell_width-append wide (x ∷ xs) (space ∷ w),
                cell_width-space w,
                leb→le _ width joins,
              );
            })
            | inr next ↦ rw next (record { done = All-snoc Fits lines (x ∷ xs) h c; now = fits })
          ]

  abbrev Wrapped : Option Wrapping → Type 0
  Wrapped r = (s : Wrapping) × (r ≡ some s) × Ok s

  wrap_word-total :
      (s : Wrapping) (w : Text) → 2 ≤ width → Ok s → Wrapped (wrap_word wide width s w)
  unfolding wrap_word
  wrap_word-total s w two ok =
      let (t, v, e, ok', fits) = break_word-total (suc (length w)) s w two (omega arith) ok in
      (place wide width t.lines t.cur v, rw e refl, place-Ok t v ok' fits)

  wrap_words-total :
      (s : Wrapping) (ws : List Text) → 2 ≤ width → Ok s → Wrapped (wrap_words wide width s ws)
  unfolding wrap_words
  wrap_words-total s [] two ok = (s, refl, ok)
  wrap_words-total s (w ∷ ws) two ok =
      let (t, e, ok') = wrap_word-total s w two ok in
      rw (e, wrap_words) (wrap_words-total t ws two ok')

  wrap_paras-total :
      (lines ps : List Text)
      → 2 ≤ width
      → All Fits lines
      → (out : List Text) × (wrap_paras wide width lines ps ≡ some out) × All Fits out
  unfolding wrap_paras
  wrap_paras-total lines [] two h = (lines, refl, h)
  wrap_paras-total lines (p ∷ ps) two h =
      let (s, e, ok) =
        wrap_words-total (record { lines = lines; cur = [] }) (split space p) two
          (record { done = h; now = unfold cell_width in omega arith }) in
      rw (e, wrap_paras)
        (wrap_paras-total (s.lines ++ s.cur ∷ []) ps two
          (All-snoc Fits s.lines s.cur ok.done ok.now))

  -- Where a space is one cell wide, wrapping any text to two cells or more returns, and every line
  -- that it returns fits.
  pub wrap_cells-fits :
      (text : Text)
      → 2 ≤ width
      → (lines : List Text) × (wrap_cells wide text width ≡ some lines)
        × All (λ l. cell_width wide l ≤ width) lines
  unfolding wrap_cells
  wrap_cells-fits text two =
      let positive : (width == 0) ≡ false = ground arith in
      rw positive (wrap_paras-total [] (split newline text) two tt)

-- With one cell, a word that begins with a wide character is never broken up: the head that is cut
-- off is empty, whatever the fuel.
break_word-stuck :
    (wide : ℕ → Bool) (fuel : ℕ) (s : Wrapping) (c : ℕ) (cs : Text)
    → wide c ≡ true
    → break_word wide fuel 1 s (c ∷ cs) ≡ none
unfolding break_word cell_truncate truncate_from cell_width char_width
break_word-stuck wide zero s c cs w = refl
break_word-stuck wide (suc fuel) s c cs w = ground (
  arith,
  break_word-stuck wide fuel (record { lines = flush s.lines s.cur ++ [] ∷ []; cur = [] }) c cs w,
)

split_single : (sep c : ℕ) → (c == sep) ≡ false → split sep (c ∷ []) ≡ (c ∷ []) ∷ []
unfolding split
split_single sep c other = rw other refl

wrap_paras-stuck :
    (wide : ℕ → Bool) (c : ℕ)
    → wide c ≡ true
    → split space (c ∷ []) ≡ (c ∷ []) ∷ []
    → wrap_paras wide 1 [] ((c ∷ []) ∷ []) ≡ none
unfolding wrap_paras wrap_words wrap_word
wrap_paras-stuck wide c w one =
    rw (one, wrap_paras)
      (rw (break_word-stuck wide 2 (record { lines = []; cur = [] }) c [] w, wrap_words) refl)

-- To one cell, a text of one wide character, neither a space nor a newline, is never wrapped: the
-- loop that breaks up its word does not end within any number of rounds.
pub wrap_cells-diverges :
    (wide : ℕ → Bool) (c fuel : ℕ) (s : Wrapping)
    → wide c ≡ true
    → (c == newline) ≡ false
    → (c == space) ≡ false
    → (break_word wide fuel 1 s (c ∷ []) ≡ none) × (wrap_cells wide (c ∷ []) 1 ≡ none)
unfolding wrap_cells
wrap_cells-diverges wide c fuel s w not_newline not_space = (
  break_word-stuck wide fuel s c [] w,
  rw (split_single newline c not_newline)
      (wrap_paras-stuck wide c w (split_single space c not_space)),
)
