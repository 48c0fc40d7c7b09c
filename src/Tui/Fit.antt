-- ===== src/Tui/Fit.antt =====
-- Fitting a list of lines into a row budget (`fit` of tui/layout.py).
pub mod Pages
use packrat.Prelude.{
  ℕ, zero, suc, ◌+◌, ◌-◌, ◌*◌, ◌/◌, ◌≡◌, Bool, true, false, List, [], ◌∷◌, ◌++◌, ltb, leb, ◌==◌,
  ◌&&◌, if◌then◌else◌, length, take, drop, replicate, max,
}
use packrat.Tui.Text.{Text, space, ellipsis_text}

pub record Fitted : Type 0 where
  pub rows : List Text
  pub overflow : ℕ
  pub scrollable : Bool
  pub total_pages : ℕ

-- The three modes; any text other than the first two acts as `clip`.
pub data Mode : Type 0 where
  truncate scroll clip : Mode

unfoldable pub pad_rows : List Text → ℕ → List Text
pad_rows rows budget = let kept = take budget rows in kept ++ replicate (budget - length kept) []

-- math.ceil(total / budget), at least 1.
unfoldable pub pages : ℕ → ℕ → ℕ
pages total budget = if budget == 0 then 1 else max 1 ((total + budget - 1) / budget)

-- The text "… N more"; the numeral is Python's `str`, the parameter `shown`.
abbrev more_marker : (ℕ → Text) → ℕ → Text
more_marker shown n = ellipsis_text ++ (space ∷ (shown n ++ (32 ∷ 109 ∷ 111 ∷ 114 ∷ 101 ∷ [])))

clipped : List Text → ℕ → Fitted
unfolding pad_rows pages
clipped lines budget = record {
  rows = pad_rows (take budget lines) budget;
  overflow = length lines - budget;
  scrollable = false;
  total_pages = pages (length lines) budget;
}

truncated : (ℕ → Text) → List Text → ℕ → Fitted
unfolding pad_rows pages
truncated shown lines budget =
    let n_more = length lines - (budget - 1) in
    record {
      rows = pad_rows (take (budget - 1) lines ++ more_marker shown n_more ∷ []) budget;
      overflow = n_more;
      scrollable = false;
      total_pages = pages (length lines) budget;
    }

scrolled : List Text → ℕ → ℕ → Fitted
unfolding pad_rows pages
scrolled lines budget page = record {
  rows = pad_rows (take budget (drop (page * budget) lines)) budget;
  overflow = length lines - budget;
  scrollable = ltb 0 (length lines - budget);
  total_pages = pages (length lines) budget;
}

unfoldable pub fit : (ℕ → Text) → List Text → ℕ → Mode → ℕ → Fitted
unfolding clipped truncated scrolled
fit shown lines budget truncate page =
    if ltb budget (length lines) && leb 1 budget
    then truncated shown lines budget
    else clipped lines budget
fit shown lines budget scroll page = scrolled lines budget page
fit shown lines budget clip page = clipped lines budget
