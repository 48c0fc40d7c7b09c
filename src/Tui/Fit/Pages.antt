-- ===== src/Tui/Fit/Pages.antt =====
-- The budget is met exactly, and the pages show every line.
use packrat.Prelude.{
  ℕ, zero, suc, ◌+◌, ◌-◌, ◌*◌, ◌/◌, ◌%◌, ◌≡◌, ◌≤◌, ◌<◌, List, [], ◌∷◌, ◌++◌, ltb, leb, ◌&&◌, length,
  take, drop, replicate, get_elem?, length-append, length-take, length-replicate, length-drop,
  arith, refl, ap, ◌∙◌, Bool-cases, inl, inr,
}
use packrat.Tui.Text.{Text}
use packrat.Tui.Fit.{Mode, truncate, scroll, clip, pad_rows, pages, fit}

length-pad_rows : (rows : List Text) (budget : ℕ) → length (pad_rows rows budget) ≡ budget
unfolding pad_rows
length-pad_rows rows budget = omega (
  arith,
  length-append {0} (take budget rows) (replicate (budget - length (take budget rows)) []),
  length-take {0} budget rows,
  length-replicate {0} {A = Text} (budget - length (take budget rows)) [],
)

-- The block has exactly `budget` rows, in each mode, for any lines and any page.
pub fit-budget :
    (shown : ℕ → Text) (lines : List Text) (budget : ℕ) (mode : Mode) (page : ℕ)
    → length (fit shown lines budget mode page).rows ≡ budget
unfolding fit
fit-budget shown lines budget truncate page =
    elim (Bool-cases (ltb budget (length lines) && leb 1 budget)) [
      | inl cut ↦ rw cut (length-pad_rows _ budget)
      | inr whole ↦ rw whole (length-pad_rows _ budget)
    ]
fit-budget shown lines budget scroll page = length-pad_rows _ budget
fit-budget shown lines budget clip page = length-pad_rows _ budget

module _ {ℓ} {A : Type ℓ} where
  get_elem?-take : (n i : ℕ) (xs : List A) → i < n → get_elem? (take n xs) i ≡ get_elem? xs i
  get_elem?-take zero i xs h = elim h [ ]
  get_elem?-take (suc n) i [] h = refl
  get_elem?-take (suc n) zero (x ∷ xs) h = refl
  get_elem?-take (suc n) (suc i) (x ∷ xs) h = get_elem?-take n i xs (omega arith)

  get_elem?-drop : (n i : ℕ) (xs : List A) → get_elem? (drop n xs) i ≡ get_elem? xs (n + i)
  get_elem?-drop zero i xs = ap (get_elem? xs) (omega arith)
  get_elem?-drop (suc n) i [] = refl
  get_elem?-drop (suc n) i (x ∷ xs) =
      get_elem?-drop n i xs
      ∙ ap (get_elem? (x ∷ xs)) (let e : suc (n + i) ≡ suc n + i = omega arith in e)

  get_elem?-append :
      (i : ℕ) (xs ys : List A) → i < length xs → get_elem? (xs ++ ys) i ≡ get_elem? xs i
  get_elem?-append i [] ys h = elim h [ ]
  get_elem?-append zero (x ∷ xs) ys h = refl
  get_elem?-append (suc i) (x ∷ xs) ys h = get_elem?-append i xs ys (omega arith)

le-div : (q n b : ℕ) → 0 < b → q * b ≤ n → q ≤ n / b
le-div q n b h k = grind arith

page-lt : (i total budget : ℕ) → 0 < budget → i < total → i / budget < pages total budget
unfolding pages
page-lt i total budget h inside =
    ground (arith, le-div (i / budget + 1) (total + budget - 1) budget h (grind arith))

-- A row of a page is a line of the list.
page_row :
    (lines : List Text) (budget page row : ℕ)
    → row < budget
    → page * budget + row < length lines
    → get_elem? (pad_rows (take budget (drop (page * budget) lines)) budget) row
      ≡ get_elem? lines (page * budget + row)
unfolding pad_rows
page_row lines budget page row on_page inside =
    get_elem?-append row _ _ (
      omega (
        arith,
        inside,
        length-take {0} budget (take budget (drop (page * budget) lines)),
        length-take {0} budget (drop (page * budget) lines),
        length-drop {0} (page * budget) lines,
      ))
    ∙ (get_elem?-take budget row _ on_page
        ∙ (get_elem?-take budget row _ on_page ∙ get_elem?-drop (page * budget) row lines))

-- In scroll mode every line is shown: line i stands on page i / budget, which is one of the pages
-- counted, in row i % budget.
pub scroll-shows_all :
    (shown : ℕ → Text) (lines : List Text) (budget i : ℕ)
    → 0 < budget
    → i < length lines
    → (i / budget < (fit shown lines budget scroll (i / budget)).total_pages)
      × (get_elem? (fit shown lines budget scroll (i / budget)).rows (i % budget)
          ≡ get_elem? lines i)
unfolding fit
scroll-shows_all shown lines budget i some_rows inside =
    let at : i / budget * budget + i % budget ≡ i = grind arith in
    (
      page-lt i (length lines) budget some_rows inside,
      page_row lines budget (i / budget) (i % budget) (omega (arith, some_rows)) (rw at inside)
          ∙ ap (get_elem? lines) at,
    )
