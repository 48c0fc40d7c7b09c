-- ===== src/Jobs/Queue/Unattended.antt =====
-- What a daemon that starts again does with the deletions that the previous one left: nothing.
use packrat.Prelude.{◌≡◌, false, List, [], ◌∷◌}
use packrat.Jobs.Row.{Job, is_queued}
use packrat.Jobs.Queue.{Queue}
use packrat.Jobs.Reconcile.Startup.{Applies}

-- A row of the table that the daemon finds and the row at its place later.
pub record Buried (j i : Job) : Type 0 where
  pub same : i.id ≡ j.id
  pub never : Applies j → is_queued i.status ≡ false

abbrev pub AllBuried : List Job → List Job → Type 0
AllBuried [] is = Unit
AllBuried (j ∷ js) [] = ⊥
AllBuried (j ∷ js) (i ∷ is) = Buried j i × AllBuried js is
