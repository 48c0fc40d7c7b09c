-- ===== src/Jobs/Table.antt =====
-- The jobs table as a list of rows, and the statements that the runtime runs on it.
pub mod Update
pub mod Order
pub mod History
use packrat.Prelude.{
  ℕ, suc, ◌+◌, Bool, true, false, Option, none, some, List, [], ◌∷◌, ◌++◌, max, ltb, ◌==◌, ◌&&◌,
  ◌||◌, if◌then◌else◌,
}
use packrat.Jobs.Row.{Job, Params, JobType, queued, is_queued, is_probe}

-- SELECT ... FROM jobs WHERE id=?
unfoldable pub find_job : ℕ → List Job → Option Job
find_job k [] = none
find_job k (j ∷ js) = if j.id == k then some j else find_job k js

-- UPDATE jobs SET ... WHERE id=?
unfoldable pub update_job : ℕ → (Job → Job) → List Job → List Job
update_job k f [] = []
update_job k f (j ∷ js) = (if j.id == k then f j else j) ∷ update_job k f js

-- The rowid of an INSERT into a table with an INTEGER PRIMARY KEY: one above the greatest.
unfoldable pub max_id : List Job → ℕ
max_id [] = 0
max_id (j ∷ js) = max j.id (max_id js)

abbrev pub new_row : ℕ → ℕ → JobType → Params → Job
new_row k now type params = record {
  id = k;
  type = type;
  root_id = params.root_id;
  status = queued;
  total = none;
  done_count = 0;
  enqueued_at = now;
  started_at = none;
  finished_at = none;
  error = none;
  result_json = none;
  priority = 0;
  params_json = some params;
}

abbrev pub same_root : Option ℕ → ℕ → Bool
same_root none root = false
same_root (some r) root = r == root

-- SELECT id FROM jobs WHERE type='probe' AND status='queued' AND root_id=? ORDER BY id LIMIT 1.
-- A new row has the greatest id and stands last, so the first match has the least.
unfoldable pub queued_probe : ℕ → List Job → Option ℕ
queued_probe root [] = none
queued_probe root (j ∷ js) =
    if is_probe j.type && (is_queued j.status && same_root j.root_id root)
    then some j.id
    else queued_probe root js

-- SELECT COALESCE(MAX(priority), 0) FROM jobs WHERE status='queued'
unfoldable pub top_priority : List Job → ℕ
top_priority [] = 0
top_priority (j ∷ js) =
    if is_queued j.status then max j.priority (top_priority js) else top_priority js

-- ORDER BY priority DESC, enqueued_at, id
unfoldable pub comes_before : Job → Job → Bool
comes_before a b =
    ltb b.priority a.priority
    || ((a.priority == b.priority)
        && (ltb a.enqueued_at b.enqueued_at || ((a.enqueued_at == b.enqueued_at) && ltb a.id b.id)))

unfoldable pub insert_ordered : Job → List Job → List Job
unfolding comes_before
insert_ordered j [] = j ∷ []
insert_ordered j (k ∷ ks) = if comes_before k j then k ∷ insert_ordered j ks else j ∷ k ∷ ks

-- SELECT ... FROM jobs WHERE status='queued' ORDER BY priority DESC, enqueued_at, id
unfoldable pub backlog : List Job → List Job
unfolding insert_ordered
backlog [] = []
backlog (j ∷ js) = if is_queued j.status then insert_ordered j (backlog js) else backlog js
