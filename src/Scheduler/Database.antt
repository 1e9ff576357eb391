-- ===== src/Scheduler/Database.antt =====
-- pkg/scheduler/sqldb.go: a task is a row of the table task_scheduler.
use clean_architect.Cache.{Action}
use clean_architect.Domain.{Time}
use clean_architect.Errs.{GoError}
use clean_architect.Scheduler.{Retrieved, Storage}
use clean_architect.Common.{
  ◌⊎◌, inl, inr, Option, none, some, List, [], ◌∷◌, nat_eq, Text, txt, text_eq,
}

-- type taskModel
pub record TaskModel : Type 0 where
  pub id : Text
  pub name : Text
  pub payload : Text
  pub scheduled_at : Text

-- What GetContext answers; `no_rows` is sql.ErrNoRows.
pub data TaskRow : Type 0 where
  no_rows : TaskRow
  failed : GoError → TaskRow
  row : TaskModel → TaskRow

-- Package sqlx: a statement may change the database, a query does not.
pub record TaskDatabase (B : Type 0) : Type 0 where
  pub exec : Text → List Text → B → Option GoError × B
  pub fetch : Text → List Text → B → TaskRow

abbrev insert_task : Text
insert_task = txt "INSERT INTO task_scheduler\n\t(id,name,payload,scheduled_at)\n\tVALUES(?,?,?,?)"

abbrev pub select_task : Text
select_task = txt "SELECT * FROM task_scheduler WHERE scheduled_at < '?' LIMIT 1"

abbrev delete_task : Text
delete_task = txt "DELETE FROM task_scheduler WHERE id=?"

-- `format_time` is Time.Format with the layout DateTime, and `new_id` the text of uuid.New().
module _ {B : Type 0} (db : TaskDatabase B) (format_time : Time → Text) where
  abbrev executed : Option GoError × B → (GoError ⊎ (Unit {0})) × B
  executed (none, s) = (inr tt, s)
  executed (some err, s) = (inl err, s)

  -- Store
  unfoldable pub store_task : Text → Text → Time → Text → Action B (Unit {0})
  store_task new_id task_name schedule_at payload s =
      executed (db.exec insert_task (new_id ∷ task_name ∷ payload ∷ format_time schedule_at ∷ []) s)

  abbrev pub found : TaskRow → GoError ⊎ Option Retrieved
  found no_rows = inr none
  found (failed err) = inl err
  found (row task) =
      inr (some (record { task_id = task.id; task_name = task.name; content = task.payload }))

  -- Retrieve
  unfoldable pub retrieve_task : Time → Action B (Option Retrieved)
  retrieve_task now s = (found (db.fetch select_task (format_time now ∷ []) s), s)

  -- Failure
  unfoldable pub fail_task : Text → Action B (Unit {0})
  fail_task task_id s = (inr tt, s)

  -- Done
  unfoldable pub done_task : Text → Action B (Unit {0})
  done_task task_id s = executed (db.exec delete_task (task_id ∷ []) s)

  -- NewSQLStorage, where every task is stored under `new_id`.
  unfoldable sql_task_storage : Text → Storage B
  unfolding store_task retrieve_task fail_task done_task
  sql_task_storage new_id = record {
    store = λ now. store_task new_id;
    retrieve = retrieve_task;
    failure = λ now. fail_task;
    done = λ now. done_task;
  }
