-- ===== src/Examples/Sqlite.antt =====
-- A run on the SQLite driver whose second migration the database refuses.
use migrate.Prelude.{
  ℕ, ◌≡◌, refl, ℤ, pos, true, false, Bytes, none, some, List, [], ◌∷◌, codes, All,
}
use migrate.Errors.{ok}
use migrate.Database.Recorder.{recorded, Atomic}
use migrate.Database.Sql.Recorder.{recorder}
use migrate.Database.Sql.{Sql}
use migrate.Database.Sql.Table.{Table}
use migrate.Database.Sql.Transaction.{rewrite_row, execute_query}
use migrate.Database.Sqlite.{
  Sqlite, delete_rows, insert_row, select_row, default_migrations_table, sqlite_driver, set_version,
  version, run, execute_query_no_tx,
}
use migrate.Database.Sqlite
use migrate.Database.Sqlite.Version.{sqlite_backed, sqlite-Atomic}
use migrate.Engine.Migration.{buffer}
use migrate.Engine.Feed.{Feed, Item, migration, closed, stop}
use migrate.Engine.Run.{returned, run_migrations, handle, apply, run_body, run_opened}
use migrate.Engine.Operations.{
  Migrate, lock, settle, unlock, after_unlock, unlock_err, conclude, run_feed, when_clean,
  locked_run,
}
use migrate.Engine.Clean.{IsClean, locked_run-IsClean}
use migrate.Engine.Recorded.{Suits}
use migrate.Examples.{no_signal, env, schedule}
use migrate.Examples.Server.{Server, server, memory, memory_table, bad_statement}

abbrev name : Bytes
name = default_migrations_table

abbrev sql : Sql Server ℕ
sql = memory (delete_rows name) (insert_row name)

abbrev table : Table sql (delete_rows name) (insert_row name) (select_row name)
table = memory_table (delete_rows name) (insert_row name) refl refl refl (select_row name)

abbrev sqlite : Sqlite Server
sqlite = record {
  db = server ((pos 1, false) ∷ []);
  is_locked = false;
  config = record { migrations_table = name; database_name = []; no_tx_wrap = false };
}

sqlite-Atomic_example :
    Atomic
      (sqlite_driver sql)
      (version sql sqlite)
      (recorded (pos 3) true)
      (set_version sql (pos 3) true sqlite)
sqlite-Atomic_example = sqlite-Atomic table (pos 3) true sqlite (refl, refl) refl

abbrev up_migration : ℤ → Bytes → Item
up_migration target text = migration (record {
  identifier = [];
  version = 3;
  target_version = target;
  body = some (record { bytes = text; read_error = none; close_error = none });
  buffer_size = 100000;
})

abbrev items : List Item
items =
    up_migration (pos 3) (codes "CREATE TABLE t (a int)") ∷ up_migration (pos 7) bad_statement ∷ []

-- The first migration is done, and the second one is left dirty.
second_dirty :
    version sql (run_migrations (sqlite_driver sql) no_signal items closed sqlite).1
    ≡ ok (pos 7, true)
unfolding run_migrations handle apply run_body run_opened sqlite_driver set_version version run
    buffer rewrite_row execute_query execute_query_no_tx stop
second_dirty = refl

abbrev good_feed : ℤ → Feed
good_feed cur_version = record {
  items = up_migration (pos 3) (codes "CREATE TABLE t (a int)") ∷ [];
  ending = closed;
}

abbrev migrator : Migrate (Sqlite Server)
migrator = record { database = sqlite; is_locked = false }

good_feed-Suits :
    (cur_version : ℤ) → All (Suits (recorder (sqlite_backed table))) (good_feed cur_version).items
unfolding buffer
good_feed-Suits cur_version = ((refl, (refl, refl)), tt)

-- What the operation leaves.
abbrev left : Migrate (Sqlite Server)
left = (locked_run env (sqlite_driver sql) schedule good_feed migrator).1

left_nil : locked_run env (sqlite_driver sql) schedule good_feed migrator ≡ (returned none, left)
unfolding locked_run lock settle when_clean run_feed conclude unlock_err unlock after_unlock
    run_migrations handle apply run_body run_opened sqlite_driver set_version version run buffer
    rewrite_row execute_query execute_query_no_tx stop Sqlite.lock Sqlite.unlock
left_nil = refl

locked_run-IsClean_example : IsClean ((sqlite_driver sql).version left.database)
unfolding sqlite_driver version
locked_run-IsClean_example =
    locked_run-IsClean (recorder (sqlite_backed table)) env schedule good_feed good_feed-Suits
      migrator left (refl, refl) left_nil
