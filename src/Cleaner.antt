-- ===== src/Cleaner.antt =====
-- `CleanupWorker.run_once` of app/cleaner.py. The lease token and the clock, in seconds and in
-- milliseconds, are arguments; what it prints is left out.
use ab_bedd4c0e_tsig_bugfix.Prelude.{ℕ, Bool, true, false, Option, none, some}
use ab_bedd4c0e_tsig_bugfix.Text.{Text}
use ab_bedd4c0e_tsig_bugfix.Storage.Tables.{Database, TaskRow}
use ab_bedd4c0e_tsig_bugfix.Storage.Cleanup.{claim_cleanup_task, run_cleanup}

abbrev pub run_task : ℕ → Database × Option TaskRow → Database × Bool
run_task now_ms (db, none) = (db, false)
run_task now_ms (db, some task) = ((run_cleanup db task now_ms).0, true)

unfoldable pub run_once : Database → Text → ℕ → ℕ → Database × Bool
run_once db token now now_ms = run_task now_ms (claim_cleanup_task db token now)
