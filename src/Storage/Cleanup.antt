-- ===== src/Storage/Cleanup.antt =====
-- The retention of app/storage.py: `set_retention`, `enqueue_cleanup`, `claim_cleanup_task`,
-- `run_cleanup`. The lease token and the clock are arguments. A comparison with a difference that may
-- be negative stands with the subtrahend on the other side.
pub mod Retention
use Prim.Native.Nat.{max, min}
use ab_bedd4c0e_tsig_bugfix.Prelude.{
  ℕ, ◌+◌, ◌*◌, Bool, true, false, not, ◌&&◌, ◌||◌, Option, none, some, List, [], ◌∷◌, ◌++◌, ◌==◌,
  if◌then◌else◌, ltb, leb, map,
}
use ab_bedd4c0e_tsig_bugfix.Errors.{Result, ok, err, ◌>>=◌}
use ab_bedd4c0e_tsig_bugfix.Text.{Text, text_eq}
use ab_bedd4c0e_tsig_bugfix.Storage.Tables.{
  Database, ZoneRow, VersionRow, RecordRow, ChangeRow, RefRow, RefState, is_open, is_done, TaskRow,
  TaskState, pending, running, finished, select, delete, update, fetchone, get_zone_row,
}

abbrev pub ref_stale_seconds : ℕ
ref_stale_seconds = 300

abbrev pub cleanup_lease_seconds : ℕ
cleanup_lease_seconds = 30

unfoldable pub enqueue_cleanup : Database → Text → ℕ → Database
enqueue_cleanup db zone ts = record db {
  cleanup_tasks =
      db.cleanup_tasks
      ++ record {
        task_id = db.next_task;
        zone = zone;
        state = pending;
        token = none;
        leased_at = none;
        lease_expires = none;
        attempts = 0;
        last_error = none;
        created_at = ts;
        finished_at = none;
      }
        ∷ [];
  next_task = db.next_task + 1;
}

unfoldable pub set_retention : Database → Text → ℕ → ℕ → Result Database
unfolding enqueue_cleanup
set_retention db zone retain_versions ts = do
  z ← get_zone_row db zone
  let zones =
      update (λ (r : ZoneRow). text_eq r.name zone)
        (λ r. record r { retain_versions = retain_versions; updated_at = ts }) db.zones
  ok (enqueue_cleanup (record db { zones = zones }) zone ts)

abbrev pub is_pending : TaskRow → Bool
is_pending t = elim t.state [ pending ↦ true | _ ↦ false ]

abbrev pub is_running : TaskRow → Bool
is_running t = elim t.state [ running ↦ true | _ ↦ false ]

abbrev pub expired : ℕ → Option ℕ → Bool
expired now none = false
expired now (some e) = ltb e now

-- `ORDER BY task_id LIMIT 1`
abbrev pub lower_task : TaskRow → Option TaskRow → TaskRow
lower_task t none = t
lower_task t (some u) = if ltb u.task_id t.task_id then u else t

unfoldable pub first_task : List TaskRow → Option TaskRow
first_task [] = none
first_task (t ∷ ts) = some (lower_task t (first_task ts))

abbrev pub claimable : ℕ → Option TaskRow → List TaskRow → Option TaskRow
claimable now (some t) tasks = some t
claimable now none tasks =
    first_task (select (λ t. is_running t && expired now t.lease_expires) tasks)

abbrev pub lease : Text → ℕ → TaskRow → TaskRow
lease token now t = record t {
  state = running;
  token = some token;
  leased_at = some now;
  lease_expires = some (now + cleanup_lease_seconds);
  attempts = t.attempts + 1;
  last_error = none;
}

abbrev has_token : Text → Option Text → Bool
has_token token none = false
has_token token (some t) = text_eq t token

abbrev claimed : Database → Text → ℕ → Option TaskRow → Database × Option TaskRow
claimed db token now none = (db, none)
claimed db token now (some row) =
    let tasks =
      update (λ (t : TaskRow). t.task_id == row.task_id) (lease token now) db.cleanup_tasks in
    (
      record db { cleanup_tasks = tasks },
      fetchone (select (λ (t : TaskRow). has_token token t.token) tasks),
    )

-- `claim_cleanup_task`, with the clock in seconds
unfoldable pub claim_cleanup_task : Database → Text → ℕ → Database × Option TaskRow
unfolding first_task
claim_cleanup_task db token now =
    claimed db token now
      (claimable now (first_task (select is_pending db.cleanup_tasks)) db.cleanup_tasks)

abbrev pub open_ref : RefRow → Bool
open_ref r = elim r.state [ is_open ↦ true | is_done ↦ false ]

-- `last_seen < alive_after`
abbrev pub stale : ℕ → RefRow → Bool
stale now r = ltb (r.last_seen + ref_stale_seconds * 1000) now

-- `last_seen > alive_after`
abbrev pub alive : ℕ → RefRow → Bool
alive now r = ltb now (r.last_seen + ref_stale_seconds * 1000)

abbrev pub dead_ref : Text → ℕ → RefRow → Bool
dead_ref zone now r = text_eq r.zone zone && (not (open_ref r) || open_ref r && stale now r)

abbrev pub live_ref : Text → ℕ → RefRow → Bool
live_ref zone now r = text_eq r.zone zone && open_ref r && alive now r

abbrev pub min_or : ℕ → Option ℕ → ℕ
min_or a none = a
min_or a (some b) = min a b

-- `MIN(MIN(version_id, min_version))`
unfoldable pub min_pin : List RefRow → Option ℕ
min_pin [] = none
min_pin (r ∷ rs) = some (min_or (min r.version_id r.min_version) (min_pin rs))

abbrev pub no_pin : ℕ
no_pin = 999999999

abbrev pub coalesce : Option ℕ → ℕ
coalesce none = no_pin
coalesce (some m) = m

-- `version_id < min(current_version - keep + 1, pin)`
abbrev pub doomed : ZoneRow → ℕ → ℕ → Bool
doomed z pin vid = ltb (vid + max 1 z.retain_versions) (z.current_version + 1) && ltb vid pin

-- `ORDER BY version_id`
unfoldable pub insert_sorted : ℕ → List ℕ → List ℕ
insert_sorted v [] = v ∷ []
insert_sorted v (w ∷ ws) = let rest = insert_sorted v ws in if leb v w then v ∷ w ∷ ws else w ∷ rest

unfoldable pub sort_ids : List ℕ → List ℕ
sort_ids [] = []
sort_ids (v ∷ vs) = insert_sorted v (sort_ids vs)

abbrev version_ids : List VersionRow → List ℕ
version_ids vs = map (λ v. v.version_id) vs

abbrev pub candidates : Text → ZoneRow → ℕ → List VersionRow → List ℕ
candidates zone z pin vs =
    sort_ids (version_ids (select (λ v. text_eq v.zone zone && doomed z pin v.version_id) vs))

-- The loop over the candidates.
unfoldable pub purge : Text → List ℕ → Database → Database
purge zone [] db = db
purge zone (vid ∷ vids) db = purge zone vids (record db {
  records = delete (λ (r : RecordRow). text_eq r.zone zone && r.version_id == vid) db.records;
  changes = delete (λ (c : ChangeRow). text_eq c.zone zone && c.version_id == vid) db.changes;
  versions = delete (λ (v : VersionRow). text_eq v.zone zone && v.version_id == vid) db.versions;
})

abbrev pub finish_task : ℕ → ℕ → Database → Database
finish_task task_id ts db = record db {
  cleanup_tasks =
      update (λ (t : TaskRow). t.task_id == task_id)
        (λ t. record t { state = finished; finished_at = some ts }) db.cleanup_tasks;
}

abbrev pub pin_of : Database → Text → ℕ → ℕ
pin_of db zone now = coalesce (min_pin (select (live_ref zone now) db.transfer_refs))

abbrev pub reap : Text → ℕ → Database → Database
reap zone now db = record db { transfer_refs = delete (dead_ref zone now) db.transfer_refs }

-- At a zone that is there: the pin and the candidates are read after the dead pins have gone.
unfoldable pub clean_zone : Database → ZoneRow → TaskRow → ℕ → Database × List ℕ
unfolding purge
clean_zone db z task now =
    let db1 = reap task.zone now db in
    let ids = candidates task.zone z (pin_of db1 task.zone now) db1.versions in
    (finish_task task.task_id now (purge task.zone ids db1), ids)

abbrev clean_found : Database → TaskRow → ℕ → Option ZoneRow → Database × List ℕ
clean_found db task now none = (finish_task task.task_id now db, [])
clean_found db task now (some z) = clean_zone db z task now

-- `run_cleanup`: the database afterwards and the deleted versions
unfoldable pub run_cleanup : Database → TaskRow → ℕ → Database × List ℕ
run_cleanup db task now =
    clean_found db task now (fetchone (select (λ (z : ZoneRow). text_eq z.name task.zone) db.zones))
