-- ===== src/Tests/Store.antt =====
-- Runs of the theorems on the store at concrete inputs.
use ab_bedd4c0e_tsig_bugfix.Prelude.{
  ℕ, ◌+◌, ◌≡◌, ◌≢◌, ◌↔◌, refl, true, false, none, some, [], ◌∷◌, arith,
}
use ab_bedd4c0e_tsig_bugfix.Errors.{ok}
use ab_bedd4c0e_tsig_bugfix.Serial.{compare}
use ab_bedd4c0e_tsig_bugfix.Text.{Text, codes, text_eq, lower}
use ab_bedd4c0e_tsig_bugfix.Storage.Tables.{
  Database, ZoneRow, VersionRow, RecordRow, KeyRow, RefRow, is_open, TaskRow, running, select,
  update, found, get_zone_row,
}
use ab_bedd4c0e_tsig_bugfix.Storage.Keys.{
  install_key, revoke_key, active_in, next_gen, new_key, retire, revoke,
}
use ab_bedd4c0e_tsig_bugfix.Storage.Keys.Rotation.{AllOlder, install_key-active, install_key-gen}
use ab_bedd4c0e_tsig_bugfix.Storage.Keys.Revocation.{
  live_id, other_id, AtMostOneActive, revoke_key_lem,
}
use ab_bedd4c0e_tsig_bugfix.Storage.Cleanup.{run_cleanup}
use ab_bedd4c0e_tsig_bugfix.Storage.Cleanup.Retention.{
  IsSame, covers, zone_of, run_cleanup-retained, run_cleanup-pinned,
}
use ab_bedd4c0e_tsig_bugfix.Server.Access.{axfr, ixfr, decide_ixfr}
use ab_bedd4c0e_tsig_bugfix.Server.Access.Contiguous.{HasHistory, decide_ixfr_iff}
use ab_bedd4c0e_tsig_bugfix.Server.Access.Counting.{HasUniqueVersions}
use ab_bedd4c0e_tsig_bugfix.Server.Answer.{find_zone_by_name}
use ab_bedd4c0e_tsig_bugfix.Server.Answer.Zones.{IsLongest, find_zone_by_name-IsLongest}

abbrev pub zone : Text
zone = codes "example."

abbrev other : Text
other = codes "example.org."

abbrev pub zone_row : ZoneRow
zone_row = record {
  name = zone;
  current_serial = 7;
  current_version = 2;
  retain_versions = 1;
  record_count = 2;
  rrset_count = 2;
  created_at = 0;
  updated_at = 0;
}

abbrev pub version : ℕ → VersionRow
version v = record {
  zone = zone;
  version_id = v;
  serial = v + 5;
  request_id = codes "r";
  created_at = 0;
}

abbrev pub soa_row : RecordRow
soa_row = record {
  zone = zone;
  version_id = 2;
  name = zone;
  rtype = codes "SOA";
  ttl = 3600;
  rdata = codes "{}";
  rdata_wire = 1 ∷ 2 ∷ [];
}

abbrev pub a_row : RecordRow
a_row = record {
  zone = zone;
  version_id = 2;
  name = codes "a.example.";
  rtype = codes "A";
  ttl = 60;
  rdata = codes "{}";
  rdata_wire = 10 ∷ 0 ∷ 0 ∷ 1 ∷ [];
}

abbrev pub old_key : KeyRow
old_key = new_key zone (codes "k1") 0 (codes "k1.") (1 ∷ 2 ∷ 3 ∷ []) 0

abbrev pin : RefRow
pin = record {
  ref_id = codes "ref";
  zone = zone;
  instance_id = codes "i";
  version_id = 2;
  min_version = 1;
  key_gen = 0;
  started_at = 0;
  last_seen = 1000000;
  state = is_open;
}

abbrev task : TaskRow
task = record {
  task_id = 1;
  zone = zone;
  state = running;
  token = some (codes "t");
  leased_at = some 0;
  lease_expires = some 30;
  attempts = 1;
  last_error = none;
  created_at = 0;
  finished_at = none;
}

abbrev pub db : Database
db = record {
  zones = zone_row ∷ [];
  versions = version 0 ∷ version 1 ∷ version 2 ∷ [];
  records = a_row ∷ soa_row ∷ [];
  changes = [];
  publish_requests = [];
  keys = old_key ∷ [];
  transfer_refs = pin ∷ [];
  cleanup_tasks = task ∷ [];
  next_task = 2;
}

abbrev pub fresh_key : KeyRow
fresh_key = new_key zone (codes "k2") 1 (codes "k2") (4 ∷ []) 500

abbrev pub rotated : Database
rotated = record db { keys = retire 9000 old_key ∷ fresh_key ∷ [] }

install_key-rotated :
    install_key db zone (codes "k2") none (some 9000) (4 ∷ []) 500 ≡ ok (rotated, fresh_key)
unfolding install_key get_zone_row select update text_eq next_gen
install_key-rotated = refl

install_key-active_example : select (active_in zone) rotated.keys ≡ fresh_key ∷ []
install_key-active_example =
    install_key-active db zone (codes "k2") none (some 9000) (4 ∷ []) 500 rotated fresh_key
      install_key-rotated

zones_differ : other ≢ zone
zones_differ e = cc

install_key-gen_example : AllOlder zone 1 db.keys
install_key-gen_example =
    install_key-gen db zone (codes "k2") none (some 9000) (4 ∷ []) 500 rotated fresh_key
      install_key-rotated

pub one_active : AtMostOneActive db
unfolding select
one_active z = grind arith

abbrev revoked_db : Database
revoked_db = record db { keys = revoke 100 old_key ∷ [] }

revoke_key-revoked : revoke_key db zone (codes "k1") 100 ≡ ok revoked_db
unfolding revoke_key get_zone_row select update text_eq
revoke_key-revoked = refl

revoke_key_lem_example :
    (select (live_id zone (codes "k1")) revoked_db.keys ≡ [])
    × (select (other_id zone (codes "k1")) revoked_db.keys
        ≡ select (other_id zone (codes "k1")) db.keys)
revoke_key_lem_example = revoke_key_lem db zone (codes "k1") 100 revoked_db revoke_key-revoked

zone_of-zone : zone_of db zone ≡ some zone_row
unfolding select text_eq
zone_of-zone = refl

run_cleanup-retained_example : IsSame zone 2 db (run_cleanup db task 1000100).0
run_cleanup-retained_example =
    run_cleanup-retained db zone_row task 1000100 2 zone_of-zone (omega arith)

pinned_by : found (select (covers zone 1000100 1) db.transfer_refs) ≡ true
unfolding select text_eq
pinned_by = refl

run_cleanup-pinned_example : IsSame zone 1 db (run_cleanup db task 1000100).0
run_cleanup-pinned_example = run_cleanup-pinned db zone_row task 1000100 1 zone_of-zone pinned_by

not_zone : text_eq other zone ≡ false
unfolding text_eq
not_zone = refl

find_zone_by_name-IsLongest_example :
    IsLongest (lower (codes "www.Example.")) db.zones (find_zone_by_name db (codes "www.Example."))
find_zone_by_name-IsLongest_example = find_zone_by_name-IsLongest db (codes "www.Example.")

unique_versions : HasUniqueVersions db zone
unfolding select text_eq
unique_versions v = grind arith

decide_ixfr_iff_example :
    (decide_ixfr db zone 2 7 (some 5) ≡ ixfr) ↔ HasHistory db zone 2 7 (some 5)
decide_ixfr_iff_example = decide_ixfr_iff db zone 2 7 (some 5) unique_versions

decide_ixfr-known : decide_ixfr db zone 2 7 (some 5) ≡ ixfr
unfolding decide_ixfr compare select text_eq
decide_ixfr-known = refl

abbrev pruned : Database
pruned = record db { versions = version 0 ∷ version 2 ∷ [] }

decide_ixfr-gap : decide_ixfr pruned zone 2 7 (some 5) ≡ axfr
unfolding decide_ixfr compare select text_eq
decide_ixfr-gap = refl
