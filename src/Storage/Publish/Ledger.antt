-- ===== src/Storage/Publish/Ledger.antt =====
-- What a publish that `publish` of app/storage.py commits has checked, and what the tables hold after
-- it.
use ab_bedd4c0e_tsig_bugfix.Prelude.{
  ℕ, ◌+◌, ◌≤◌, ◌≡◌, ap, ◌∙◌, true, false, ◌&&◌, ◌||◌, none, some, List, [], ◌∷◌, ◌++◌, ◌==◌,
  if◌then◌else◌, arith, length, map,
}
use ab_bedd4c0e_tsig_bugfix.Errors.{Result, ok}
use ab_bedd4c0e_tsig_bugfix.Text.{Text, text_eq}
use ab_bedd4c0e_tsig_bugfix.Serial.{equal, compare, is_forward}
use ab_bedd4c0e_tsig_bugfix.Storage.Tables.{
  Database, ZoneRow, VersionRow, RecordRow, committed, select, fetchone, found,
}
use ab_bedd4c0e_tsig_bugfix.Storage.Cleanup.{enqueue_cleanup}
use ab_bedd4c0e_tsig_bugfix.Storage.Changeset.{
  Entry, Rrset, Changed, Op, load_rrsets, apply_ops, count_records, is_changed, rrset_of,
  version_of,
}
use ab_bedd4c0e_tsig_bugfix.Storage.Changeset.Valid.{
  IsValidZone, validate_zone_invariants-IsValidZone,
}
use ab_bedd4c0e_tsig_bugfix.Storage.Materialize.{materialize, key_of, new_rows}
use ab_bedd4c0e_tsig_bugfix.Storage.Materialize.Rows.{select-materialize}
use ab_bedd4c0e_tsig_bugfix.Storage.Publish.{ledger_of, named, Reply, publish}
use ab_bedd4c0e_tsig_bugfix.Storage.Publish.Writes.{IsWritten, attempt-IsWritten, settle-ok}
use ab_bedd4c0e_tsig_bugfix.Storage.Publish.Replay.{zone_after, ledger_after}

-- The rows of a name and a type in the new snapshot: those of its RRset where it is changed, and else
-- those of the old snapshot, moved to the new version.
abbrev pub rows_after : Database → ZoneRow → List Rrset → Changed → Text → Text → List RecordRow
rows_after db z rrsets changed name rtype =
    if is_changed name rtype changed
    then new_rows z.name (z.current_version + 1) name rtype (rrset_of rrsets name rtype)
    else map (λ (r : RecordRow). record r { version_id = z.current_version + 1 })
        (select (key_of z.name z.current_version name rtype) db.records)

module _ {V : Type 0} (canonical_rdata : Text → V → Text → Result Entry)
    (json_serial : Text → ℕ) where
  -- A publish that is committed, at the row that its zone had.
  pub record IsCommitted (db : Database) (z : ZoneRow) (zone_name request_id : Text)
      (base_serial next_serial : ℕ) (ops : List (Op V)) (fingerprint : Text) (ts : ℕ)
      (db' : Database) (reply : Reply) : Type 0 where
    pub rrsets : List Rrset
    pub changed : Changed
    pub forward : (is_forward base_serial next_serial).0 ≡ true
    pub current : compare z.current_serial base_serial ≡ equal
    pub applied :
        apply_ops canonical_rdata z.name ops (load_rrsets db z.name z.current_version, [])
        ≡ ok (rrsets, changed)
    pub valid : IsValidZone json_serial z.name rrsets next_serial
    pub bounded : count_records rrsets ≤ 10000
    pub no_clash :
        found (
          select
            (λ (v : VersionRow).
              text_eq v.zone z.name
              && (v.version_id == z.current_version + 1 || v.serial == next_serial))
            db.versions)
        ≡ false
    pub zone_row :
        fetchone (select (named zone_name) db'.zones)
        ≡ some (record z {
          current_serial = next_serial;
          current_version = z.current_version + 1;
          record_count = count_records rrsets;
          rrset_count = length rrsets;
          updated_at = ts;
        })
    pub version_row :
        db'.versions
        ≡ db.versions
          ++ record {
            zone = z.name;
            version_id = z.current_version + 1;
            serial = next_serial;
            request_id = request_id;
            created_at = ts;
          }
            ∷ []
    pub snapshot :
        (name rtype : Text)
        → select (key_of z.name (z.current_version + 1) name rtype) db'.records
          ≡ rows_after db z rrsets changed name rtype
    pub ledger_row :
        ledger_of db' z.name request_id
        ≡ some (record {
          zone = z.name;
          request_id = request_id;
          fingerprint = fingerprint;
          status = committed;
          version_id = some (z.current_version + 1);
          serial = some next_serial;
          error = none;
          base_serial = base_serial;
          next_serial = next_serial;
          created_at = ts;
        })
    pub same_keys : db'.keys ≡ db.keys
    pub same_pins : db'.transfer_refs ≡ db.transfer_refs
    pub reply_eq : reply ≡ record {
      zone = z.name;
      request_id = request_id;
      version_id = some (z.current_version + 1);
      serial = some next_serial;
      replayed = false;
    }

  written-IsCommitted :
      (db : Database) (z : ZoneRow) (zone_name request_id : Text) (base_serial next_serial : ℕ)
      (ops : List (Op V)) (fingerprint : Text) (ts : ℕ) (db' : Database) (reply : Reply)
      → fetchone (select (named zone_name) db.zones) ≡ some z
      → ledger_of db z.name request_id ≡ none
      → select (version_of z.name (z.current_version + 1)) db.records ≡ []
      → IsWritten canonical_rdata json_serial db z request_id base_serial next_serial ops
          fingerprint ts db' reply
      → IsCommitted db z zone_name request_id base_serial next_serial ops fingerprint ts db' reply
  unfolding materialize enqueue_cleanup
  written-IsCommitted db z zone_name request_id base_serial next_serial ops fingerprint ts db' reply
        i k fresh w =
      record {
        rrsets = w.rrsets;
        changed = w.changed;
        forward = w.checks.forward;
        current = w.checks.current;
        applied = w.checks.applied;
        valid =
            validate_zone_invariants-IsValidZone json_serial z.name w.rrsets next_serial
              w.checks.valid;
        bounded = (let b = w.checks.bounded in ground (arith, b));
        no_clash = w.fresh;
        zone_row =
            ap (λ (d : Database). fetchone (select (named zone_name) d.zones)) w.db_eq
            ∙ zone_after z request_id base_serial next_serial fingerprint ts w.rrsets db zone_name
                i;
        version_row = ap (λ (d : Database). d.versions) w.db_eq;
        snapshot = λ name rtype.
            ap
              (λ (d : Database).
                select (key_of z.name (z.current_version + 1) name rtype) d.records)
              w.db_eq
            ∙ select-materialize z.name (z.current_version + 1) name rtype db z.current_version
                w.rrsets w.changed fresh;
        ledger_row =
            ap (λ (d : Database). ledger_of d z.name request_id) w.db_eq
            ∙ ledger_after z request_id base_serial next_serial fingerprint ts w.rrsets db k;
        same_keys = ap (λ (d : Database). d.keys) w.db_eq;
        same_pins = ap (λ (d : Database). d.transfer_refs) w.db_eq;
        reply_eq = w.reply_eq;
      }

  -- A request that the ledger does not hold, to a zone without rows of its next version, is committed
  -- only if its serial goes forward from its base, its base is the zone's current serial, its changes
  -- are accepted, the RRsets that they make are a valid zone (one SOA record, with the new serial, and
  -- an NS record at the apex, each CNAME record alone at its name) of at most 10,000 records, and the
  -- version and the serial are new. The zone's row then has the new serial, version and counts; the
  -- version's row is added; in the new snapshot a changed name and type has the rows of its RRset, and
  -- any other has those it had; the ledger holds the outcome; keys and pins are as before; and the
  -- reply names the version and the serial.
  pub publish-IsCommitted :
      (db : Database) (zone_name request_id : Text) (base_serial next_serial : ℕ)
      (ops : List (Op V)) (fingerprint : Text) (ts : ℕ) (db' : Database) (reply : Reply)
      (z : ZoneRow)
      → publish canonical_rdata json_serial db zone_name request_id base_serial next_serial ops
          fingerprint ts
        ≡ (db', ok reply)
      → fetchone (select (named zone_name) db.zones) ≡ some z
      → ledger_of db z.name request_id ≡ none
      → select (version_of z.name (z.current_version + 1)) db.records ≡ []
      → IsCommitted db z zone_name request_id base_serial next_serial ops fingerprint ts db' reply
  unfolding publish
  publish-IsCommitted db zone_name request_id base_serial next_serial ops fingerprint ts db' reply z
        h i k fresh =
      written-IsCommitted db z zone_name request_id base_serial next_serial ops fingerprint ts db'
        reply i k fresh
        (attempt-IsWritten canonical_rdata json_serial db z request_id base_serial next_serial ops
          fingerprint ts db' reply
          (settle-ok db z.name request_id fingerprint base_serial next_serial ts _ db' reply
            (rw (i, k) at h)))
