-- ===== src/Storage/Publish.antt =====
-- `publish` of app/storage.py with `_insert_ledger`, `_fail_or_rollback` and
-- `_ledger_result`. The database afterwards is part of the answer also where the call raises: a
-- failure may be kept in the ledger.
pub mod Ledger
pub mod Writes
pub mod Replay
pub mod Immutable
use ab_bedd4c0e_tsig_bugfix.Prelude.{
  ℕ, ◌+◌, String, Bool, true, false, not, ◌&&◌, ◌||◌, Option, none, some, List, [], ◌∷◌, ◌++◌, ◌==◌,
  if◌then◌else◌, ltb, length, map,
}
use ab_bedd4c0e_tsig_bugfix.Errors.{
  ErrorCode, version_conflict, idempotency_conflict, serial_invalid, serial_undecidable,
  zone_invalid, changeset_invalid, limit_exceeded, zone_not_found, ApiError, Detail, num, text,
  flag, Fault, api, integrity_error, Result, ok, err, ◌>>=◌, ◌>>◌, raise_if,
}
use ab_bedd4c0e_tsig_bugfix.Text.{Text, Bytes, codes, text_eq, text_leb, has_part}
use ab_bedd4c0e_tsig_bugfix.Serial.{
  SerialRelation, equal, greater, less, undecidable, compare, is_forward,
}
use ab_bedd4c0e_tsig_bugfix.Storage.Tables.{
  Database, ZoneRow, VersionRow, RecordRow, ChangeRow, ChangeOp, del, add, RequestRow,
  RequestStatus, committed, failed, select, delete, update, order_by, fetchone, found,
}
use ab_bedd4c0e_tsig_bugfix.Storage.Cleanup.{enqueue_cleanup}
use ab_bedd4c0e_tsig_bugfix.Storage.Changeset.{
  Entry, Rrset, Changed, Draft, Op, version_of, load_rrsets, apply_ops, validate_zone_invariants,
  count_records, rrset_of, entries_of,
}
use ab_bedd4c0e_tsig_bugfix.Canonical.{api_error}
use ab_bedd4c0e_tsig_bugfix.Storage.Materialize.{materialize}

-- Config.MAX_RECORDS_PER_ZONE
abbrev pub max_records : ℕ
max_records = 10000

-- A step of a transaction gives the tables as they stand in it, also where it raises.
abbrev pub in_tx :
    {A B : Type 0}
    → Database × Result A
    → (Database → A → Database × Result B)
    → Database × Result B
in_tx (tx, err e) next = (tx, err e)
in_tx (tx, ok a) next = next tx a

-- INSERT INTO versions, under PRIMARY KEY (zone, version_id) and UNIQUE (zone, serial)
abbrev pub clashes : VersionRow → VersionRow → Bool
clashes w v = text_eq v.zone w.zone && (v.version_id == w.version_id || v.serial == w.serial)

abbrev pub insert_version : VersionRow → Database → Result Database
insert_version v db =
    if found (select (clashes v) db.versions)
    then err integrity_error
    else ok (record db { versions = db.versions ++ v ∷ [] })

-- A statement that fails writes nothing.
abbrev pub statement : Database → Result Database → Database × Result (Unit {0})
statement tx (ok tx') = (tx', ok tt)
statement tx (err e) = (tx, err e)

abbrev pub has_request : Text → Text → RequestRow → Bool
has_request zone request_id r = text_eq r.zone zone && text_eq r.request_id request_id

abbrev pub ledger_of : Database → Text → Text → Option RequestRow
ledger_of db zone request_id = fetchone (select (has_request zone request_id) db.publish_requests)

abbrev pub insert_ledger : RequestRow → Database → Database
insert_ledger r db = record db { publish_requests = db.publish_requests ++ r ∷ [] }

abbrev pub named : Text → ZoneRow → Bool
named zone z = text_eq z.name zone

pub record Reply : Type 0 where
  pub zone : Text
  pub request_id : Text
  pub version_id : Option ℕ
  pub serial : Option ℕ
  pub replayed : Bool

abbrev code_of : Option String → ErrorCode
code_of none = serial_invalid
code_of (some msg) =
    if has_part (codes "undecidable") (codes msg) then serial_undecidable else serial_invalid

abbrev relation_text : SerialRelation → Text
relation_text equal = codes "EQUAL"
relation_text greater = codes "GREATER"
relation_text less = codes "LESS"
relation_text undecidable = codes "UNDECIDABLE"

abbrev pub is_equal : SerialRelation → Bool
is_equal equal = true
is_equal _ = false

-- `LEDGERABLE_FAILURES`
abbrev pub is_ledgerable : ErrorCode → Bool
is_ledgerable version_conflict = true
is_ledgerable serial_invalid = true
is_ledgerable serial_undecidable = true
is_ledgerable zone_invalid = true
is_ledgerable changeset_invalid = true
is_ledgerable limit_exceeded = true
is_ledgerable _ = false

-- `ledger["error_status"] or 409`
abbrev pub status_or : ℕ → ℕ
status_or s = if s == 0 then 409 else s

abbrev pub replayed_error : ApiError → ApiError
replayed_error e = record {
  code = e.code;
  http_status = status_or e.http_status;
  details = e.details ++ ("replayed", flag true) ∷ [];
}

abbrev pub failed_result : Option ApiError → Result Reply
failed_result none = err Fault.type_error
failed_result (some e) = err (api (replayed_error e))

-- `_ledger_result`
unfoldable pub ledger_result : RequestRow → Result Reply
ledger_result r = elim r.status [
  | committed ↦ ok (record {
    zone = r.zone;
    request_id = r.request_id;
    version_id = r.version_id;
    serial = r.serial;
    replayed = true;
  })
  | failed ↦ failed_result r.error
]

abbrev pub version_row : ZoneRow → Text → ℕ → ℕ → VersionRow
version_row z request_id next_serial ts = record {
  zone = z.name;
  version_id = z.current_version + 1;
  serial = next_serial;
  request_id = request_id;
  created_at = ts;
}

abbrev pub committed_row : ZoneRow → Text → ℕ → ℕ → Text → ℕ → RequestRow
committed_row z request_id base_serial next_serial fingerprint ts = record {
  zone = z.name;
  request_id = request_id;
  fingerprint = fingerprint;
  status = committed;
  version_id = some (z.current_version + 1);
  serial = some next_serial;
  error = none;
  base_serial = base_serial;
  next_serial = next_serial;
  created_at = ts;
}

abbrev pub advance : ZoneRow → ℕ → ℕ → List Rrset → ZoneRow → ZoneRow
advance z next_serial ts rrsets w = record w {
  current_serial = next_serial;
  current_version = z.current_version + 1;
  record_count = count_records rrsets;
  rrset_count = length rrsets;
  updated_at = ts;
}

-- The writes behind the new version's: the zone, the ledger, the cleanup task.
abbrev pub commit : ZoneRow → Text → ℕ → ℕ → Text → ℕ → List Rrset → Database → Database
commit z request_id base_serial next_serial fingerprint ts rrsets db =
    enqueue_cleanup
      (insert_ledger (committed_row z request_id base_serial next_serial fingerprint ts)
        (record db { zones = update (named z.name) (advance z next_serial ts rrsets) db.zones }))
      z.name ts

abbrev pub failed_row : Text → Text → Text → ℕ → ℕ → ℕ → ApiError → RequestRow
failed_row zone request_id fingerprint base_serial next_serial ts e = record {
  zone = zone;
  request_id = request_id;
  fingerprint = fingerprint;
  status = failed;
  version_id = none;
  serial = none;
  error = some e;
  base_serial = base_serial;
  next_serial = next_serial;
  created_at = ts;
}

-- `_fail_or_rollback` on the database before the transaction and the tables as they stand in it: where
-- the ledger keeps the failure, all that the transaction has written is committed with its row; else
-- all is rolled back.
abbrev pub fail_or_rollback :
    Database → Database → Text → Text → Text → ℕ → ℕ → ℕ → Fault → Database
fail_or_rollback db tx zone request_id fingerprint base_serial next_serial ts (api e) =
    if is_ledgerable e.code
      && not (found (select (has_request zone request_id) tx.publish_requests))
    then insert_ledger (failed_row zone request_id fingerprint base_serial next_serial ts e) tx
    else db
fail_or_rollback db tx zone request_id fingerprint base_serial next_serial ts e = db

-- How the transaction ends: it has committed, or one of the handlers of `publish` settles it.
abbrev pub settle :
    Database → Text → Text → Text → ℕ → ℕ → ℕ → Database × Result Reply → Database × Result Reply
settle db zone request_id fingerprint base_serial next_serial ts (tx, ok reply) = (tx, ok reply)
settle db zone request_id fingerprint base_serial next_serial ts (tx, err e) =
    (fail_or_rollback db tx zone request_id fingerprint base_serial next_serial ts e, err e)

abbrev pub replay : RequestRow → Text → Result Reply
replay r fingerprint =
    if text_eq r.fingerprint fingerprint
    then ledger_result r
    else err (
        api_error idempotency_conflict 409 (
          ("requestId", text r.request_id)
          ∷ (
            "originalStatus",
            text (elim r.status [ committed ↦ codes "COMMITTED" | failed ↦ codes "FAILED" ]),
          )
          ∷ []))

module _ {V : Type 0} (canonical_rdata : Text → V → Text → Result Entry)
    (json_serial : Text → ℕ) where
  -- The checks of a new request: the RRsets that it makes, and the changed ones of them.
  abbrev pub checked : Database → ZoneRow → ℕ → ℕ → List (Op V) → Result Draft
  checked db z base_serial next_serial ops = do
    let (forward, msg) = is_forward base_serial next_serial
    raise_if (not forward) (
        api_error (code_of msg) 422
          (("baseSerial", num base_serial) ∷ ("nextSerial", num next_serial) ∷ []))
    raise_if (not (is_equal (compare z.current_serial base_serial))) (
        api_error version_conflict 409 (
          ("currentSerial", num z.current_serial)
          ∷ ("baseSerial", num base_serial)
          ∷ ("relation", text (relation_text (compare z.current_serial base_serial)))
          ∷ ("hint", text (codes "rebase onto currentSerial and resubmit with a new requestId"))
          ∷ []))
    (rrsets, changed) ←
        apply_ops canonical_rdata z.name ops (load_rrsets db z.name z.current_version, [])
    validate_zone_invariants json_serial z.name rrsets next_serial
    let total = count_records rrsets
    raise_if (ltb max_records total)
        (api_error limit_exceeded 413 (("limit", num max_records) ∷ ("count", num total) ∷ []))
    ok (rrsets, changed)

  -- The transaction of a new request, at the row of its zone, up to its commit or its exception.
  unfoldable pub attempt :
      Database → ZoneRow → Text → ℕ → ℕ → List (Op V) → Text → ℕ → Database × Result Reply
  attempt db z request_id base_serial next_serial ops fingerprint ts =
      in_tx (db, checked db z base_serial next_serial ops)
        λ tx (rrsets, changed).
          let m = materialize tx z.name z.current_version (z.current_version + 1) rrsets changed in
          in_tx (statement m (insert_version (version_row z request_id next_serial ts) m))
            λ tx2 done. (
              commit z request_id base_serial next_serial fingerprint ts rrsets tx2,
              ok (record {
                zone = z.name;
                request_id = request_id;
                version_id = some (z.current_version + 1);
                serial = some next_serial;
                replayed = false;
              }),
            )

  abbrev pub at_ledger :
      Database
      → ZoneRow
      → Text
      → ℕ
      → ℕ
      → List (Op V)
      → Text
      → ℕ
      → Option RequestRow
      → Database × Result Reply
  at_ledger db z request_id base_serial next_serial ops fingerprint ts (some r) =
      (db, replay r fingerprint)
  at_ledger db z request_id base_serial next_serial ops fingerprint ts none =
      settle db z.name request_id fingerprint base_serial next_serial ts
        (attempt db z request_id base_serial next_serial ops fingerprint ts)

  abbrev pub at_zone :
      Database → Text → ℕ → ℕ → List (Op V) → Text → ℕ → Option ZoneRow → Database × Result Reply
  at_zone db request_id base_serial next_serial ops fingerprint ts none =
      (db, err (api_error zone_not_found 404 []))
  at_zone db request_id base_serial next_serial ops fingerprint ts (some z) =
      at_ledger db z request_id base_serial next_serial ops fingerprint ts
        (ledger_of db z.name request_id)

  -- `publish`
  unfoldable pub publish :
      Database → Text → Text → ℕ → ℕ → List (Op V) → Text → ℕ → Database × Result Reply
  publish db zone_name request_id base_serial next_serial ops fingerprint ts =
      at_zone db request_id base_serial next_serial ops fingerprint ts
        (fetchone (select (named zone_name) db.zones))
