-- ===== src/Tests/Publish.antt =====
-- Runs of the theorems on publishing at concrete inputs: a changeset that replaces an address and the
-- SOA record, then the same request again, and one that is refused.
use ab_bedd4c0e_tsig_bugfix.Prelude.{ℕ, ◌≡◌, inr, refl, true, false, none, some, List, [], ◌∷◌}
use ab_bedd4c0e_tsig_bugfix.Errors.{ApiError, api, serial_invalid, num, Result, ok, err, Fault}
use ab_bedd4c0e_tsig_bugfix.Text.{
  Text, codes, text_eq, text_leb, lower, lower_char, upper, upper_char, ends_with, split_dots,
  rstrip_dots, has_part, starts_with,
}
use ab_bedd4c0e_tsig_bugfix.Serial.{compare, is_forward}
use ab_bedd4c0e_tsig_bugfix.Storage.Tables.{
  Database, ZoneRow, RecordRow, select, delete, update, order_by, insert_by, fetchone,
}
use ab_bedd4c0e_tsig_bugfix.Storage.Cleanup.{enqueue_cleanup}
use ab_bedd4c0e_tsig_bugfix.Storage.Changeset.{
  Entry, Op, version_of, load_rrsets, add_rows, is_changed, entries_eq, read_entries, apply_op,
  apply_each, apply_ops, validate_zone_invariants, check_cnames, count_records,
}
use ab_bedd4c0e_tsig_bugfix.Canonical.Zone.{InZone, canonical_name-InZone}
use ab_bedd4c0e_tsig_bugfix.Canonical.{
  check_labels, label_rest, lstrip, rstrip, check_name, canonical_name, check_ttl, rr_fits_message,
  api_error,
}
use ab_bedd4c0e_tsig_bugfix.Wire.Names.{encode_name, encode_labels, encode_label}
use ab_bedd4c0e_tsig_bugfix.Storage.Materialize.{materialize, rewrite_changed}
use ab_bedd4c0e_tsig_bugfix.Storage.Publish.{
  replayed_error, publish, attempt, ledger_result, ledger_of, Reply,
}
use ab_bedd4c0e_tsig_bugfix.Storage.Publish.Ledger.{IsCommitted, publish-IsCommitted}
use ab_bedd4c0e_tsig_bugfix.Storage.Publish.Replay.{publish_again, publish_fails_again}
use ab_bedd4c0e_tsig_bugfix.Storage.Publish.Immutable.{
  with_ledger, publish_fails, publish_keeps_snapshots,
}
use ab_bedd4c0e_tsig_bugfix.Tests.Store.{zone, version, zone_row}

-- A value is its text; the wire form is the text too, and the serial of an SOA text its first code.
abbrev rdata : Text → Text → Text → Result Entry
rdata rtype value zone_name = ok (value, value)

abbrev serial_in : Text → ℕ
serial_in [] = 0
serial_in (c ∷ s) = c

abbrev row : ℕ → Text → Text → Text → RecordRow
row v name rtype data_text = record {
  zone = zone;
  version_id = v;
  name = name;
  rtype = rtype;
  ttl = 60;
  rdata = data_text;
  rdata_wire = data_text;
}

abbrev store : Database
store = record {
  zones = zone_row ∷ [];
  versions = version 2 ∷ [];
  records =
      row 2 zone (codes "NS") (codes "ns.")
      ∷ row 2 zone (codes "SOA") (7 ∷ [])
      ∷ row 1 zone (codes "SOA") (6 ∷ [])
      ∷ [];
  changes = [];
  publish_requests = [];
  keys = [];
  transfer_refs = [];
  cleanup_tasks = [];
  next_task = 1;
}

abbrev replace : Text → Text → Text → Op Text
replace name rtype value = record {
  action = codes "Replace";
  name = name;
  rtype = rtype;
  ttl = 60;
  records = value ∷ [];
}

abbrev ops : List (Op Text)
ops =
    replace (codes "@") (codes "soa") (8 ∷ []) ∷ replace (codes "a") (codes "A") (codes "addr") ∷ []

unfoldable run : Database × Result Reply
unfolding publish attempt materialize rewrite_changed ledger_result enqueue_cleanup load_rrsets
    add_rows is_changed entries_eq read_entries apply_op apply_each apply_ops
    validate_zone_invariants check_cnames count_records canonical_name check_name check_labels
    label_rest lstrip rstrip check_ttl rr_fits_message encode_name encode_labels encode_label select
    delete update order_by insert_by text_eq text_leb lower lower_char upper upper_char ends_with
    split_dots rstrip_dots has_part starts_with compare is_forward
run = publish rdata serial_in store zone (codes "r1") 7 8 ops (codes "f") 900

abbrev reply : Reply
reply = record {
  zone = zone;
  request_id = codes "r1";
  version_id = some 3;
  serial = some 8;
  replayed = false;
}

publish-run :
    publish rdata serial_in store zone (codes "r1") 7 8 ops (codes "f") 900 ≡ (run.0, ok reply)
unfolding run publish attempt materialize rewrite_changed ledger_result enqueue_cleanup load_rrsets
    add_rows is_changed entries_eq read_entries apply_op apply_each apply_ops
    validate_zone_invariants check_cnames count_records canonical_name check_name check_labels
    label_rest lstrip rstrip check_ttl rr_fits_message encode_name encode_labels encode_label select
    delete update order_by insert_by text_eq text_leb lower lower_char upper upper_char ends_with
    split_dots rstrip_dots has_part starts_with compare is_forward
publish-run = refl

zone_found : fetchone (select (λ (z : ZoneRow). text_eq z.name zone) store.zones) ≡ some zone_row
unfolding select text_eq
zone_found = refl

not_in_ledger : ledger_of store zone (codes "r1") ≡ none
unfolding select
not_in_ledger = refl

no_next_version : select (version_of zone 3) store.records ≡ []
unfolding select text_eq
no_next_version = refl

publish-IsCommitted_example :
    IsCommitted rdata serial_in store zone_row zone (codes "r1") 7 8 ops (codes "f") 900 run.0 reply
publish-IsCommitted_example =
    publish-IsCommitted rdata serial_in store zone (codes "r1") 7 8 ops (codes "f") 900 run.0 reply
      zone_row publish-run zone_found not_in_ledger no_next_version

-- The second call has other serials and no changes.
publish_again_example :
    publish rdata serial_in run.0 zone (codes "r1") 1 2 [] (codes "f") 950
    ≡ (run.0, ok (record reply { replayed = true }))
publish_again_example =
    publish_again rdata serial_in zone (codes "r1") 7 8 ops (codes "f") 900 1 2 [] 950 store run.0
      reply publish-run

publish_keeps_snapshots_example :
    select (version_of zone 2) run.0.records ≡ select (version_of zone 2) store.records
publish_keeps_snapshots_example =
    publish_keeps_snapshots rdata serial_in zone (codes "r1") 7 8 ops (codes "f") 900 store run.0
      (ok reply) zone_row zone 2 publish-run zone_found (inr refl)

-- A serial that does not move.
abbrev refused : Fault
refused = api_error serial_invalid 422 (("baseSerial", num 7) ∷ ("nextSerial", num 7) ∷ [])

unfoldable refusal : Database × Result Reply
unfolding publish attempt materialize rewrite_changed ledger_result enqueue_cleanup load_rrsets
    add_rows is_changed entries_eq read_entries apply_op apply_each apply_ops
    validate_zone_invariants check_cnames count_records canonical_name check_name check_labels
    label_rest lstrip rstrip check_ttl rr_fits_message encode_name encode_labels encode_label select
    delete update order_by insert_by text_eq text_leb lower lower_char upper upper_char ends_with
    split_dots rstrip_dots has_part starts_with compare is_forward
refusal = publish rdata serial_in store zone (codes "r2") 7 7 ops (codes "f") 900

publish-refusal :
    publish rdata serial_in store zone (codes "r2") 7 7 ops (codes "f") 900
    ≡ (refusal.0, err refused)
unfolding refusal publish attempt materialize rewrite_changed ledger_result enqueue_cleanup
    load_rrsets add_rows is_changed entries_eq read_entries apply_op apply_each apply_ops
    validate_zone_invariants check_cnames count_records canonical_name check_name check_labels
    label_rest lstrip rstrip check_ttl rr_fits_message encode_name encode_labels encode_label select
    delete update order_by insert_by text_eq text_leb lower lower_char upper upper_char ends_with
    split_dots rstrip_dots has_part starts_with compare is_forward
publish-refusal = refl

publish_fails_example : refusal.0 ≡ with_ledger store refusal.0.publish_requests
publish_fails_example =
    publish_fails rdata serial_in zone (codes "r2") 7 7 ops (codes "f") 900 store refusal.0 refused
      publish-refusal

not_in_ledger2 : ledger_of store zone (codes "r2") ≡ none
unfolding select
not_in_ledger2 = refl

abbrev refused_error : ApiError
refused_error = record {
  code = serial_invalid;
  http_status = 422;
  details = ("baseSerial", num 7) ∷ ("nextSerial", num 7) ∷ [];
}

publish_fails_again_example :
    publish rdata serial_in refusal.0 zone (codes "r2") 7 8 ops (codes "f") 950
    ≡ (refusal.0, err (api (replayed_error refused_error)))
publish_fails_again_example =
    publish_fails_again rdata serial_in zone (codes "r2") 7 7 ops (codes "f") 900 7 8 ops 950 store
      refusal.0 zone_row refused_error publish-refusal zone_found not_in_ledger2 refl

canonical_name-a : canonical_name (codes " A ") zone ≡ ok (codes "a.example.")
unfolding canonical_name check_name check_labels label_rest lstrip rstrip text_eq lower lower_char
    ends_with split_dots
canonical_name-a = refl

canonical_name-InZone_example : InZone (codes "a.example.") zone
canonical_name-InZone_example =
    canonical_name-InZone (codes " A ") zone (codes "a.example.") canonical_name-a
