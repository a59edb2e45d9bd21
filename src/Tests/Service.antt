-- ===== src/Tests/Service.antt =====
-- Runs of the theorems on zones, record data and the whole service at concrete inputs.
use ab_bedd4c0e_tsig_bugfix.Prelude.{true, none, Option, ◌++◌}
use ab_bedd4c0e_tsig_bugfix.Text.{rstrip_dots}
use ab_bedd4c0e_tsig_bugfix.Json.{escape, escape_char, decimal, digits}
use ab_bedd4c0e_tsig_bugfix.Canonical.{is_absolute}
use ab_bedd4c0e_tsig_bugfix.Wire.Bytes.{pack_h}
use ab_bedd4c0e_tsig_bugfix.Wire.Names.{encode_name, encode_labels, encode_label}
use ab_bedd4c0e_tsig_bugfix.Wire.Rdata.{Rdata, encode_rdata}
use ab_bedd4c0e_tsig_bugfix.Canonical.Rdata.{canon_of, target_of, dump, canonical_rdata}
use ab_bedd4c0e_tsig_bugfix.Canonical.Rdata.Again.{fields_of}
use ab_bedd4c0e_tsig_bugfix.Canonical.Rdata.Stable.{canonical_rdata_again}
use ab_bedd4c0e_tsig_bugfix.Prelude.{ℕ, ◌≡◌, refl, some, List, [], ◌∷◌}
use ab_bedd4c0e_tsig_bugfix.Errors.{Result, ok, err, value_error}
use ab_bedd4c0e_tsig_bugfix.Text.{
  Text, Bytes, codes, text_eq, lower, lower_char, ends_with, split_dots, text_leb,
}
use ab_bedd4c0e_tsig_bugfix.Canonical.{
  canonical_target, check_name, check_labels, label_rest, lstrip, rstrip,
}
use ab_bedd4c0e_tsig_bugfix.Json.{
  pos, Json, null, whole, str, array, object, item, no_items, Fields, no_fields, field, get,
  items_of, int_of, int_of_text, digits_from,
}
use ab_bedd4c0e_tsig_bugfix.Canonical.{canonical_zone_arg}
use ab_bedd4c0e_tsig_bugfix.Api.Request.{valid_u32, request_id_of, PublishRequest, check_publish}
use ab_bedd4c0e_tsig_bugfix.Api.Request.Validated.{IsBounded, check_publish-IsBounded}
use ab_bedd4c0e_tsig_bugfix.Storage.Tables.{
  Database, RecordRow, revoked, select, order_by, get_zone_row,
}
use ab_bedd4c0e_tsig_bugfix.Storage.Keys.View.{view, Step}
use ab_bedd4c0e_tsig_bugfix.Storage.Keys.Revocation.{AtMostOneActive}
use ab_bedd4c0e_tsig_bugfix.Storage.Zones.{
  soa_text, ns_text, apex_row, first_zone, Metadata, create_zone, ns_rows, is_seen, insert_zone,
  insert_records, zone_metadata, get_soa,
}
use ab_bedd4c0e_tsig_bugfix.Storage.Zones.Created.{written, IsCreated, create_zone-IsCreated}
use ab_bedd4c0e_tsig_bugfix.Wire.Rdata.{txt_strings}
use ab_bedd4c0e_tsig_bugfix.Wire.Rdata.TxtStrings.{Holds, txt_strings-Holds}
use ab_bedd4c0e_tsig_bugfix.Server.Socket.{bytes_in}
use ab_bedd4c0e_tsig_bugfix.Api.Response.{Request}
use ab_bedd4c0e_tsig_bugfix.Service.{Event, post, put, connection, cleanup, Outside, serve, run}
use ab_bedd4c0e_tsig_bugfix.Service.Keys.{serve-Step, run-revoked, run-AtMostOneActive}
use ab_bedd4c0e_tsig_bugfix.Tests.{digest}
use ab_bedd4c0e_tsig_bugfix.Tests.Access.{msg, after_revoke}
use ab_bedd4c0e_tsig_bugfix.Tests.Store.{zone, db, one_active}

txt_strings-Holds_example : Holds (104 ∷ 105 ∷ []) (txt_strings (104 ∷ 105 ∷ []))
txt_strings-Holds_example = txt_strings-Holds (104 ∷ 105 ∷ [])

abbrev outside : Outside
outside = record {
  hmac = digest;
  sha256 = λ s. s;
  repr = λ j. [];
  compressed = λ s. some s;
  packed = λ s. err value_error;
  json_serial = λ s. 7;
  instance_id = codes "i";
  budget = 64000;
}

-- A request with an empty object as its body.
abbrev request : List Text → Request
request parts = record {
  path = codes "/";
  parts = parts;
  content_length = codes "2";
  payload = λ n. some (object no_fields);
}

abbrev revoke_request : Event
revoke_request = post (9 ∷ []) 100 (
    request (
      codes "v1"
      ∷ codes "zones"
      ∷ codes "example"
      ∷ codes "keys"
      ∷ codes "k1"
      ∷ codes "revoke"
      ∷ []))

serve-Step_example : Step (view db) (view (serve outside revoke_request db))
serve-Step_example = serve-Step outside revoke_request db

abbrev events : List Event
events =
    connection 1700000100 1700000100 1700000100000 (codes "new") (bytes_in (0 ∷ 70 ∷ msg) ∷ [])
    ∷ cleanup (codes "t2") 1700000100 1700000100000
    ∷ revoke_request
    ∷ put 100 (request (codes "v1" ∷ codes "zones" ∷ codes "example" ∷ codes "retention" ∷ []))
    ∷ []

k1_revoked : view after_revoke zone (codes "k1") ≡ some revoked
unfolding select text_eq
k1_revoked = refl

run-revoked_example : view (run outside events after_revoke) zone (codes "k1") ≡ some revoked
run-revoked_example = run-revoked outside events after_revoke zone (codes "k1") k1_revoked

abbrev empty : Database
empty = record {
  zones = [];
  versions = [];
  records = [];
  changes = [];
  publish_requests = [];
  keys = [];
  transfer_refs = [];
  cleanup_tasks = [];
  next_task = 1;
}

run-AtMostOneActive_example : AtMostOneActive (run outside events db)
run-AtMostOneActive_example = run-AtMostOneActive outside events db one_active

abbrev soa_form : Text → ℕ → Text → Result (Text × Bytes)
soa_form v serial z = ok (v, serial ∷ [])

abbrev soa_life : Text → Result ℕ
soa_life v = ok 3600

abbrev ns_form : Text → Text → Result (Text × Bytes)
ns_form t z = ok (t, [])

abbrev made : Database
made = written empty zone 7 5 100 (
    apex_row zone soa_text 3600 (codes "s", 7 ∷ [])
    ∷ apex_row zone ns_text 3600 (codes "ns.example.", [])
    ∷ [])

abbrev made_metadata : Metadata
made_metadata = record {
  row = first_zone zone 7 5 2 100;
  soa = codes "s";
  ns = codes "ns.example." ∷ [];
}

zone_made :
    create_zone soa_form soa_life ns_form empty zone 7
      (codes "s")
      (codes "ns" ∷ codes "NS.example." ∷ [])
      5
      100
    ≡ ok (made, made_metadata)
unfolding create_zone ns_rows is_seen insert_zone insert_records zone_metadata get_soa get_zone_row
    select order_by text_eq text_leb canonical_target check_name check_labels label_rest lstrip
    rstrip lower lower_char ends_with split_dots
zone_made = refl

no_records : select (λ (r : RecordRow). text_eq r.zone zone) empty.records ≡ []
unfolding select
no_records = refl

create_zone-IsCreated_example : IsCreated empty zone 7 5 100 made made_metadata
create_zone-IsCreated_example =
    create_zone-IsCreated soa_form soa_life ns_form empty zone 7 (codes "s") (codes "ns")
      (codes "NS.example." ∷ []) 5 100 made made_metadata no_records zone_made

-- A request to publish one change.
abbrev publish_body : Fields
publish_body = field (codes "requestId") (str (codes " r1 ")) (
    field (codes "baseSerial") (whole (pos 7)) (
      field (codes "nextSerial") (str (codes "8"))
        (field (codes "changes") (array (item null no_items)) no_fields)))

abbrev publish_request : PublishRequest
publish_request = record {
  zone = zone;
  request_id = codes "r1";
  base_serial = 7;
  next_serial = 8;
  changes = null ∷ [];
}

publish_body-checked : check_publish (codes "Example") publish_body ≡ ok publish_request
unfolding check_publish canonical_zone_arg check_name check_labels label_rest lstrip rstrip lower
    lower_char ends_with split_dots text_eq request_id_of valid_u32 int_of int_of_text digits_from
    get items_of
publish_body-checked = refl

check_publish-IsBounded_example : IsBounded publish_request
check_publish-IsBounded_example =
    check_publish-IsBounded (codes "Example") publish_body publish_request publish_body-checked

-- A mail exchanger in a request.
abbrev mx_value : Json
mx_value = object (
    field (codes "preference") (str (codes "10"))
      (field (codes "exchange") (str (codes "Mail")) no_fields))

abbrev mx_text : Text
mx_text = codes "{\"exchange\":\"mail.example.\",\"preference\":10}"

abbrev mx_wire : Bytes
mx_wire = 0 ∷ 10 ∷ 4 ∷ codes "mail" ++ 7 ∷ codes "example" ++ 0 ∷ []

abbrev no_repr : Json → Text
no_repr j = []

abbrev no_short : Text → Option Text
no_short t = none

abbrev no_bytes : Text → Result Bytes
no_bytes t = err value_error

mx_value-canonical :
    canonical_rdata no_repr no_short no_bytes (codes "MX") mx_value zone ≡ ok (mx_text, mx_wire)
unfolding canonical_rdata canon_of target_of canonical_target check_name check_labels label_rest
    lstrip rstrip lower lower_char ends_with split_dots text_eq int_of int_of_text digits_from get
    encode_rdata pack_h encode_name encode_labels encode_label rstrip_dots dump escape escape_char
    decimal digits
mx_value-canonical = refl

zone_absolute : is_absolute zone ≡ true
unfolding ends_with text_eq
zone_absolute = refl

canonical_rdata_again_example :
    (c : Rdata) × (mx_text ≡ dump c)
    × (canonical_rdata no_repr no_short no_bytes (codes "MX") (object (fields_of c)) zone
        ≡ ok (mx_text, mx_wire))
canonical_rdata_again_example =
    canonical_rdata_again no_repr no_short zone zone_absolute (λ t u h. cc) no_bytes (codes "MX")
      mx_value mx_text mx_wire mx_value-canonical
