-- ===== src/Server/Access.antt =====
-- `DNSLogic.authorize_transfer` of app/dns_server.py with `_resolve_in_tx` and `_decide_ixfr`: key
-- policy, MAC, the choice between AXFR and IXFR, and the pin, in one transaction. The clock, the
-- instance's name and the new reference id are arguments.
pub mod Contiguous
pub mod Counting
pub mod Granted
pub mod Secondary
pub mod Revoked
use ab_bedd4c0e_tsig_bugfix.Prelude.{
  ℕ, ◌+◌, ◌-◌, ◌*◌, Bool, true, false, not, ◌&&◌, ◌||◌, Option, none, some, List, [], ◌∷◌, ◌==◌,
  if◌then◌else◌, ltb, leb, length,
}
use ab_bedd4c0e_tsig_bugfix.Errors.{Result, ok, err, denied, type_error, ◌>>=◌, ◌>>◌, raise_if}
use ab_bedd4c0e_tsig_bugfix.Text.{Text, Bytes, text_eq}
use ab_bedd4c0e_tsig_bugfix.Serial.{SerialRelation, equal, greater, less, undecidable, compare}
use ab_bedd4c0e_tsig_bugfix.Storage.Tables.{
  Database, ZoneRow, VersionRow, KeyRow, KeyState, active, retiring, revoked, select, fetchone,
}
use ab_bedd4c0e_tsig_bugfix.Storage.Keys.{is_active, is_revoked}
use ab_bedd4c0e_tsig_bugfix.Storage.Transfers.{pin_transfer}
use ab_bedd4c0e_tsig_bugfix.Wire.Tsig.{
  tsig_badsig, tsig_badkey, tsig_badtime, type_axfr, type_ixfr, verify_tsig_time,
}
use ab_bedd4c0e_tsig_bugfix.Wire.Query.{Tsig, Query}
use ab_bedd4c0e_tsig_bugfix.Wire.Mac.{expected_request_mac}

pub data Mode : Type 0 where
  axfr ixfr : Mode

-- The plan of a transfer.
pub record Plan : Type 0 where
  pub mode : Option Mode
  pub zone : Text
  pub target_version : ℕ
  pub target_serial : ℕ
  pub min_version : ℕ
  pub ref_id : Text
  pub key_name : Text
  pub secret : Bytes
  pub qid : ℕ

-- `WHERE zone=? AND key_name=?`
abbrev pub has_name : Text → Text → KeyRow → Bool
has_name zone name k = text_eq k.zone zone && text_eq k.key_name name

abbrev pub is_live : KeyRow → Bool
is_live k = not (is_revoked k.state)

abbrev pub before_expiry : ℕ → Option ℕ → Bool
before_expiry now none = true
before_expiry now (some e) = ltb (now * 1000) e

abbrev pub is_usable : ℕ → KeyRow → Bool
is_usable now k = is_active k.state || before_expiry now k.expires_at

-- `max(usable, key=lambda r: r["gen"])`: of several rows with the highest generation the first
unfoldable pub newest : KeyRow → List KeyRow → KeyRow
newest best [] = best
newest best (k ∷ ks) = if ltb best.gen k.gen then newest k ks else newest best ks

abbrev pub pick_usable : List KeyRow → Result KeyRow
pick_usable [] = err (denied (some tsig_badkey) none)
pick_usable (k ∷ ks) = ok (newest k ks)

abbrev pub check_time : Tsig → ℕ → List KeyRow → Result KeyRow
check_time t now live =
    if verify_tsig_time t.time t.fudge now
    then pick_usable (select (is_usable now) live)
    else err (denied (some tsig_badtime) (some now))

abbrev pub pick_live : Tsig → ℕ → List KeyRow → Result KeyRow
pick_live t now [] = err (denied (some tsig_badkey) none)
pick_live t now (k ∷ ks) = check_time t now (k ∷ ks)

-- `_resolve_in_tx`; an answer with an error is the denial that `authorize_transfer` makes of it
unfoldable pub resolve_in_tx : Database → Text → Tsig → ℕ → Result KeyRow
unfolding newest
resolve_in_tx db zone t now =
    pick_live t now (select is_live (select (has_name zone t.name) db.keys))

abbrev pub version_by_serial : Database → Text → ℕ → Option VersionRow
version_by_serial db zone serial =
    fetchone (select (λ (v : VersionRow). text_eq v.zone zone && v.serial == serial) db.versions)

-- `SELECT COUNT(*) … WHERE zone=? AND version_id>? AND version_id<=?`
abbrev pub in_range : Text → ℕ → ℕ → VersionRow → Bool
in_range zone low high v = text_eq v.zone zone && ltb low v.version_id && leb v.version_id high

abbrev pub from_start : Database → Text → ℕ → Option VersionRow → Mode
from_start db zone target_version none = axfr
from_start db zone target_version (some start) =
    if leb target_version start.version_id
    then axfr
    else if length (select (in_range zone start.version_id target_version) db.versions)
        == target_version - start.version_id
    then ixfr
    else axfr

abbrev pub by_relation : SerialRelation → Mode → Mode
by_relation equal m = ixfr
by_relation greater m = m
by_relation less m = axfr
by_relation undecidable m = axfr

-- `_decide_ixfr`
unfoldable pub decide_ixfr : Database → Text → ℕ → ℕ → Option ℕ → Mode
decide_ixfr db zone target_version target_serial none = axfr
decide_ixfr db zone target_version target_serial (some client_serial) =
    by_relation (compare client_serial target_serial)
      (from_start db zone target_version (version_by_serial db zone client_serial))

abbrev pub start_version : Option VersionRow → Result ℕ
start_version none = err type_error
start_version (some v) = ok v.version_id

abbrev pub serial_row : Database → Text → Option ℕ → Option VersionRow
serial_row db zone none = none
serial_row db zone (some serial) = version_by_serial db zone serial

abbrev pub min_for : Database → Text → ℕ → Option ℕ → Mode → Result ℕ
min_for db zone target_version client_serial axfr = ok target_version
min_for db zone target_version client_serial ixfr = start_version (serial_row db zone client_serial)

-- The mode and the oldest version that the transfer needs.
unfoldable pub decide : Database → ZoneRow → Query → Result (Option Mode × ℕ)
unfolding decide_ixfr
decide db z q =
    if q.qtype == type_axfr
    then ok (some axfr, z.current_version)
    else if q.qtype == type_ixfr
    then (do
      let mode = decide_ixfr db z.name z.current_version z.current_serial q.client_soa_serial
      min_version ← min_for db z.name z.current_version q.client_soa_serial mode
      ok (some mode, min_version))
    else ok (none, z.current_version)

abbrev pub of_tsig : Option Tsig → Result Tsig
of_tsig none = err (denied none none)
of_tsig (some t) = ok t

abbrev pub of_zone : Option ZoneRow → Result ZoneRow
of_zone none = err (denied (some tsig_badkey) none)
of_zone (some z) = ok z

-- `raw[:tsig_offset]`, the whole message if there is no offset
abbrev pub offset_or : Option ℕ → ℕ → ℕ
offset_or none d = d
offset_or (some off) d = off

module _ (hmac : Bytes → Bytes → Bytes) (now ts : ℕ) (instance_id ref_id : Text) where
  unfoldable pub authorize_transfer : Database → Query → Result (Database × Plan)
  authorize_transfer db q = do
    t ← of_tsig q.tsig
    z ← of_zone (fetchone (select (λ (z : ZoneRow). text_eq z.name q.qname) db.zones))
    key ← resolve_in_tx db z.name t now
    expected ← expected_request_mac hmac key.secret q t (offset_or q.tsig_offset (length q.raw))
    raise_if (not (text_eq expected t.mac)) (denied (some tsig_badsig) none)
    (mode, min_version) ← decide db z q
    let plan : Plan = record {
      mode = mode;
      zone = z.name;
      target_version = z.current_version;
      target_serial = z.current_serial;
      min_version = min_version;
      ref_id = ref_id;
      key_name = t.name;
      secret = key.secret;
      qid = q.id;
    }
    ok (pin_transfer db z.name instance_id z.current_version min_version key.gen ref_id ts, plan)
