-- ===== src/Storage/Zones.antt =====
-- The zones of app/storage.py: `create_zone`, `list_zones`, `zone_metadata`, `get_soa`, and the reads
-- `get_request` and `list_keys`. The views keep the JSON texts of the rows where the code reads values
-- out of them.
pub mod Created
pub mod Rows
use ab_bedd4c0e_tsig_bugfix.Prelude.{
  ℕ, Bool, true, false, ◌&&◌, ◌||◌, Option, none, some, List, [], ◌∷◌, ◌++◌, ◌==◌, if◌then◌else◌,
  length, leb, map,
}
use ab_bedd4c0e_tsig_bugfix.Errors.{
  internal, zone_already_exists, request_not_found, text, Fault, api, integrity_error, Result, ok,
  err, ◌>>=◌, ◌>>◌, raise_if,
}
use ab_bedd4c0e_tsig_bugfix.Text.{Text, Bytes, codes, text_eq, text_leb}
use ab_bedd4c0e_tsig_bugfix.Canonical.{api_error, canonical_target}
use ab_bedd4c0e_tsig_bugfix.Storage.Tables.{
  Database, ZoneRow, VersionRow, RecordRow, KeyRow, KeyState, RequestRow, select, order_by,
  fetchone, found, get_zone_row,
}
use ab_bedd4c0e_tsig_bugfix.Storage.Publish.{insert_version, named, has_request}
use ab_bedd4c0e_tsig_bugfix.Storage.Changeset.{Entry}

abbrev pub soa_text : Text
soa_text = codes "SOA"

abbrev pub ns_text : Text
ns_text = codes "NS"

-- `"SELECT * FROM records WHERE zone=? AND version_id=? AND name=? AND rtype=?"`, at the apex
abbrev pub at_apex : Text → ℕ → Text → RecordRow → Bool
at_apex zone v rtype r =
    text_eq r.zone zone && r.version_id == v && text_eq r.name zone && text_eq r.rtype rtype

abbrev of_soa_row : Option RecordRow → Result RecordRow
of_soa_row none = err (api_error internal 400 [])
of_soa_row (some r) = ok r

unfoldable pub get_soa : Database → Text → ℕ → Result RecordRow
get_soa db zone v = of_soa_row (fetchone (select (at_apex zone v soa_text) db.records))

pub record Metadata : Type 0 where
  pub row : ZoneRow
  pub soa : Text
  pub ns : List Text

unfoldable pub zone_metadata : Database → Text → Result Metadata
unfolding get_soa
zone_metadata db zone = do
  z ← get_zone_row db zone
  soa ← get_soa db zone z.current_version
  ok (record {
    row = z;
    soa = soa.rdata;
    ns =
        map (λ (r : RecordRow). r.rdata)
          (order_by (λ (r s : RecordRow). text_leb r.rdata s.rdata)
            (select (at_apex zone z.current_version ns_text) db.records));
  })

-- `ORDER BY name`
unfoldable pub list_zones : Database → List ZoneRow
list_zones db = order_by (λ (y z : ZoneRow). text_leb y.name z.name) db.zones

abbrev of_request : Text → Option RequestRow → Result RequestRow
of_request request_id none =
    err (api_error request_not_found 404 (("requestId", text request_id) ∷ []))
of_request request_id (some r) = ok r

unfoldable pub get_request : Database → Text → Text → Result RequestRow
get_request db zone request_id = do
  z ← get_zone_row db zone
  of_request request_id (fetchone (select (has_request zone request_id) db.publish_requests))

-- What is shown of a key: all but its secret.
pub record KeyView : Type 0 where
  pub key_id : Text
  pub key_name : Text
  pub generation : ℕ
  pub state : KeyState
  pub created_at : ℕ
  pub expires_at : Option ℕ
  pub revoked_at : Option ℕ

abbrev pub view_of : KeyRow → KeyView
view_of k = record {
  key_id = k.key_id;
  key_name = k.key_name;
  generation = k.gen;
  state = k.state;
  created_at = k.created_at;
  expires_at = k.expires_at;
  revoked_at = k.revoked_at;
}

-- `WHERE zone=? ORDER BY gen`
unfoldable pub list_keys : Database → Text → Result (List KeyView)
list_keys db zone = do
  z ← get_zone_row db zone
  ok (
      map view_of (
        order_by (λ (j k : KeyRow). leb j.gen k.gen)
          (select (λ (k : KeyRow). text_eq k.zone zone) db.keys)))

-- `t in ns_seen`
unfoldable pub is_seen : Text → List Text → Bool
is_seen t [] = false
is_seen t (u ∷ us) = let rest = is_seen t us in text_eq u t || rest

abbrev pub apex_row : Text → Text → ℕ → Entry → RecordRow
apex_row zone rtype ttl (rj, rw) = record {
  zone = zone;
  version_id = 0;
  name = zone;
  rtype = rtype;
  ttl = ttl;
  rdata = rj;
  rdata_wire = rw;
}

abbrev pub first_zone : Text → ℕ → ℕ → ℕ → ℕ → ZoneRow
first_zone zone serial retain_versions count ts = record {
  name = zone;
  current_serial = serial;
  current_version = 0;
  retain_versions = retain_versions;
  record_count = count;
  rrset_count = 2;
  created_at = ts;
  updated_at = ts;
}

abbrev pub first_version : Text → ℕ → ℕ → VersionRow
first_version zone serial ts = record {
  zone = zone;
  version_id = 0;
  serial = serial;
  request_id = codes "__create__";
  created_at = ts;
}

-- INSERT INTO records, under PRIMARY KEY (zone, version_id, name, rtype, rdata)
abbrev pub same_record : RecordRow → RecordRow → Bool
same_record r s =
    text_eq s.zone r.zone
    && s.version_id == r.version_id
    && text_eq s.name r.name
    && text_eq s.rtype r.rtype
    && text_eq s.rdata r.rdata

unfoldable pub insert_records : List RecordRow → List RecordRow → Result (List RecordRow)
insert_records [] records = ok records
insert_records (r ∷ rs) records =
    if found (select (same_record r) records)
    then err integrity_error
    else insert_records rs (records ++ r ∷ [])

-- The transaction of `create_zone`, at the rows made before it.
unfoldable pub insert_zone : Database → Text → ℕ → ℕ → ℕ → List RecordRow → Result Database
unfolding insert_records
insert_zone db zone serial retain_versions ts rows = do
  raise_if (found (select (named zone) db.zones)) (api_error zone_already_exists 409 [])
  db2 ← insert_version (first_version zone serial ts) (record db {
    zones = db.zones ++ first_zone zone serial retain_versions (length rows) ts ∷ [];
  })
  records ← insert_records rows db2.records
  ok (record db2 { records = records })

-- The two `except` blocks of `create_zone`.
abbrev pub created_or : Database → Text → Result Database → Result Database
created_or db zone (err integrity_error) = err (
    if found (select (named zone) db.zones)
    then api_error zone_already_exists 409 []
    else api_error internal 500 [])
created_or db zone r = r

-- The canonical form of an NS value with a target is an argument of the section.
module _ (ns_rdata : Text → Text → Result Entry) where
  -- The loop over the name servers.
  unfoldable pub ns_rows : Text → List Text → List Text → Result (List RecordRow)
  unfolding is_seen
  ns_rows zone [] seen = ok []
  ns_rows zone (target ∷ targets) seen = do
    t ← canonical_target target zone
    if is_seen t seen then ns_rows zone targets seen else do
      entry ← ns_rdata t zone
      rest ← ns_rows zone targets (t ∷ seen)
      ok (apex_row zone ns_text 3600 entry ∷ rest)

-- The canonical form of an SOA value with a serial is an argument, and so is the time to live that
-- stands in the SOA value.
module _ {V : Type 0} (soa_rdata : V → ℕ → Text → Result Entry) (soa_ttl : V → Result ℕ)
    (ns_rdata : Text → Text → Result Entry) where
  -- `create_zone`: the database afterwards and the zone's metadata
  unfoldable pub create_zone :
      Database → Text → ℕ → V → List Text → ℕ → ℕ → Result (Database × Metadata)
  unfolding ns_rows insert_zone
  create_zone db zone serial soa ns_targets retain_versions ts = do
    entry ← soa_rdata soa serial zone
    ttl ← soa_ttl soa
    servers ← ns_rows ns_rdata zone ns_targets []
    db' ←
        created_or db zone (
          insert_zone db zone serial retain_versions ts
            (apex_row zone soa_text ttl entry ∷ servers))
    meta ← zone_metadata db' zone
    ok (db', meta)
