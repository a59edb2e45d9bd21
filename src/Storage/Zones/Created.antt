-- ===== src/Storage/Zones/Created.antt =====
-- What `create_zone` leaves in the tables.
use ab_bedd4c0e_tsig_bugfix.Prelude.{
  ℕ, ◌≡◌, ◌≢◌, refl, sym, ap, ◌∙◌, false, none, List, [], ◌∷◌, ◌++◌, length, Bool-cases, inl, inr,
}
use ab_bedd4c0e_tsig_bugfix.Errors.{
  integrity_error, Result, ok, err, >>=-eq-ok, raise_if->>-eq-ok, ok-inj,
}
use ab_bedd4c0e_tsig_bugfix.Text.{Text, text_eq}
use ab_bedd4c0e_tsig_bugfix.Text.Laws.{text_eq_refl}
use ab_bedd4c0e_tsig_bugfix.Storage.Tables.{
  Database, ZoneRow, VersionRow, RecordRow, select, fetchone, found, get_zone_row,
}
use ab_bedd4c0e_tsig_bugfix.Storage.Tables.Laws.{select-append, fetchone-append}
use ab_bedd4c0e_tsig_bugfix.Storage.Publish.{clashes, insert_version, named}
use ab_bedd4c0e_tsig_bugfix.Storage.Changeset.{Entry}
use ab_bedd4c0e_tsig_bugfix.Storage.Zones.{
  soa_text, ns_text, at_apex, Metadata, zone_metadata, get_soa, apex_row, first_zone, first_version,
  insert_records, insert_zone, created_or, ns_rows, create_zone,
}
use ab_bedd4c0e_tsig_bugfix.Storage.Zones.Rows.{
  ns_rows-AreApex, ns_rows-some, AreApex, insert_records-append, apex_row-at_apex, apex_row-other,
  AreApex-select, AreApex-select_other, none_of_zone,
}

-- The writes of the transaction.
abbrev pub written : Database → Text → ℕ → ℕ → ℕ → List RecordRow → Database
written db zone serial retain_versions ts rows = record db {
  zones = db.zones ++ first_zone zone serial retain_versions (length rows) ts ∷ [];
  versions = db.versions ++ first_version zone serial ts ∷ [];
  records = db.records ++ rows;
}

insert_version-eq :
    (v : VersionRow) (db db' : Database)
    → insert_version v db ≡ ok db'
    → db' ≡ record db { versions = db.versions ++ v ∷ [] }
insert_version-eq v db db' h = elim (Bool-cases (found (select (clashes v) db.versions))) [
  | inl e ↦ cc (rw e at h)
  | inr e ↦ cc (rw e at h)
]

pub insert_zone-written :
    (db : Database) (zone : Text) (serial retain_versions ts : ℕ) (rows : List RecordRow)
    (db' : Database)
    → insert_zone db zone serial retain_versions ts rows ≡ ok db'
    → (found (select (named zone) db.zones) ≡ false)
      × (db' ≡ written db zone serial retain_versions ts rows)
unfolding insert_zone
insert_zone-written db zone serial retain_versions ts rows db' h =
    let (e1, h1) = raise_if->>-eq-ok (found (select (named zone) db.zones)) _ _ h in
    let (db2, e2, h2) = >>=-eq-ok (insert_version (first_version zone serial ts) _) _ h1 in
    let (records, e3, h3) = >>=-eq-ok (insert_records rows db2.records) _ h2 in
    let v = insert_version-eq _ _ db2 e2 in
    let r = insert_records-append rows db2.records records e3 in
    let k : record db2 { records = records } ≡ db' = cc h3 in (e1, sym k ∙ (rw (r, v) refl))

pub created_or-ok :
    (db : Database) (zone : Text) (r : Result Database) (db' : Database)
    → created_or db zone r ≡ ok db'
    → r ≡ ok db'
created_or-ok db zone (ok d) db' h = h
created_or-ok db zone (err integrity_error) db' h = cc
created_or-ok db zone (err e) db' h = h

-- A zone as it is created: its row, its version 0, its SOA record and the records of its name servers
-- are new, and nothing else is changed; in version 0 the apex has that one SOA record and exactly the
-- name servers' records.
pub record IsCreated (db : Database) (zone : Text) (serial retain_versions ts : ℕ) (db' : Database)
    (meta : Metadata) : Type 0 where
  pub soa_row : RecordRow
  pub servers : List RecordRow
  pub was_absent : found (select (named zone) db.zones) ≡ false
  pub db_eq : db' ≡ written db zone serial retain_versions ts (soa_row ∷ servers)
  pub row_eq : meta.row ≡ first_zone zone serial retain_versions (length (soa_row ∷ servers)) ts
  pub one_soa : select (at_apex zone 0 soa_text) db'.records ≡ soa_row ∷ []
  pub all_servers : select (at_apex zone 0 ns_text) db'.records ≡ servers
  pub some_server : servers ≢ []

found-none : {A : Type 0} (rs : List A) → found rs ≡ false → fetchone rs ≡ none
found-none [] h = refl
found-none (r ∷ rs) h = cc

metadata-row :
    (db : Database) (zone : Text) (z : ZoneRow) (meta : Metadata)
    → get_zone_row db zone ≡ ok z
    → zone_metadata db zone ≡ ok meta
    → meta.row ≡ z
unfolding zone_metadata
metadata-row db zone z meta g h =
    let (z', e, h1) = >>=-eq-ok (get_zone_row db zone) _ h in
    let (soa, e2, h2) = >>=-eq-ok (get_soa db zone z'.current_version) _ h1 in
    let i = ap (λ (m : Metadata). m.row) (ok-inj h2) in sym i ∙ ok-inj (sym e ∙ g)

get_zone_row-written :
    (db : Database) (zone : Text) (serial retain_versions ts : ℕ) (rows : List RecordRow)
    → found (select (named zone) db.zones) ≡ false
    → get_zone_row (written db zone serial retain_versions ts rows) zone
      ≡ ok (first_zone zone serial retain_versions (length rows) ts)
unfolding get_zone_row
get_zone_row-written db zone serial retain_versions ts rows h =
    rw
      (fetchone-append (named zone) (first_zone zone serial retain_versions (length rows) ts)
        db.zones (found-none _ h) (text_eq_refl zone))
      refl

apex_selects :
    (zone : Text) (ttl : ℕ) (entry : Entry) (servers records : List RecordRow)
    → select (λ (r : RecordRow). text_eq r.zone zone) records ≡ []
    → AreApex zone ns_text servers
    → (select (at_apex zone 0 soa_text) (records ++ apex_row zone soa_text ttl entry ∷ servers)
        ≡ apex_row zone soa_text ttl entry ∷ [])
      × (select (at_apex zone 0 ns_text) (records ++ apex_row zone soa_text ttl entry ∷ servers)
          ≡ servers)
unfolding select text_eq
apex_selects zone ttl entry servers records none_before h =
    let soa = apex_row zone soa_text ttl entry in
    (
      rw
          (
            select-append (at_apex zone 0 soa_text) records (soa ∷ servers),
            none_of_zone zone soa_text records none_before,
            apex_row-at_apex zone soa_text ttl entry,
            AreApex-select_other zone ns_text soa_text servers refl h,
          )
          refl,
      rw
          (
            select-append (at_apex zone 0 ns_text) records (soa ∷ servers),
            none_of_zone zone ns_text records none_before,
            apex_row-other zone soa_text ns_text ttl entry refl,
            AreApex-select zone ns_text servers h,
          )
          refl,
    )

module _ {V : Type 0} (soa_rdata : V → ℕ → Text → Result Entry) (soa_ttl : V → Result ℕ)
    (ns_rdata : Text → Text → Result Entry) where
  -- What is written, whatever was there before.
  pub create_zone-written :
      (db : Database) (zone : Text) (serial : ℕ) (soa : V) (targets : List Text)
      (retain_versions ts : ℕ) (db' : Database) (meta : Metadata)
      → create_zone soa_rdata soa_ttl ns_rdata db zone serial soa targets retain_versions ts
        ≡ ok (db', meta)
      → (rows : List RecordRow) × (found (select (named zone) db.zones) ≡ false)
        × (db' ≡ written db zone serial retain_versions ts rows)
  unfolding create_zone
  create_zone-written db zone serial soa targets retain_versions ts db' meta h =
      let (entry, e1, h1) = >>=-eq-ok (soa_rdata soa serial zone) _ h in
      let (ttl, e2, h2) = >>=-eq-ok (soa_ttl soa) _ h1 in
      let (servers, e3, h3) = >>=-eq-ok (ns_rows ns_rdata zone targets []) _ h2 in
      let rows = apex_row zone soa_text ttl entry ∷ servers in
      let (db2, e4, h4) =
        >>=-eq-ok (created_or db zone (insert_zone db zone serial retain_versions ts rows)) _ h3 in
      let (meta2, e5, h5) = >>=-eq-ok (zone_metadata db2 zone) _ h4 in
      let (absent, w) =
        insert_zone-written db zone serial retain_versions ts rows db2
          (created_or-ok db zone _ db2 e4) in
      (rows, absent, sym (ap (λ (p : Database × Metadata). p.0) (ok-inj h5)) ∙ w)

  -- A zone is created only if there is none with its name. Where there are no records under its name
  -- and a name server is given, the zone then is at version 0 with its serial, its version and its
  -- records are new and nothing else is changed, and its apex has one SOA record and, as the only NS
  -- records, at least one.
  pub create_zone-IsCreated :
      (db : Database) (zone : Text) (serial : ℕ) (soa : V) (target : Text) (targets : List Text)
      (retain_versions ts : ℕ) (db' : Database) (meta : Metadata)
      → select (λ (r : RecordRow). text_eq r.zone zone) db.records ≡ []
      → create_zone soa_rdata soa_ttl ns_rdata db zone serial soa
          (target ∷ targets)
          retain_versions
          ts
        ≡ ok (db', meta)
      → IsCreated db zone serial retain_versions ts db' meta
  unfolding create_zone
  create_zone-IsCreated db zone serial soa target targets retain_versions ts db' meta none_before
        h =
      let (entry, e1, h1) = >>=-eq-ok (soa_rdata soa serial zone) _ h in
      let (ttl, e2, h2) = >>=-eq-ok (soa_ttl soa) _ h1 in
      let (servers, e3, h3) = >>=-eq-ok (ns_rows ns_rdata zone (target ∷ targets) []) _ h2 in
      let soa_row = apex_row zone soa_text ttl entry in
      let (db2, e4, h4) =
        >>=-eq-ok
          (created_or db zone (insert_zone db zone serial retain_versions ts (soa_row ∷ servers))) _
          h3 in
      let (meta2, e5, h5) = >>=-eq-ok (zone_metadata db2 zone) _ h4 in
      let (absent, w) =
        insert_zone-written db zone serial retain_versions ts (soa_row ∷ servers) db2
          (created_or-ok db zone _ db2 e4) in
      let same_db = ap (λ (p : Database × Metadata). p.0) (ok-inj h5) in
      let same_meta = ap (λ (p : Database × Metadata). p.1) (ok-inj h5) in
      let (s1, s2) =
        apex_selects zone ttl entry servers db.records none_before
          (ns_rows-AreApex ns_rdata zone (target ∷ targets) [] servers e3) in
      let eq = sym same_db ∙ w in
      record {
        soa_row = soa_row;
        servers = servers;
        was_absent = absent;
        db_eq = eq;
        row_eq =
            sym (ap (λ (m : Metadata). m.row) same_meta)
            ∙ metadata-row db2 zone _ meta2
                (ap (λ d. get_zone_row d zone) w
                  ∙ get_zone_row-written db zone serial retain_versions ts (soa_row ∷ servers)
                      absent)
                e5;
        one_soa = ap (λ (d : Database). select (at_apex zone 0 soa_text) d.records) eq ∙ s1;
        all_servers = ap (λ (d : Database). select (at_apex zone 0 ns_text) d.records) eq ∙ s2;
        some_server = ns_rows-some ns_rdata zone target targets servers e3;
      }
