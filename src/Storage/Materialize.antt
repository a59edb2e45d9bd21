-- ===== src/Storage/Materialize.antt =====
-- `_materialize` of app/storage.py: the snapshot and the delta of a new version. The primary keys of
-- the records and the changes are not checked: the new version has no rows before.
pub mod Rows
use ab_bedd4c0e_tsig_bugfix.Prelude.{
  ℕ, ◌+◌, Bool, true, false, ◌&&◌, Option, none, some, List, [], ◌∷◌, ◌++◌, if◌then◌else◌, length,
  map,
}
use ab_bedd4c0e_tsig_bugfix.Text.{Text, codes, text_eq, text_leb}
use ab_bedd4c0e_tsig_bugfix.Storage.Tables.{
  Database, RecordRow, ChangeRow, ChangeOp, del, add, select, delete, order_by,
}
use ab_bedd4c0e_tsig_bugfix.Storage.Changeset.{Entry, Rrset, Changed, version_of, rrset_of}

abbrev pub move : ℕ → RecordRow → RecordRow
move v r = record r { version_id = v }

abbrev pub key_of : Text → ℕ → Text → Text → RecordRow → Bool
key_of zone v name rtype r = version_of zone v r && text_eq r.name name && text_eq r.rtype rtype

abbrev pub row_of : Text → ℕ → Text → Text → ℕ → Entry → RecordRow
row_of zone v name rtype ttl (rj, rw) = record {
  zone = zone;
  version_id = v;
  name = name;
  rtype = rtype;
  ttl = ttl;
  rdata = rj;
  rdata_wire = rw;
}

abbrev pub new_rows : Text → ℕ → Text → Text → Option Rrset → List RecordRow
new_rows zone v name rtype none = []
new_rows zone v name rtype (some s) = map (row_of zone v name rtype s.ttl) s.entries

-- The loop over the changed names and types.
unfoldable pub rewrite_changed :
    Text → ℕ → List Rrset → List (Text × Text) → List RecordRow → List RecordRow
rewrite_changed zone v rrsets [] records = records
rewrite_changed zone v rrsets ((name, rtype) ∷ keys) records = rewrite_changed zone v rrsets keys (
    delete (key_of zone v name rtype) records
    ++ new_rows zone v name rtype (rrset_of rrsets name rtype))

-- `apex_soa_first`
abbrev is_apex : Text → Text × Text → Bool
is_apex zone (name, rtype) = text_eq name zone && text_eq rtype (codes "SOA")

abbrev key_le : Text → Text × Text → Text × Text → Bool
key_le zone (m, s) (n, t) =
    if is_apex zone (m, s)
    then true
    else if is_apex zone (n, t)
    then false
    else if text_eq m n
    then text_leb s t
    else text_leb m n

abbrev rdata_le : RecordRow → RecordRow → Bool
rdata_le a b = text_leb a.rdata b.rdata

abbrev pub deletes : Database → Text → ℕ → List (Text × Text) → List RecordRow
deletes db zone v [] = []
deletes db zone v ((name, rtype) ∷ keys) =
    order_by rdata_le (select (key_of zone v name rtype) db.records) ++ deletes db zone v keys

abbrev pub adds : Text → ℕ → List Rrset → List (Text × Text) → List RecordRow
adds zone v rrsets [] = []
adds zone v rrsets ((name, rtype) ∷ keys) =
    order_by rdata_le (new_rows zone v name rtype (rrset_of rrsets name rtype))
    ++ adds zone v rrsets keys

abbrev change_of : Text → ℕ → ℕ → ChangeOp → RecordRow → ChangeRow
change_of zone v seq op r = record {
  zone = zone;
  version_id = v;
  seq = seq;
  op = op;
  name = r.name;
  rtype = r.rtype;
  ttl = r.ttl;
  rdata = r.rdata;
  rdata_wire = r.rdata_wire;
}

-- The rows of one operation, numbered from `seq`.
abbrev pub numbered : Text → ℕ → ℕ → ChangeOp → List RecordRow → List ChangeRow
numbered zone v seq op [] = []
numbered zone v seq op (r ∷ rs) = change_of zone v seq op r ∷ numbered zone v (seq + 1) op rs

unfoldable pub materialize : Database → Text → ℕ → ℕ → List Rrset → Changed → Database
unfolding rewrite_changed
materialize db zone old_version new_version rrsets changed =
    let copied =
      db.records ++ map (move new_version) (select (version_of zone old_version) db.records) in
    let keys = order_by (key_le zone) changed in
    let dels = deletes db zone old_version keys in
    let news = adds zone new_version rrsets keys in
    record db {
      records = rewrite_changed zone new_version rrsets changed copied;
      changes =
          db.changes
          ++ numbered zone new_version 1 del dels
          ++ numbered zone new_version (1 + length dels) add news;
    }
