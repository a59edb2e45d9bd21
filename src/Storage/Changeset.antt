-- ===== src/Storage/Changeset.antt =====
-- The changesets of app/storage.py: `_load_rrsets`, `_apply_ops`, `_validate_zone_invariants`,
-- `_count_rrsets`. The nested dictionaries of RRsets are one list of RRsets with their name and type.
-- What `canonical_rdata` of app/canonical.py makes of a value, and the serial that stands in the JSON
-- text of an SOA record, are parameters; operations come with fields of the right JSON types.
pub mod Valid
use ab_bedd4c0e_tsig_bugfix.Prelude.{
  ℕ, ◌+◌, Bool, true, false, not, ◌&&◌, ◌||◌, Option, none, some, List, [], ◌∷◌, ◌++◌, ◌==◌,
  if◌then◌else◌, ltb, length,
}
use ab_bedd4c0e_tsig_bugfix.Errors.{
  validation_error, changeset_invalid, zone_invalid, serial_invalid, num, text, Result, ok, err,
  ◌>>=◌, ◌>>◌, raise_if,
}
use ab_bedd4c0e_tsig_bugfix.Text.{Text, Bytes, codes, text_eq, text_leb, lower, upper}
use ab_bedd4c0e_tsig_bugfix.Storage.Tables.{
  Database, RecordRow, select, delete, update, order_by, fetchone, found,
}
use ab_bedd4c0e_tsig_bugfix.Canonical.{api_error, canonical_name, check_ttl, rr_fits_message}

abbrev pub Entry : Type 0
Entry = Text × Bytes

pub record Rrset : Type 0 where
  pub name : Text
  pub rtype : Text
  pub ttl : ℕ
  pub entries : List Entry

abbrev pub is_rrset : Text → Text → Rrset → Bool
is_rrset name rtype s = text_eq s.name name && text_eq s.rtype rtype

abbrev pub rrset_of : List Rrset → Text → Text → Option Rrset
rrset_of rrsets name rtype = fetchone (select (is_rrset name rtype) rrsets)

-- `rrsets.setdefault(…).setdefault(…)[1].append(…)`: the time to live is the first record's.
abbrev pub add_row : List Rrset → RecordRow → List Rrset
add_row rrsets r =
    if found (select (is_rrset r.name r.rtype) rrsets)
    then update (is_rrset r.name r.rtype)
        (λ s. record s { entries = s.entries ++ (r.rdata, r.rdata_wire) ∷ [] }) rrsets
    else rrsets
      ++ record {
        name = r.name;
        rtype = r.rtype;
        ttl = r.ttl;
        entries = (r.rdata, r.rdata_wire) ∷ [];
      }
        ∷ []

unfoldable pub add_rows : List Rrset → List RecordRow → List Rrset
add_rows rrsets [] = rrsets
add_rows rrsets (r ∷ rs) = add_rows (add_row rrsets r) rs

abbrev pub version_of : Text → ℕ → RecordRow → Bool
version_of zone v r = text_eq r.zone zone && r.version_id == v

unfoldable pub load_rrsets : Database → Text → ℕ → List Rrset
unfolding add_rows
load_rrsets db zone v = add_rows [] (
    order_by (λ (a b : RecordRow). text_leb a.rdata b.rdata)
      (select (version_of zone v) db.records))

-- The set of changed names and types.
abbrev pub Changed : Type 0
Changed = List (Text × Text)

unfoldable pub is_changed : Text → Text → Changed → Bool
is_changed name rtype [] = false
is_changed name rtype ((n, t) ∷ cs) =
    let rest = is_changed name rtype cs in text_eq n name && text_eq t rtype || rest

abbrev pub mark : Text → Text → Changed → Changed
mark name rtype cs = if is_changed name rtype cs then cs else cs ++ (name, rtype) ∷ []

unfoldable pub entries_eq : List Entry → List Entry → Bool
entries_eq [] [] = true
entries_eq ((j, w) ∷ es) ((k, v) ∷ fs) = text_eq j k && text_eq w v && entries_eq es fs
entries_eq _ _ = false

abbrev same_rrset : Option Rrset → ℕ → List Entry → Bool
same_rrset none ttl entries = false
same_rrset (some s) ttl entries = ttl == s.ttl && entries_eq entries s.entries

abbrev pub put_rrset : Rrset → List Rrset → List Rrset
put_rrset s rrsets =
    if found (select (is_rrset s.name s.rtype) rrsets)
    then update (is_rrset s.name s.rtype) (λ _. s) rrsets
    else rrsets ++ s ∷ []

abbrev put_entries : Text → Text → ℕ → List Entry → List Rrset → List Rrset
put_entries name rtype ttl [] rrsets = delete (is_rrset name rtype) rrsets
put_entries name rtype ttl (e ∷ es) rrsets =
    put_rrset (record { name = name; rtype = rtype; ttl = ttl; entries = e ∷ es }) rrsets

abbrev seen_entry : Text → List Entry → Bool
seen_entry j [] = false
seen_entry j ((k, w) ∷ es) = let rest = seen_entry j es in text_eq k j || rest

abbrev supported : Text → Bool
supported t =
    text_eq t (codes "SOA")
    || text_eq t (codes "NS")
    || text_eq t (codes "A")
    || text_eq t (codes "AAAA")
    || text_eq t (codes "CNAME")
    || text_eq t (codes "TXT")
    || text_eq t (codes "MX")

pub record Op (V : Type 0) : Type 0 where
  pub action : Text
  pub name : Text
  pub rtype : Text
  pub ttl : ℕ
  pub records : List V

abbrev pub Draft : Type 0
Draft = List Rrset × Changed

module _ {V : Type 0} (canonical_rdata : Text → V → Text → Result Entry) where
  -- The loop over the records of a replacement.
  unfoldable pub read_entries : Text → Text → Text → List V → List Entry → Result (List Entry)
  read_entries zone name rtype [] entries = ok entries
  read_entries zone name rtype (val ∷ vals) entries = do
    (rj, rw) ← canonical_rdata rtype val zone
    rr_fits_message name rtype rw
    raise_if (seen_entry rj entries) (api_error changeset_invalid 400 [])
    read_entries zone name rtype vals (entries ++ (rj, rw) ∷ [])

  abbrev delete_op : Text → Text → Draft → Draft
  delete_op name rtype (rrsets, changed) =
      if found (select (is_rrset name rtype) rrsets) && not (is_changed name rtype changed)
      then (delete (is_rrset name rtype) rrsets, mark name rtype changed)
      else (rrsets, changed)

  abbrev replace_op : Text → Text → ℕ → List Entry → Draft → Draft
  replace_op name rtype ttl entries (rrsets, changed) = (
    put_entries name rtype ttl entries rrsets,
    if same_rrset (rrset_of rrsets name rtype) ttl entries
        then changed
        else mark name rtype changed,
  )

  unfoldable pub apply_op : Text → Op V → Draft → Result Draft
  unfolding is_changed entries_eq
  apply_op zone op draft = do
    name ← canonical_name op.name zone
    let rtype = upper op.rtype
    raise_if (not (supported rtype)) (api_error validation_error 400 [])
    if text_eq (lower op.action) (codes "delete")
        then ok (delete_op name rtype draft)
        else if text_eq (lower op.action) (codes "replace")
        then (do
          ttl ← check_ttl op.ttl
          entries ← read_entries zone name rtype op.records []
          ok (replace_op name rtype ttl entries draft))
        else err (api_error validation_error 400 [])

  unfoldable pub apply_each : Text → List (Op V) → Draft → Result Draft
  apply_each zone [] draft = ok draft
  apply_each zone (op ∷ ops) draft = do draft' ← apply_op zone op draft; apply_each zone ops draft'

  -- `_apply_ops`
  unfoldable pub apply_ops : Text → List (Op V) → Draft → Result Draft
  apply_ops zone [] draft = err (api_error changeset_invalid 400 [])
  apply_ops zone (op ∷ ops) draft = apply_each zone (op ∷ ops) draft

abbrev pub entries_of : Option Rrset → List Entry
entries_of none = []
entries_of (some s) = s.entries

abbrev pub the_soa : List Entry → Result Text
the_soa ((j, w) ∷ []) = ok j
the_soa _ = err (api_error zone_invalid 422 [])

abbrev pub is_cname : Rrset → Bool
is_cname s = text_eq s.rtype (codes "CNAME")

abbrev pub with_name : Text → Rrset → Bool
with_name name s = text_eq s.name name

-- The loop over the names; a name's turn is that of its CNAME RRset.
unfoldable pub check_cnames : List Rrset → List Rrset → Result (Unit {0})
check_cnames all [] = ok tt
check_cnames all (s ∷ ss) = do
  raise_if (is_cname s && ltb 1 (length (select (with_name s.name) all)))
      (api_error zone_invalid 422 (("name", text s.name) ∷ []))
  raise_if (is_cname s && ltb 1 (length s.entries)) (api_error zone_invalid 422 [])
  check_cnames all ss

-- `_validate_zone_invariants`
unfoldable pub validate_zone_invariants : (Text → ℕ) → Text → List Rrset → ℕ → Result (Unit {0})
unfolding check_cnames
validate_zone_invariants json_serial zone rrsets next_serial = do
  soa ← the_soa (entries_of (rrset_of rrsets zone (codes "SOA")))
  raise_if (not (json_serial soa == next_serial)) (
      api_error serial_invalid 422
        (("soaSerial", num (json_serial soa)) ∷ ("nextSerial", num next_serial) ∷ []))
  raise_if (ltb (length (entries_of (rrset_of rrsets zone (codes "NS")))) 1)
      (api_error zone_invalid 422 [])
  check_cnames rrsets rrsets

-- `sum(len(v[1]) …)`
unfoldable pub count_records : List Rrset → ℕ
count_records [] = 0
count_records (s ∷ ss) = length s.entries + count_records ss
