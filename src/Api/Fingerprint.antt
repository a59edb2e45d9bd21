-- ===== src/Api/Fingerprint.antt =====
-- `canonical_fingerprint` of app/api.py: the normal form of the operations of a publish request, which
-- is hashed, and the operations as `publish` takes them.
use ab_bedd4c0e_tsig_bugfix.Prelude.{
  ℕ, Bool, Option, none, some, List, [], ◌∷◌, ◌++◌, if◌then◌else◌, map,
}
use ab_bedd4c0e_tsig_bugfix.Errors.{Result, ok, err, ◌>>=◌}
use ab_bedd4c0e_tsig_bugfix.Text.{Text, Bytes, codes, text_eq, text_leb, lower, upper}
use ab_bedd4c0e_tsig_bugfix.Json.{
  ℤ, pos, negsuc, Json, whole, str, array, object, no_items, Fields, get_or, int_of, except_value,
  str_of, decimal, dump_text,
}
use ab_bedd4c0e_tsig_bugfix.Canonical.{canonical_name, check_ttl}
use ab_bedd4c0e_tsig_bugfix.Canonical.Rdata.{invalid}
use ab_bedd4c0e_tsig_bugfix.Storage.Tables.{order_by}
use ab_bedd4c0e_tsig_bugfix.Storage.Changeset.{Op}
use ab_bedd4c0e_tsig_bugfix.Api.Request.{of_list}

-- The time to live and the canonical JSON texts of a replacement's records.
pub record Replacement : Type 0 where
  pub ttl : ℕ
  pub records : List Text

-- An entry of `norm_ops`.
pub record NormOp : Type 0 where
  pub action : Text
  pub name : Text
  pub rtype : Text
  pub replacement : Option Replacement

-- `canonical_name` of a JSON value
abbrev name_of : Json → Text → Result Text
name_of (str raw) zone = canonical_name raw zone
name_of _ zone = err invalid

abbrev raw_name : Json → Text
raw_name (str raw) = raw
raw_name _ = []

abbrev ttl_range : ℤ → Result ℕ
ttl_range (pos n) = check_ttl n
ttl_range (negsuc n) = err invalid

-- `_check_ttl`
unfoldable pub ttl_of : Json → Result ℕ
ttl_of v = do z ← except_value (int_of v) (err invalid); ttl_range z

abbrev of_op : Json → Result Fields
of_op (object fs) = ok fs
of_op _ = err invalid

-- `key=lambda o: (o["name"], o["type"], o["action"])`
abbrev pub op_le : NormOp → NormOp → Bool
op_le a b =
    if text_eq a.name b.name
    then if text_eq a.rtype b.rtype then text_leb a.action b.action else text_leb a.rtype b.rtype
    else text_leb a.name b.name

abbrev join : List Text → Text
join [] = []
join (t ∷ []) = t
join (t ∷ u ∷ us) = t ++ b',' ∷ join (u ∷ us)

abbrev pair : Text → Text → Text
pair key v = dump_text key ++ b':' ∷ v

abbrev dump_object : List Text → Text
dump_object fields = b'{' ∷ join fields ++ b'}' ∷ []

abbrev dump_list : List Text → Text
dump_list vs = b'[' ∷ join vs ++ b']' ∷ []

-- An entry as JSON text with sorted keys; the records' own canonical texts stand in it.
unfoldable pub dump_op : NormOp → Text
dump_op o = elim o.replacement [
  | none ↦ dump_object (
      pair (codes "action") (dump_text o.action)
      ∷ pair (codes "name") (dump_text o.name)
      ∷ pair (codes "type") (dump_text o.rtype)
      ∷ [])
  | some r ↦ dump_object (
      pair (codes "action") (dump_text o.action)
      ∷ pair (codes "name") (dump_text o.name)
      ∷ pair (codes "records") (dump_list r.records)
      ∷ pair (codes "ttl") (decimal r.ttl)
      ∷ pair (codes "type") (dump_text o.rtype)
      ∷ [])
]

-- The payload: the normal form of the request's content.
unfoldable pub payload_of : ℕ → ℕ → List NormOp → Text
unfolding dump_op
payload_of base_serial next_serial ops = dump_object (
    pair (codes "baseSerial") (decimal base_serial)
    ∷ pair (codes "nextSerial") (decimal next_serial)
    ∷ pair (codes "ops") (dump_list (map dump_op (order_by op_le ops)))
    ∷ [])

module _ (repr : Json → Text) (canonical_rdata : Text → Json → Text → Result (Text × Bytes)) where
  unfoldable pub rdata_texts : Text → Text → List Json → Result (List Text)
  rdata_texts rtype zone [] = ok []
  rdata_texts rtype zone (v ∷ vs) = do
    (rj, rw) ← canonical_rdata rtype v zone
    rest ← rdata_texts rtype zone vs
    ok (rj ∷ rest)

  -- One operation: its entry, and what `_apply_ops` reads of it
  unfoldable pub norm_op : Text → Json → Result (NormOp × Op Json)
  unfolding ttl_of rdata_texts
  norm_op zone op = do
    fs ← of_op op
    let action = str_of repr (get_or (codes "action") (str []) fs)
    name ← name_of (get_or (codes "name") (str []) fs) zone
    let raw = raw_name (get_or (codes "name") (str []) fs)
    let rtype = str_of repr (get_or (codes "type") (str []) fs)
    if text_eq (lower action) (codes "replace")
        then (do
          ttl ← ttl_of (get_or (codes "ttl") (whole (pos 3600)) fs)
          vals ← of_list (get_or (codes "records") (array no_items) fs) invalid
          records ← rdata_texts (upper rtype) zone vals
          ok (
            record {
              action = lower action;
              name = name;
              rtype = upper rtype;
              replacement = some (record { ttl = ttl; records = records });
            },
            record { action = action; name = raw; rtype = rtype; ttl = ttl; records = vals },
          ))
        else ok (
          record { action = lower action; name = name; rtype = upper rtype; replacement = none },
          record { action = action; name = raw; rtype = rtype; ttl = 0; records = [] },
        )

  unfoldable pub norm_ops : Text → List Json → Result (List NormOp × List (Op Json))
  unfolding norm_op
  norm_ops zone [] = ok ([], [])
  norm_ops zone (op ∷ ops) = do
    (n, o) ← norm_op zone op
    (ns, os) ← norm_ops zone ops
    ok (n ∷ ns, o ∷ os)
