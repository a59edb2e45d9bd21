-- ===== src/Canonical/Rdata/Again.antt =====
-- The canonical dictionary of record data as a value, and its parts read again.
use ab_bedd4c0e_tsig_bugfix.Prelude.{ℕ, ◌≡◌, true, leb, Bool-cases, inl, inr}
use ab_bedd4c0e_tsig_bugfix.Errors.{Fault, ok, err, >>=-eq-ok}
use ab_bedd4c0e_tsig_bugfix.Text.{Text, codes}
use ab_bedd4c0e_tsig_bugfix.Json.{
  ℤ, pos, negsuc, Json, null, boolean, whole, real, str, array, object, Fields, no_fields, field,
  int_of, except_value,
}
use ab_bedd4c0e_tsig_bugfix.Wire.Rdata.{
  Rdata, a_data, aaaa_data, ns_data, cname_data, mx_data, txt_data, soa_data,
}
use ab_bedd4c0e_tsig_bugfix.Canonical.{canonical_target, is_absolute}
use ab_bedd4c0e_tsig_bugfix.Canonical.Rdata.{invalid, in_u32, u32_of, target_of}
use ab_bedd4c0e_tsig_bugfix.Canonical.Rdata.Targets.{canonical_target_again}

-- The canonical dictionary as a JSON value.
abbrev pub fields_of : Rdata → Fields
fields_of (a_data address) = field (codes "address") (str address) no_fields
fields_of (aaaa_data address) = field (codes "address") (str address) no_fields
fields_of (ns_data target) = field (codes "target") (str target) no_fields
fields_of (cname_data target) = field (codes "target") (str target) no_fields
fields_of (txt_data text) = field (codes "text") (str text) no_fields
fields_of (mx_data preference exchange) =
    field (codes "preference") (whole (pos preference))
      (field (codes "exchange") (str exchange) no_fields)
fields_of (soa_data s) = field (codes "mname") (str s.mname) (
    field (codes "rname") (str s.rname) (
      field (codes "serial") (whole (pos s.serial)) (
        field (codes "refresh") (whole (pos s.refresh)) (
          field (codes "retry") (whole (pos s.retry)) (
            field (codes "expire") (whole (pos s.expire))
              (field (codes "minimum") (whole (pos s.minimum)) no_fields))))))

pub target_of_again :
    (v : Json) (zone t : Text)
    → is_absolute zone ≡ true
    → target_of v zone ≡ ok t
    → canonical_target t zone ≡ ok t
unfolding target_of
target_of_again (str raw) zone t a h = canonical_target_again raw zone zone t a h
target_of_again null zone t a h = cc
target_of_again (boolean b) zone t a h = cc
target_of_again (whole z) zone t a h = cc
target_of_again (real f) zone t a h = cc
target_of_again (array js) zone t a h = cc
target_of_again (object fs) zone t a h = cc

pub in_u32_again : (bad : Fault) (z : ℤ) (n : ℕ) → in_u32 bad z ≡ ok n → in_u32 bad (pos n) ≡ ok n
in_u32_again bad (pos m) n h = elim (Bool-cases (leb m 0xFFFFFFFF)) [
  | inl e ↦ let same : m ≡ n = cc (rw e at h) in rw same at h
  | inr e ↦ cc (rw e at h)
]
in_u32_again bad (negsuc m) n h = cc

pub u32_of_again :
    (bad : Fault) (v : Json) (n : ℕ) → u32_of bad v ≡ ok n → in_u32 bad (pos n) ≡ ok n
unfolding u32_of
u32_of_again bad v n h =
    let (z, e, h1) = >>=-eq-ok (except_value (int_of v) (err invalid)) _ h in
    in_u32_again bad z n h1
