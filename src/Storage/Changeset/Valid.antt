-- ===== src/Storage/Changeset/Valid.antt =====
-- What `_validate_zone_invariants` of app/storage.py lets through.
use ab_bedd4c0e_tsig_bugfix.Prelude.{
  ℕ, ◌≤◌, ◌<◌, ◌≡◌, refl, Bool, true, false, not, ◌&&◌, List, [], ◌∷◌, ◌==◌, arith, ltb, length,
}
use ab_bedd4c0e_tsig_bugfix.Errors.{ok, >>=-eq-ok, raise_if->>-eq-ok, ok-inj}
use ab_bedd4c0e_tsig_bugfix.Text.{Text, codes}
use ab_bedd4c0e_tsig_bugfix.Storage.Tables.{select}
use ab_bedd4c0e_tsig_bugfix.Storage.Tables.Laws.{IsIn, here, there}
use ab_bedd4c0e_tsig_bugfix.Storage.Changeset.{
  Entry, Rrset, rrset_of, entries_of, the_soa, is_cname, with_name, check_cnames,
  validate_zone_invariants,
}

-- The RRsets of a zone at a serial: one SOA record, with the serial, at the apex; an NS record there;
-- and a CNAME record stands alone at its name.
pub record IsValidZone (json_serial : Text → ℕ) (zone : Text) (rrsets : List Rrset) (serial : ℕ)
    : Type 0 where
  pub soa : Entry
  pub one_soa : entries_of (rrset_of rrsets zone (codes "SOA")) ≡ soa ∷ []
  pub soa_serial : json_serial soa.0 ≡ serial
  pub has_ns : 0 < length (entries_of (rrset_of rrsets zone (codes "NS")))
  pub lone_cname :
      (s : Rrset)
      → IsIn s rrsets
      → is_cname s ≡ true
      → (length (select (with_name s.name) rrsets) ≤ 1) × (length s.entries ≤ 1)

the_soa-inv :
    (es : List Entry) (j : Text) → the_soa es ≡ ok j → (e : Entry) × (es ≡ e ∷ []) × (e.0 ≡ j)
the_soa-inv [] j h = cc
the_soa-inv ((k, w) ∷ []) j h = ((k, w), refl, ok-inj h)
the_soa-inv ((k, w) ∷ e ∷ es) j h = cc

at_most_one : (b : Bool) (n : ℕ) → (b && ltb 1 n) ≡ false → b ≡ true → n ≤ 1
at_most_one b n h e = ground arith

check_cnames-lone :
    (all ss : List Rrset)
    → check_cnames all ss ≡ ok tt
    → (s : Rrset) → IsIn s ss
    → is_cname s ≡ true
    → (length (select (with_name s.name) all) ≤ 1) × (length s.entries ≤ 1)
unfolding check_cnames
check_cnames-lone all [] h s m e = elim m [ ]
check_cnames-lone all (t ∷ ss) h s m e =
    let (e1, h1) =
      raise_if->>-eq-ok (is_cname t && ltb 1 (length (select (with_name t.name) all))) _ _ h in
    let (e2, h2) = raise_if->>-eq-ok (is_cname t && ltb 1 (length t.entries)) _ _ h1 in
    elim m [
      | here i ↦
          rw i
            (at_most_one (is_cname t) _ e1 (rw i at e), at_most_one (is_cname t) _ e2 (rw i at e))
      | there k ↦ check_cnames-lone all ss h2 s k e
    ]

pub validate_zone_invariants-IsValidZone :
    (json_serial : Text → ℕ) (zone : Text) (rrsets : List Rrset) (serial : ℕ)
    → validate_zone_invariants json_serial zone rrsets serial ≡ ok tt
    → IsValidZone json_serial zone rrsets serial
unfolding validate_zone_invariants
validate_zone_invariants-IsValidZone json_serial zone rrsets serial h =
    let (j, e1, h1) = >>=-eq-ok (the_soa (entries_of (rrset_of rrsets zone (codes "SOA")))) _ h in
    let (e2, h2) = raise_if->>-eq-ok (not (json_serial j == serial)) _ _ h1 in
    let (e3, h3) =
      raise_if->>-eq-ok (ltb (length (entries_of (rrset_of rrsets zone (codes "NS")))) 1) _ _ h2 in
    let serial_eq : json_serial j ≡ serial = ground (arith, e2) in
    let (soa, one, same) = the_soa-inv _ j e1 in
    record {
      soa = soa;
      one_soa = one;
      soa_serial = rw same serial_eq;
      has_ns = ground (arith, e3);
      lone_cname = check_cnames-lone rrsets rrsets h3;
    }
