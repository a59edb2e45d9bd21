-- ===== src/Canonical/Rdata/Stable.antt =====
-- Canonical record data, given again as a value, have the same canonical form and the same wire form.
use ab_bedd4c0e_tsig_bugfix.Prelude.{
  ◌≡◌, refl, sym, ap, true, not, Option, some, [], ltb, leb, length, Bool-cases, Option-cases, inl,
  inr,
}
use ab_bedd4c0e_tsig_bugfix.Errors.{
  limit_exceeded, Fault, wire_error, raise_if, ◌>>◌, Result, ok, err, ◌>>=◌, >>=-eq-ok,
  raise_if->>-eq-ok, ok-inj,
}
use ab_bedd4c0e_tsig_bugfix.Text.{Text, Bytes, codes, text_eq}
use ab_bedd4c0e_tsig_bugfix.Json.{
  ℤ, pos, negsuc, Json, null, boolean, whole, real, str, array, object, Fields, get, get_or,
  get_or_null, int_of, except_value, str_of,
}
use ab_bedd4c0e_tsig_bugfix.Wire.Rdata.{
  Rdata, aaaa_data, ns_data, cname_data, mx_data, soa_data, Soa, utf8, encode_rdata,
}
use ab_bedd4c0e_tsig_bugfix.Canonical.{api_error, canonical_target, is_absolute}
use ab_bedd4c0e_tsig_bugfix.Canonical.Rdata.{
  invalid, not_a_serial, max_rdata_len, in_u32, u32_of, is_ipv4, target_of, of_object,
  except_wire_error, a_of, aaaa_of, txt_of, mx_of, dump, field_text, soa_of_fields, canon_of,
  canon_and_wire, canonical_rdata,
}
use ab_bedd4c0e_tsig_bugfix.Canonical.Rdata.Again.{fields_of, target_of_again, u32_of_again}

module _ (repr : Json → Text) (compressed : Text → Option Text) (zone : Text)
    (absolute : is_absolute zone ≡ true)
    (same_address : (t u : Text) → compressed t ≡ some u → compressed u ≡ some u) where
  a_again :
      (address : Text) (c : Rdata)
      → a_of address ≡ ok c
      → a_of (field_text repr (fields_of c) (codes "address")) ≡ ok c
  unfolding get text_eq str_of
  a_again address c h =
      let (e, h1) = raise_if->>-eq-ok (not (is_ipv4 address)) _ _ h in
      let same = ok-inj h1 in rw (sym same) (rw e refl)

  aaaa_again :
      (address : Text) (c : Rdata)
      → aaaa_of (compressed address) ≡ ok c
      → aaaa_of (compressed (field_text repr (fields_of c) (codes "address"))) ≡ ok c
  unfolding get text_eq str_of
  aaaa_again address c h = elim (Option-cases (compressed address)) [
    | inl e ↦ cc (rw e at h)
    | inr (u, e) ↦
        let same : aaaa_data u ≡ c = ok-inj (rw e at h) in
        rw (sym same) (rw (same_address address u e) refl)
  ]

  ns_again :
      (v : Json) (c : Rdata)
      → (do t ← target_of v zone; ok (ns_data t)) ≡ ok c
      → (do t ← target_of (get_or (codes "target") (str []) (fields_of c)) zone; ok (ns_data t))
        ≡ ok c
  unfolding get text_eq target_of
  ns_again v c h =
      let (t, e, h1) = >>=-eq-ok (target_of v zone) _ h in
      let same = ok-inj h1 in rw (sym same) (rw (target_of_again v zone t absolute e) refl)

  cname_again :
      (v : Json) (c : Rdata)
      → (do t ← target_of v zone; ok (cname_data t)) ≡ ok c
      → (do t ← target_of (get_or (codes "target") (str []) (fields_of c)) zone; ok (cname_data t))
        ≡ ok c
  unfolding get text_eq target_of
  cname_again v c h =
      let (t, e, h1) = >>=-eq-ok (target_of v zone) _ h in
      let same = ok-inj h1 in rw (sym same) (rw (target_of_again v zone t absolute e) refl)

  abbrev mx_of_fields : Fields → Result Rdata
  mx_of_fields fs = do
    exchange ← target_of (get_or (codes "exchange") (str []) fs) zone
    pref ← except_value (int_of (get_or_null (codes "preference") fs)) (err invalid)
    mx_of exchange pref

  mx_value_again :
      (exchange : Text) (z : ℤ) (c : Rdata)
      → canonical_target exchange zone ≡ ok exchange
      → mx_of exchange z ≡ ok c
      → mx_of_fields (fields_of c) ≡ ok c
  unfolding get text_eq target_of int_of
  mx_value_again exchange (pos n) c t h = elim (Bool-cases (leb n 0xFFFF)) [
    | inl e ↦
        let same : mx_data n exchange ≡ c = ok-inj (rw e at h) in rw (sym same) (rw (t, e) refl)
    | inr e ↦ cc (rw e at h)
  ]
  mx_value_again exchange (negsuc n) c t h = cc

  mx_again : (fs : Fields) (c : Rdata) → mx_of_fields fs ≡ ok c → mx_of_fields (fields_of c) ≡ ok c
  mx_again fs c h =
      let v = get_or (codes "exchange") (str []) fs in
      let (exchange, e, h1) = >>=-eq-ok (target_of v zone) _ h in
      let (z, e2, h2) =
        >>=-eq-ok (except_value (int_of (get_or_null (codes "preference") fs)) (err invalid)) _
          h1 in
      mx_value_again exchange z c (target_of_again v zone exchange absolute e) h2

  txt_again :
      (v : Json) (c : Rdata)
      → txt_of v ≡ ok c
      → txt_of (get_or (codes "text") (str []) (fields_of c)) ≡ ok c
  unfolding get text_eq
  txt_again (str text) c h =
      let (encoded, e, h1) = >>=-eq-ok (utf8 text) _ h in
      let (e2, h2) = raise_if->>-eq-ok (ltb max_rdata_len (length encoded)) _ _ h1 in
      let same = ok-inj h2 in rw (sym same) (rw (e, e2) refl)
  txt_again null c h = cc
  txt_again (boolean b) c h = cc
  txt_again (whole z) c h = cc
  txt_again (real f) c h = cc
  txt_again (array js) c h = cc
  txt_again (object fs) c h = cc

  soa_read_again :
      (s : Soa)
      → canonical_target s.mname zone ≡ ok s.mname
      → canonical_target s.rname zone ≡ ok s.rname
      → in_u32 not_a_serial (pos s.serial) ≡ ok s.serial
      → in_u32 invalid (pos s.refresh) ≡ ok s.refresh
      → in_u32 invalid (pos s.retry) ≡ ok s.retry
      → in_u32 invalid (pos s.expire) ≡ ok s.expire
      → in_u32 invalid (pos s.minimum) ≡ ok s.minimum
      → soa_of_fields (fields_of (soa_data s)) zone ≡ ok (soa_data s)
  unfolding get text_eq target_of u32_of int_of
  soa_read_again s e1 e2 e3 e4 e5 e6 e7 = rw (e1, e2, e3, e4, e5, e6, e7) refl

  soa_again :
      (fs : Fields) (c : Rdata)
      → soa_of_fields fs zone ≡ ok c
      → soa_of_fields (fields_of c) zone ≡ ok c
  soa_again fs c h =
      let (m, e1, h1) = >>=-eq-ok (target_of (get_or (codes "mname") (str []) fs) zone) _ h in
      let (r, e2, h2) = >>=-eq-ok (target_of (get_or (codes "rname") (str []) fs) zone) _ h1 in
      let (n1, e3, h3) = >>=-eq-ok (u32_of not_a_serial (get_or_null (codes "serial") fs)) _ h2 in
      let (n2, e4, h4) = >>=-eq-ok (u32_of invalid (get_or_null (codes "refresh") fs)) _ h3 in
      let (n3, e5, h5) = >>=-eq-ok (u32_of invalid (get_or_null (codes "retry") fs)) _ h4 in
      let (n4, e6, h6) = >>=-eq-ok (u32_of invalid (get_or_null (codes "expire") fs)) _ h5 in
      let (n5, e7, h7) = >>=-eq-ok (u32_of invalid (get_or_null (codes "minimum") fs)) _ h6 in
      ended c
        (record {
          mname = m;
          rname = r;
          serial = n1;
          refresh = n2;
          retry = n3;
          expire = n4;
          minimum = n5;
        })
        (ok-inj h7) (target_of_again _ zone m absolute e1) (target_of_again _ zone r absolute e2)
        (u32_of_again not_a_serial _ n1 e3) (u32_of_again invalid _ n2 e4)
        (u32_of_again invalid _ n3 e5) (u32_of_again invalid _ n4 e6) (u32_of_again invalid _ n5 e7)
    where
      ended :
          (c : Rdata) (s : Soa)
          → soa_data s ≡ c
          → canonical_target s.mname zone ≡ ok s.mname
          → canonical_target s.rname zone ≡ ok s.rname
          → in_u32 not_a_serial (pos s.serial) ≡ ok s.serial
          → in_u32 invalid (pos s.refresh) ≡ ok s.refresh
          → in_u32 invalid (pos s.retry) ≡ ok s.retry
          → in_u32 invalid (pos s.expire) ≡ ok s.expire
          → in_u32 invalid (pos s.minimum) ≡ ok s.minimum
          → soa_of_fields (fields_of c) zone ≡ ok c
      ended c s same e1 e2 e3 e4 e5 e6 e7 = rw (sym same) (soa_read_again s e1 e2 e3 e4 e5 e6 e7)

  module _ (packed : Text → Result Bytes) where
    canon_of_again :
        (rtype : Text) (fs : Fields) (c : Rdata)
        → canon_of repr compressed packed rtype fs zone ≡ ok c
        → canon_of repr compressed packed rtype (fields_of c) zone ≡ ok c
    unfolding canon_of
    canon_of_again rtype fs c h = elim (Bool-cases (text_eq rtype (codes "A"))) [
      | inl e ↦ rw e (a_again (field_text repr fs (codes "address")) c (rw e at h))
      | inr e1 ↦ elim (Bool-cases (text_eq rtype (codes "AAAA"))) [
        | inl e ↦ rw (e1, e) (aaaa_again (field_text repr fs (codes "address")) c (rw (e1, e) at h))
        | inr e2 ↦ elim (Bool-cases (text_eq rtype (codes "NS"))) [
          | inl e ↦
              rw (e1, e2, e)
                (ns_again (get_or (codes "target") (str []) fs) c (rw (e1, e2, e) at h))
          | inr e3 ↦ elim (Bool-cases (text_eq rtype (codes "CNAME"))) [
            | inl e ↦
                rw (e1, e2, e3, e)
                  (cname_again (get_or (codes "target") (str []) fs) c (rw (e1, e2, e3, e) at h))
            | inr e4 ↦ elim (Bool-cases (text_eq rtype (codes "MX"))) [
              | inl e ↦ rw (e1, e2, e3, e4, e) (mx_again fs c (rw (e1, e2, e3, e4, e) at h))
              | inr e5 ↦ elim (Bool-cases (text_eq rtype (codes "TXT"))) [
                | inl e ↦
                    rw (e1, e2, e3, e4, e5, e)
                      (txt_again (get_or (codes "text") (str []) fs) c
                        (rw (e1, e2, e3, e4, e5, e) at h))
                | inr e6 ↦ elim (Bool-cases (text_eq rtype (codes "SOA"))) [
                  | inl e ↦
                      rw (e1, e2, e3, e4, e5, e6, e)
                        (soa_again fs c (rw (e1, e2, e3, e4, e5, e6, e) at h))
                  | inr e7 ↦ cc (rw (e1, e2, e3, e4, e5, e6, e7) at h)
                ]
              ]
            ]
          ]
        ]
      ]
    ]

    except_wire_error-ok {ℓ} :
        {A : Type ℓ} (r : Result A) (e : Fault) (a : A) → except_wire_error r e ≡ ok a → r ≡ ok a
    except_wire_error-ok (ok b) e a h = h
    except_wire_error-ok (err wire_error) e a h = cc
    except_wire_error-ok (err f) e a h = h

    abbrev both : Text → Fields → Result (Rdata × Bytes)
    both rtype fs = canon_and_wire repr compressed packed rtype fs zone

    both_again :
        (rtype : Text) (fs : Fields) (c : Rdata) (wire : Bytes)
        → both rtype fs ≡ ok (c, wire)
        → both rtype (fields_of c) ≡ ok (c, wire)
    both_again rtype fs c wire h =
        let (d, e, h1) = >>=-eq-ok (canon_of repr compressed packed rtype fs zone) _ h in
        let (w, f, h2) = >>=-eq-ok (encode_rdata packed d) _ h1 in
        by_parts d w (ok-inj h2) (canon_of_again rtype fs d e) f
      where
        by_parts :
            (d : Rdata) (w : Bytes)
            → ◌≡◌ {A = Rdata × Bytes} (d, w) (c, wire)
            → canon_of repr compressed packed rtype (fields_of d) zone ≡ ok d
            → encode_rdata packed d ≡ ok w
            → both rtype (fields_of c) ≡ ok (c, wire)
        by_parts d w i e f =
            let j : d ≡ c = ap (λ (p : Rdata × Bytes). p.0) i in
            let k : w ≡ wire = ap (λ (p : Rdata × Bytes). p.1) i in
            rw (sym j, sym k) (rw (e, f) refl)

    abbrev limited : Rdata → Bytes → Result (Text × Bytes)
    limited c wire =
        raise_if (ltb max_rdata_len (length wire)) (api_error limit_exceeded 413 [])
        >> ok (dump c, wire)

    -- The canonical form of a value of whatever type, given as a value in its turn, is accepted with
    -- the same JSON text and the same wire form, in a zone whose name is absolute, where the short
    -- form of an IPv6 address is its own short form.
    pub canonical_rdata_again :
        (rtype : Text) (value : Json) (rj : Text) (rw' : Bytes)
        → canonical_rdata repr compressed packed rtype value zone ≡ ok (rj, rw')
        → (c : Rdata) × (rj ≡ dump c)
          × (canonical_rdata repr compressed packed rtype (object (fields_of c)) zone
              ≡ ok (rj, rw'))
    unfolding canonical_rdata
    canonical_rdata_again rtype value rj rw' h =
        let (fs, e, h1) = >>=-eq-ok (of_object value) _ h in
        let ((c, wire), e2, h2) = >>=-eq-ok (except_wire_error (both rtype fs) invalid) _ h1 in
        let b =
          both_again rtype fs c wire (except_wire_error-ok (both rtype fs) invalid (c, wire) e2) in
        (c, limited-text c wire h2, rw b h2)
      where
        limited-text : (c : Rdata) (wire : Bytes) → limited c wire ≡ ok (rj, rw') → rj ≡ dump c
        limited-text c wire k =
            let (e, k1) = raise_if->>-eq-ok (ltb max_rdata_len (length wire)) _ _ k in
            sym (ap (λ (p : Text × Bytes). p.0) (ok-inj k1))
