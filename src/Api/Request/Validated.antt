-- ===== src/Api/Request/Validated.antt =====
-- What has been checked of a publish request and of a new zone before the store is asked.
use ab_bedd4c0e_tsig_bugfix.Prelude.{
  ℕ, ◌≤◌, ◌<◌, ◌^◌, ◌≡◌, sym, ap, ◌∙◌, false, ◌||◌, Option, none, some, [], ◌∷◌, arith, ltb, leb,
  ◌==◌, length, Bool-cases, inl, inr,
}
use ab_bedd4c0e_tsig_bugfix.Errors.{Fault, Result, ok, err, >>=-eq-ok, raise_if->>-eq-ok, ok-inj}
use ab_bedd4c0e_tsig_bugfix.Text.{Text, codes, is_empty}
use ab_bedd4c0e_tsig_bugfix.Json.{
  ℤ, pos, negsuc, Json, null, boolean, whole, real, str, array, object, Fields, get_or_null, int_of,
  except_value,
}
use ab_bedd4c0e_tsig_bugfix.Canonical.{lstrip, rstrip, canonical_zone_arg}
use ab_bedd4c0e_tsig_bugfix.Api.Request.{
  u32_or_none, valid_u32, of_serial, strip, request_id_of, of_some, changes_of, of_list, no_changes,
  max_changes, PublishRequest, check_publish,
}

u32-lt : (z : ℤ) (n : ℕ) → u32_or_none z ≡ some n → n < 2 ^ 32
u32-lt (pos m) n h = elim (Bool-cases (leb m 0xFFFFFFFF)) [
  | inl e ↦ let k : m ≡ n = cc (rw e at h) in ground (arith, e, k)
  | inr e ↦ cc (rw e at h)
]
u32-lt (negsuc m) n h = cc

except-some :
    (r : Result (Option ℕ)) (n : ℕ) → except_value r (ok none) ≡ ok (some n) → r ≡ ok (some n)
except-some (ok o) n h = h
except-some (err Fault.type_error) n h = cc
except-some (err Fault.value_error) n h = cc
except-some (err e) n h = cc

of_serial-ok : (o : Option ℕ) (n : ℕ) → of_serial o ≡ ok n → o ≡ some n
of_serial-ok none n h = cc
of_serial-ok (some m) n h = cc

serial-lt : (v : Json) (o : Option ℕ) (n : ℕ) → valid_u32 v ≡ ok o → of_serial o ≡ ok n → n < 2 ^ 32
unfolding valid_u32
serial-lt v o n h k =
    let s = except-some _ n (h ∙ ap ok (of_serial-ok o n k)) in
    let (z, e, r) = >>=-eq-ok (int_of v) _ s in u32-lt z n (ok-inj r)

lstrip-le : (s : Text) → length (lstrip s) ≤ length s
unfolding lstrip
lstrip-le [] = omega arith
lstrip-le (c ∷ s) = let l = lstrip-le s in ground (arith, l)

rstrip-le : (s : Text) → length (rstrip s) ≤ length s
unfolding rstrip
rstrip-le [] = omega arith
rstrip-le (c ∷ s) = let l = rstrip-le s in ground (arith, l)

not_empty : (s : Text) → is_empty s ≡ false → 1 ≤ length s
not_empty [] h = cc
not_empty (c ∷ s) h = omega arith

request_id-bounds :
    (v : Json) (id : Text) → request_id_of v ≡ ok id → (1 ≤ length id) × (length id ≤ 200)
unfolding request_id_of
request_id-bounds null id h = cc
request_id-bounds (boolean b) id h = cc
request_id-bounds (whole z) id h = cc
request_id-bounds (real f) id h = cc
request_id-bounds (array js) id h = cc
request_id-bounds (object fs) id h = cc
request_id-bounds (str s) id h =
    let (e, h1) = raise_if->>-eq-ok (is_empty (strip s) || ltb 200 (length s)) _ _ h in
    let same : strip s ≡ id = ok-inj h1 in
    let l = lstrip-le s in
    let r = rstrip-le (lstrip s) in
    let some_char = not_empty (strip s) (ground (arith, e)) in
    let short : length s ≤ 200 = ground (arith, e) in
    let bounded : length (strip s) ≤ 200 = omega (arith, l, r, short) in
    (rw same at some_char, rw same at bounded)

-- The bounds of a publish request.
pub record IsBounded (c : PublishRequest) : Type 0 where
  pub base_lt : c.base_serial < 2 ^ 32
  pub next_lt : c.next_serial < 2 ^ 32
  pub id_bounds : (1 ≤ length c.request_id) × (length c.request_id ≤ 200)
  pub changes_bounds : (1 ≤ length c.changes) × (length c.changes ≤ max_changes)

-- A publish request that is handed on, whatever its body, has serials below 2^32, an id of 1 to 200
-- characters and 1 to 1,000 changes.
pub check_publish-IsBounded :
    (name : Text) (body : Fields) (c : PublishRequest)
    → check_publish name body ≡ ok c
    → IsBounded c
unfolding check_publish
check_publish-IsBounded name body c h =
    let (zone, e1, h1) = >>=-eq-ok (canonical_zone_arg name) _ h in
    let (id, e2, h2) = >>=-eq-ok (request_id_of (get_or_null (codes "requestId") body)) _ h1 in
    let (base', e3, h3) = >>=-eq-ok (valid_u32 (get_or_null (codes "baseSerial") body)) _ h2 in
    let (next', e4, h4) = >>=-eq-ok (valid_u32 (get_or_null (codes "nextSerial") body)) _ h3 in
    let (base_serial, e5, h5) = >>=-eq-ok (of_serial base') _ h4 in
    let (next_serial, e6, h6) = >>=-eq-ok (of_serial next') _ h5 in
    let (v, e7, h7) = >>=-eq-ok (of_some (changes_of body)) _ h6 in
    let (changes, e8, h8) = >>=-eq-ok (of_list v no_changes) _ h7 in
    let (e9, h9) = raise_if->>-eq-ok (length changes == 0) _ _ h8 in
    let (e10, h10) = raise_if->>-eq-ok (ltb max_changes (length changes)) _ _ h9 in
    let same = ok-inj h10 in
    record {
      base_lt =
          rw (sym (ap (λ (d : PublishRequest). d.base_serial) same))
            (serial-lt _ base' base_serial e3 e5);
      next_lt =
          rw (sym (ap (λ (d : PublishRequest). d.next_serial) same))
            (serial-lt _ next' next_serial e4 e6);
      id_bounds =
          rw (sym (ap (λ (d : PublishRequest). d.request_id) same)) (request_id-bounds _ id e2);
      changes_bounds =
          rw (sym (ap (λ (d : PublishRequest). d.changes) same))
            (ground (arith, e9), ground (arith, e10));
    }
