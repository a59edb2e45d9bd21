-- ===== src/Storage/Keys/Revocation.antt =====
-- What `revoke_key` leaves in the key table, and the invariant of both operations on keys.
use ab_bedd4c0e_tsig_bugfix.Prelude.{
  ℕ, ◌≤◌, ◌≡◌, refl, sym, ap, Bool, true, false, not, ◌&&◌, Option, List, [], ◌∷◌, arith, length,
  Bool-cases, inl, inr, if◌then◌else◌,
}
use ab_bedd4c0e_tsig_bugfix.Errors.{ok, >>=-eq-ok, raise_if->>-eq-ok}
use ab_bedd4c0e_tsig_bugfix.Text.{Text, Bytes, text_eq}
use ab_bedd4c0e_tsig_bugfix.Text.Laws.{text_eq_refl, text_eq→eq}
use ab_bedd4c0e_tsig_bugfix.Storage.Tables.{
  Database, KeyRow, select, update, fetchone, get_zone_row,
}
use ab_bedd4c0e_tsig_bugfix.Storage.Tables.Laws.{select-update, select-update_all}
use ab_bedd4c0e_tsig_bugfix.Storage.Keys.{
  is_active, is_revoked, active_in, has_id, revoke, revoke_key, install_key, of_key_row,
}
use ab_bedd4c0e_tsig_bugfix.Storage.Keys.Rotation.{
  in_zone, install_key-active, install_key-other_zone,
}

-- A key with this id that is not REVOKED.
abbrev pub live_id : Text → Text → KeyRow → Bool
live_id zone key_id k = has_id zone key_id k && not (is_revoked k.state)

abbrev pub other_id : Text → Text → KeyRow → Bool
other_id zone key_id k = not (has_id zone key_id k)

-- Whoever is ACTIVE, in each zone one key at most is.
abbrev pub AtMostOneActive : Database → Type 0
AtMostOneActive db = (z : Text) → length (select (active_in z) db.keys) ≤ 1

select-length-le :
    (p q : KeyRow → Bool) (f : KeyRow → KeyRow) (ks : List KeyRow)
    → ((r : KeyRow) → q r ≡ true → p (f r) ≡ false)
    → length (select p (update q f ks)) ≤ length (select p ks)
unfolding select update
select-length-le p q f [] h = omega arith
select-length-le p q f (k ∷ ks) h = elim (Bool-cases (q k)) [
  | inl e ↦ elim (Bool-cases (p k)) [
    | inl i ↦ rw (e, h k e, i) (let l = select-length-le p q f ks h in omega (arith, l))
    | inr i ↦ rw (e, h k e, i) (select-length-le p q f ks h)
  ]
  | inr e ↦ elim (Bool-cases (p k)) [
    | inl i ↦ rw (e, i) (let l = select-length-le p q f ks h in omega (arith, l))
    | inr i ↦ rw (e, i) (select-length-le p q f ks h)
  ]
]

module _ (db : Database) (zone key_id : Text) (ts : ℕ) (db' : Database)
    (h : revoke_key db zone key_id ts ≡ ok db') where
  keys_eq : db'.keys ≡ update (has_id zone key_id) (revoke ts) db.keys
  unfolding revoke_key
  keys_eq =
      let (z, e0, h0) = >>=-eq-ok (get_zone_row db zone) _ h in
      let (row, e1, h1) =
        >>=-eq-ok (of_key_row (fetchone (select (has_id zone key_id) db.keys))) _ h0 in
      let (e2, h2) = raise_if->>-eq-ok (is_revoked row.state) _ _ h1 in cc

  -- After a revocation no key with the id is live, and every key with another id, in this zone or
  -- another one, is as before.
  pub revoke_key_lem :
      (select (live_id zone key_id) db'.keys ≡ [])
      × (select (other_id zone key_id) db'.keys ≡ select (other_id zone key_id) db.keys)
  revoke_key_lem = (
    rw keys_eq (
        select-update_all (live_id zone key_id) (has_id zone key_id) (revoke ts) db.keys
          (λ r e. rw e refl) (λ r e. ground arith)),
    rw keys_eq (
        select-update (other_id zone key_id) (has_id zone key_id) (revoke ts) db.keys
          (λ r e. (rw e refl, rw e refl))),
  )

  -- A revocation keeps at most one ACTIVE key in each zone.
  pub revoke_key-AtMostOneActive : AtMostOneActive db → AtMostOneActive db'
  revoke_key-AtMostOneActive one z = rw keys_eq (
      let l =
        select-length-le (active_in z) (has_id zone key_id) (revoke ts) db.keys
          (λ r e. ground arith) in
      let o = one z in omega (arith, l, o))

select-&& :
    (p q : KeyRow → Bool) (ks : List KeyRow) → select (λ k. p k && q k) ks ≡ select q (select p ks)
unfolding select
select-&& p q [] = refl
select-&& p q (k ∷ ks) = elim (Bool-cases (p k)) [
  | inl e ↦ rw e (ap (λ t. if q k then k ∷ t else t) (select-&& p q ks))
  | inr e ↦ rw e (select-&& p q ks)
]

select-active :
    (z : Text) (ks : List KeyRow)
    → select (active_in z) ks ≡ select (λ k. is_active k.state) (select (in_zone z) ks)
select-active z ks = select-&& (in_zone z) (λ k. is_active k.state) ks

-- An installation keeps at most one ACTIVE key in each zone.
pub install_key-AtMostOneActive :
    (db : Database) (zone key_id : Text) (key_name : Option Text) (expires_at : Option ℕ)
    (secret : Bytes) (ts : ℕ) (db' : Database) (key : KeyRow)
    → install_key db zone key_id key_name expires_at secret ts ≡ ok (db', key)
    → AtMostOneActive db
    → AtMostOneActive db'
install_key-AtMostOneActive db zone key_id key_name expires_at secret ts db' key h one z =
    elim (Bool-cases (text_eq z zone)) [
      | inl e ↦
          rw
            (
              text_eq→eq z zone e,
              install_key-active db zone key_id key_name expires_at secret ts db' key h,
            )
            (omega arith)
      | inr e ↦
          let same =
            install_key-other_zone db zone key_id key_name expires_at secret ts db' key h z
              (λ i. cc (text_eq_refl z, e, i)) in
          rw (select-active z db'.keys, same) (rw (sym (select-active z db.keys)) (one z))
    ]
