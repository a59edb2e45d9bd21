-- ===== src/Storage/Keys/Rotation.antt =====
-- What `install_key` and `revoke_key` leave in the key table.
use ab_bedd4c0e_tsig_bugfix.Prelude.{
  ℕ, ◌<◌, ◌≤◌, ◌≡◌, ◌≢◌, refl, sym, ◌∙◌, Bool, true, false, Option, List, [], ◌∷◌, ◌++◌, append-nil,
  arith, Bool-cases, inl, inr, leb,
}
use ab_bedd4c0e_tsig_bugfix.Errors.{ok, >>=-eq-ok, raise_if->>-eq-ok, Fault}
use ab_bedd4c0e_tsig_bugfix.Text.{Text, Bytes, text_eq}
use ab_bedd4c0e_tsig_bugfix.Text.Laws.{text_eq_refl, text_eq→eq}
use ab_bedd4c0e_tsig_bugfix.Storage.Tables.{Database, KeyRow, select, update, found, get_zone_row}
use ab_bedd4c0e_tsig_bugfix.Storage.Tables.Laws.{select-append, select-update, select-update_all}
use ab_bedd4c0e_tsig_bugfix.Storage.Keys.{
  active_in, has_id, uses_name, next_gen, name_or, expiry_or, retire, insert_key, except_integrity,
  new_key, install_key,
}

abbrev pub in_zone : Text → KeyRow → Bool
in_zone zone k = text_eq k.zone zone

-- What a successful installation has done.
pub record IsInstalled (db : Database) (zone key_id : Text) (key_name : Option Text)
    (expires_at : Option ℕ) (secret : Bytes) (ts : ℕ) (db' : Database) (key : KeyRow) : Type 0 where
  pub future : leb (expiry_or expires_at ts) ts ≡ false
  pub name_free : found (select (uses_name zone (name_or key_name key_id)) db.keys) ≡ false
  pub id_free : found (select (has_id zone key_id) db.keys) ≡ false
  pub key_eq : key ≡ new_key zone key_id (next_gen zone db.keys) (name_or key_name key_id) secret ts
  pub db_eq : db' ≡ record db {
    keys = update (active_in zone) (retire (expiry_or expires_at ts)) db.keys ++ key ∷ [];
  }

inserted :
    (k : KeyRow) (ks : List KeyRow) (e : Fault) (keys : List KeyRow)
    → except_integrity (insert_key k ks) e ≡ ok keys
    → keys ≡ ks ++ k ∷ []
inserted k ks e keys h = elim (Bool-cases (found (select (has_id k.zone k.key_id) ks))) [
  | inl i ↦ cc (rw i at h)
  | inr i ↦ cc (rw i at h)
]

retire-not_active : (zone : Text) (e : ℕ) (r : KeyRow) → active_in zone (retire e r) ≡ false
retire-not_active zone e r = ground arith

pub installed :
    (db : Database) (zone key_id : Text) (key_name : Option Text) (expires_at : Option ℕ)
    (secret : Bytes) (ts : ℕ) (db' : Database) (key : KeyRow)
    → install_key db zone key_id key_name expires_at secret ts ≡ ok (db', key)
    → IsInstalled db zone key_id key_name expires_at secret ts db' key
unfolding install_key
installed db zone key_id key_name expires_at secret ts db' key h =
    let (z, e0, h0) = >>=-eq-ok (get_zone_row db zone) _ h in
    let (e1, h1) = raise_if->>-eq-ok (leb (expiry_or expires_at ts) ts) _ _ h0 in
    let (e2, h2) =
      raise_if->>-eq-ok (found (select (uses_name zone (name_or key_name key_id)) db.keys)) _ _
        h1 in
    let (e3, h3) = raise_if->>-eq-ok (found (select (has_id zone key_id) db.keys)) _ _ h2 in
    let (keys, e4, h4) = >>=-eq-ok (except_integrity (insert_key _ _) _) _ h3 in
    let e5 = inserted _ _ _ keys e4 in
    record { future = e1; name_free = e2; id_free = e3; key_eq = cc; db_eq = cc }

active_in-zone : (zone : Text) (r : KeyRow) → active_in zone r ≡ true → text_eq r.zone zone ≡ true
active_in-zone zone r e = ground arith

apart_zones : (z zone a : Text) → z ≢ zone → text_eq a zone ≡ true → text_eq a z ≡ false
apart_zones z zone a other e = elim (Bool-cases (text_eq a z)) [
  | inl k ↦ absurd (other (sym (text_eq→eq a z k) ∙ text_eq→eq a zone e))
  | inr k ↦ k
]

-- The zone's keys of these have lower generations.
abbrev pub AllOlder : Text → ℕ → List KeyRow → Type 0
AllOlder zone gen [] = Unit
AllOlder zone gen (k ∷ ks) = (text_eq k.zone zone ≡ true → k.gen < gen) × AllOlder zone gen ks

AllOlder-le :
    (zone : Text) (m n : ℕ) (ks : List KeyRow) → m ≤ n → AllOlder zone m ks → AllOlder zone n ks
AllOlder-le zone m n [] h a = tt
AllOlder-le zone m n (k ∷ ks) h (a, rest) =
    (λ e. (let b = a e in omega (arith, b)), AllOlder-le zone m n ks h rest)

next_gen-lt :
    (zone : Text) (k : KeyRow) (ks : List KeyRow)
    → text_eq k.zone zone ≡ true
    → k.gen < next_gen zone (k ∷ ks)
unfolding next_gen
next_gen-lt zone k ks e = rw e (omega arith)

next_gen-le :
    (zone : Text) (k : KeyRow) (ks : List KeyRow) → next_gen zone ks ≤ next_gen zone (k ∷ ks)
unfolding next_gen
next_gen-le zone k ks = elim (Bool-cases (text_eq k.zone zone)) [
  | inl e ↦ rw e (omega arith)
  | inr e ↦ rw e (omega arith)
]

next_gen-AllOlder : (zone : Text) (ks : List KeyRow) → AllOlder zone (next_gen zone ks) ks
next_gen-AllOlder zone [] = tt
next_gen-AllOlder zone (k ∷ ks) = (
  next_gen-lt zone k ks,
  AllOlder-le zone (next_gen zone ks) (next_gen zone (k ∷ ks)) ks (next_gen-le zone k ks)
      (next_gen-AllOlder zone ks),
)

module _ (db : Database) (zone key_id : Text) (key_name : Option Text) (expires_at : Option ℕ)
    (secret : Bytes) (ts : ℕ) (db' : Database) (key : KeyRow)
    (h : install_key db zone key_id key_name expires_at secret ts ≡ ok (db', key)) where
  is_installed : IsInstalled db zone key_id key_name expires_at secret ts db' key
  is_installed = installed db zone key_id key_name expires_at secret ts db' key h

  active_in-key : active_in zone key ≡ true
  active_in-key = rw is_installed.key_eq (rw (text_eq_refl zone) refl)

  -- After an installation exactly one key of the zone is ACTIVE, and it is the new one.
  pub install_key-active : select (active_in zone) db'.keys ≡ key ∷ []
  unfolding select
  install_key-active =
      rw
        (
          is_installed.db_eq,
          select-append (active_in zone)
              (update (active_in zone) (retire (expiry_or expires_at ts)) db.keys) (key ∷ []),
          select-update_all (active_in zone) (active_in zone) (retire (expiry_or expires_at ts))
              db.keys (λ r e. e) (λ r e. retire-not_active zone (expiry_or expires_at ts) r),
        )
        (rw active_in-key refl)

  -- An installation in one zone leaves the keys of any other zone as they are.
  pub install_key-other_zone :
      (z : Text) → z ≢ zone → select (in_zone z) db'.keys ≡ select (in_zone z) db.keys
  unfolding select
  install_key-other_zone z other =
      rw
        (
          is_installed.db_eq,
          select-append (in_zone z)
              (update (active_in zone) (retire (expiry_or expires_at ts)) db.keys) (key ∷ []),
          select-update (in_zone z) (active_in zone) (retire (expiry_or expires_at ts)) db.keys
              (λ r e. let k = apart_zones z zone r.zone other (active_in-zone zone r e) in (k, k)),
          is_installed.key_eq,
          apart_zones z zone zone other (text_eq_refl zone),
        )
        (append-nil (select (in_zone z) db.keys))

  -- The new key's generation is above that of every key that the zone has had.
  pub install_key-gen : AllOlder zone key.gen db.keys
  install_key-gen = rw is_installed.key_eq (next_gen-AllOlder zone db.keys)
