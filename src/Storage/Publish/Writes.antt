-- ===== src/Storage/Publish/Writes.antt =====
-- How the transaction of a publish in app/storage.py ends, for the proofs of what a publish shows.
use ab_bedd4c0e_tsig_bugfix.Prelude.{
  ℕ, ◌+◌, ◌≡◌, refl, sym, ap, ◌∙◌, Bool, true, false, not, some, List, [], ◌∷◌, ◌++◌, ltb,
  Bool-cases, inl, inr, ◌⊎◌,
}
use ab_bedd4c0e_tsig_bugfix.Errors.{
  Fault, integrity_error, Result, ok, err, >>=-eq-ok, ok-inj, raise_if->>-eq-ok,
}
use ab_bedd4c0e_tsig_bugfix.Text.{Text}
use ab_bedd4c0e_tsig_bugfix.Serial.{
  SerialRelation, equal, greater, less, undecidable, compare, is_forward,
}
use ab_bedd4c0e_tsig_bugfix.Storage.Tables.{Database, ZoneRow, VersionRow, select, found}
use ab_bedd4c0e_tsig_bugfix.Storage.Changeset.{
  Entry, Rrset, Changed, Draft, Op, load_rrsets, apply_ops, validate_zone_invariants, count_records,
}
use ab_bedd4c0e_tsig_bugfix.Storage.Materialize.{materialize}
use ab_bedd4c0e_tsig_bugfix.Storage.Publish.{
  max_records, insert_version, statement, clashes, Reply, is_equal, version_row, commit, attempt,
  checked, in_tx, settle,
}

pub settle-ok :
    (db : Database) (zone request_id fingerprint : Text) (base_serial next_serial ts : ℕ)
    (a : Database × Result Reply) (db' : Database) (reply : Reply)
    → ◌≡◌ {A = Database × Result Reply}
        (settle db zone request_id fingerprint base_serial next_serial ts a)
        (db', ok reply)
    → a ≡ (db', ok reply)
settle-ok db zone request_id fingerprint base_serial next_serial ts (d, ok r) db' reply h = h
settle-ok db zone request_id fingerprint base_serial next_serial ts (d, err e) db' reply h =
    cc (ap (λ (p : Database × Result Reply). p.1) h)

-- The reply to a publish that is committed now.
abbrev pub reply_of : ZoneRow → Text → ℕ → Reply
reply_of z request_id next_serial = record {
  zone = z.name;
  request_id = request_id;
  version_id = some (z.current_version + 1);
  serial = some next_serial;
  replayed = false;
}

module _ {V : Type 0} (canonical_rdata : Text → V → Text → Result Entry)
    (json_serial : Text → ℕ) where
  is_equal-true : (r : SerialRelation) → not (is_equal r) ≡ false → r ≡ equal
  is_equal-true equal e = refl
  is_equal-true greater e = cc
  is_equal-true less e = cc
  is_equal-true undecidable e = cc

  not-false : (b : Bool) → not b ≡ false → b ≡ true
  not-false true e = refl
  not-false false e = cc

  -- What has been checked when the writes begin.
  pub record IsChecked (db : Database) (z : ZoneRow) (base_serial next_serial : ℕ)
      (ops : List (Op V)) (rrsets : List Rrset) (changed : Changed) : Type 0 where
    pub forward : (is_forward base_serial next_serial).0 ≡ true
    pub current : compare z.current_serial base_serial ≡ equal
    pub applied :
        apply_ops canonical_rdata z.name ops (load_rrsets db z.name z.current_version, [])
        ≡ ok (rrsets, changed)
    pub valid : validate_zone_invariants json_serial z.name rrsets next_serial ≡ ok tt
    pub bounded : ltb max_records (count_records rrsets) ≡ false

  checked-IsChecked :
      (db : Database) (z : ZoneRow) (base_serial next_serial : ℕ) (ops : List (Op V))
      (rrsets : List Rrset) (changed : Changed)
      → checked canonical_rdata json_serial db z base_serial next_serial ops ≡ ok (rrsets, changed)
      → IsChecked db z base_serial next_serial ops rrsets changed
  checked-IsChecked db z base_serial next_serial ops rrsets changed h =
      let (e1, h1) = raise_if->>-eq-ok (not (is_forward base_serial next_serial).0) _ _ h in
      let (e2, h2) =
        raise_if->>-eq-ok (not (is_equal (compare z.current_serial base_serial))) _ _ h1 in
      let ((rrsets', changed'), e3, h3) =
        >>=-eq-ok
          (apply_ops canonical_rdata z.name ops (load_rrsets db z.name z.current_version, [])) _
          h2 in
      let (u, e4, h4) =
        >>=-eq-ok (validate_zone_invariants json_serial z.name rrsets' next_serial) _ h3 in
      let (e5, h5) = raise_if->>-eq-ok (ltb max_records (count_records rrsets')) _ _ h4 in
      let same : ◌≡◌ {A = Draft} (rrsets', changed') (rrsets, changed) = ok-inj h5 in
      let same_rrsets = ap (λ (d : Draft). d.0) same in
      record {
        forward = not-false (is_forward base_serial next_serial).0 e1;
        current = is_equal-true (compare z.current_serial base_serial) e2;
        applied = e3 ∙ ap (λ (d : Draft). ok d) same;
        valid =
            ap (λ (r : List Rrset). validate_zone_invariants json_serial z.name r next_serial)
              (sym same_rrsets)
            ∙ e4;
        bounded = ap (λ (r : List Rrset). ltb max_records (count_records r)) (sym same_rrsets) ∙ e5;
      }

  -- What a transaction that commits has checked and written.
  pub record IsWritten (db : Database) (z : ZoneRow) (request_id : Text)
      (base_serial next_serial : ℕ) (ops : List (Op V)) (fingerprint : Text) (ts : ℕ)
      (db' : Database) (reply : Reply) : Type 0 where
    pub rrsets : List Rrset
    pub changed : Changed
    pub checks : IsChecked db z base_serial next_serial ops rrsets changed
    pub fresh :
        found (select (clashes (version_row z request_id next_serial ts)) db.versions) ≡ false
    pub db_eq : db' ≡ (
        let m = materialize db z.name z.current_version (z.current_version + 1) rrsets changed in
        commit z request_id base_serial next_serial fingerprint ts rrsets
          (record m { versions = m.versions ++ version_row z request_id next_serial ts ∷ [] }))
    pub reply_eq : reply ≡ reply_of z request_id next_serial

  -- How the transaction ends: all is written; or an exception comes before the first write; or one
  -- that is no ApiError comes between the writes.
  pub data IsOutcome (db : Database) (z : ZoneRow) (request_id : Text) (base_serial next_serial : ℕ)
      (ops : List (Op V)) (fingerprint : Text) (ts : ℕ) : Database × Result Reply → Type 0 where
    written :
        {db' : Database} {reply : Reply}
        → IsWritten db z request_id base_serial next_serial ops fingerprint ts db' reply
        → IsOutcome db z request_id base_serial next_serial ops fingerprint ts (db', ok reply)
    unwritten :
        {e : Fault}
        → IsOutcome db z request_id base_serial next_serial ops fingerprint ts (db, err e)
    interrupted :
        {tx : Database}
        → IsOutcome db z request_id base_serial next_serial ops fingerprint ts
            (tx, err integrity_error)

  insert_version-cases :
      (v : VersionRow) (tx : Database)
      → ((insert_version v tx ≡ ok (record tx { versions = tx.versions ++ v ∷ [] }))
          × (found (select (clashes v) tx.versions) ≡ false))
        ⊎ (insert_version v tx ≡ err integrity_error)
  insert_version-cases v tx = elim (Bool-cases (found (select (clashes v) tx.versions))) [
    | inl e ↦ inr (rw e refl)
    | inr e ↦ inl (rw e refl, e)
  ]

  module _ (db : Database) (z : ZoneRow) (request_id : Text) (base_serial next_serial : ℕ)
      (ops : List (Op V)) (fingerprint : Text) (ts : ℕ) where
    abbrev row : VersionRow
    row = version_row z request_id next_serial ts

    abbrev snapshot : Draft → Database
    snapshot d = materialize db z.name z.current_version (z.current_version + 1) d.0 d.1

    inserted-IsOutcome :
        (rrsets : List Rrset) (changed : Changed) (r : Result Database)
        → IsChecked db z base_serial next_serial ops rrsets changed
        → (let m = snapshot (rrsets, changed) in
            ((r ≡ ok (record m { versions = m.versions ++ row ∷ [] }))
              × (found (select (clashes row) db.versions) ≡ false))
            ⊎ (r ≡ err integrity_error))
        → IsOutcome db z request_id base_serial next_serial ops fingerprint ts (
            in_tx (statement (snapshot (rrsets, changed)) r) λ tx2 done. (
              commit z request_id base_serial next_serial fingerprint ts rrsets tx2,
              ok (reply_of z request_id next_serial),
            ))
    inserted-IsOutcome rrsets changed r c (inl (e, f)) = rw e (
        written (record {
          rrsets = rrsets;
          changed = changed;
          checks = c;
          fresh = f;
          db_eq = refl;
          reply_eq = refl;
        }))
    inserted-IsOutcome rrsets changed r c (inr e) = rw e interrupted

    draft-IsOutcome :
        (r : Result Draft)
        → checked canonical_rdata json_serial db z base_serial next_serial ops ≡ r
        → IsOutcome db z request_id base_serial next_serial ops fingerprint ts (
            in_tx
              (db, r)
              λ tx (rrsets, changed).
                let m =
                  materialize tx z.name z.current_version (z.current_version + 1) rrsets changed in
                in_tx (statement m (insert_version row m)) λ tx2 done. (
                  commit z request_id base_serial next_serial fingerprint ts rrsets tx2,
                  ok (reply_of z request_id next_serial),
                ))
    unfolding materialize
    draft-IsOutcome (err e) h = unwritten
    draft-IsOutcome (ok (rrsets, changed)) h =
        inserted-IsOutcome rrsets changed (insert_version row (snapshot (rrsets, changed)))
          (checked-IsChecked db z base_serial next_serial ops rrsets changed h)
          (insert_version-cases row (snapshot (rrsets, changed)))

    pub attempt-IsOutcome : IsOutcome db z request_id base_serial next_serial ops fingerprint ts (
        attempt canonical_rdata json_serial db z request_id base_serial next_serial ops fingerprint
          ts)
    unfolding attempt
    attempt-IsOutcome =
        draft-IsOutcome (checked canonical_rdata json_serial db z base_serial next_serial ops) refl

  pub attempt-IsWritten :
      (db : Database) (z : ZoneRow) (request_id : Text) (base_serial next_serial : ℕ)
      (ops : List (Op V)) (fingerprint : Text) (ts : ℕ) (db' : Database) (reply : Reply)
      → attempt canonical_rdata json_serial db z request_id base_serial next_serial ops fingerprint
          ts
        ≡ (db', ok reply)
      → IsWritten db z request_id base_serial next_serial ops fingerprint ts db' reply
  attempt-IsWritten db z request_id base_serial next_serial ops fingerprint ts db' reply h =
      go db' reply
        (rw h at (attempt-IsOutcome db z request_id base_serial next_serial ops fingerprint ts))
    where
      go :
          (d : Database) (r : Reply)
          → IsOutcome db z request_id base_serial next_serial ops fingerprint ts (d, ok r)
          → IsWritten db z request_id base_serial next_serial ops fingerprint ts d r
      go d r (written w) = w
