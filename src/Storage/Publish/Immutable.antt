-- ===== src/Storage/Publish/Immutable.antt =====
-- What a publish leaves as it was.
use ab_bedd4c0e_tsig_bugfix.Prelude.{
  ℕ, ◌+◌, ◌≡◌, ◌⊎◌, refl, sym, ap, ◌∙◌, Bool, true, false, not, ◌&&◌, Option, none, some, List, [],
  ◌∷◌, ◌==◌, append-nil, arith, map, Bool-cases, Option-cases, inl, inr,
}
use ab_bedd4c0e_tsig_bugfix.Errors.{Fault, api, Result, ok, err}
use ab_bedd4c0e_tsig_bugfix.Text.{Text, text_eq}
use ab_bedd4c0e_tsig_bugfix.Text.Laws.{text_eq_refl, text_eq→eq}
use ab_bedd4c0e_tsig_bugfix.Storage.Tables.{
  Database, ZoneRow, RecordRow, RequestRow, select, delete, fetchone, found,
}
use ab_bedd4c0e_tsig_bugfix.Storage.Tables.Laws.{select-append, select-delete}
use ab_bedd4c0e_tsig_bugfix.Storage.Cleanup.{enqueue_cleanup}
use ab_bedd4c0e_tsig_bugfix.Storage.Changeset.{Entry, Rrset, Changed, Op, version_of, rrset_of}
use ab_bedd4c0e_tsig_bugfix.Storage.Materialize.{
  materialize, rewrite_changed, move, key_of, row_of, new_rows,
}
use ab_bedd4c0e_tsig_bugfix.Storage.Publish.{
  has_request, ledger_of, named, Reply, is_ledgerable, fail_or_rollback, settle, publish,
}
use ab_bedd4c0e_tsig_bugfix.Storage.Publish.Writes.{
  IsOutcome, written, unwritten, interrupted, IsWritten, attempt-IsOutcome, attempt-IsWritten,
  settle-ok,
}

-- The tables that a failed publish does not touch.
abbrev pub with_ledger : Database → List RequestRow → Database
with_ledger db requests = record db { publish_requests = requests }

fail_or_rollback-with_ledger :
    (db : Database) (zone request_id fingerprint : Text) (base_serial next_serial ts : ℕ)
    (e : Fault)
    → let db' = fail_or_rollback db db zone request_id fingerprint base_serial next_serial ts e in
      db' ≡ with_ledger db db'.publish_requests
fail_or_rollback-with_ledger db zone request_id fingerprint base_serial next_serial ts (api e) =
    elim (Bool-cases (
      is_ledgerable e.code
      && not (found (select (has_request zone request_id) db.publish_requests)))) [
        | inl i ↦ rw i refl
        | inr i ↦ rw i refl
      ]
fail_or_rollback-with_ledger db zone request_id fingerprint base_serial next_serial ts e = refl

&&-left : (a b : Bool) → (a && b) ≡ true → a ≡ true
&&-left a b e = ground arith

-- A version that is not the new one of the zone.
abbrev Apart : Text → ℕ → Text → ℕ → Type 0
Apart zone v other vid = (text_eq other zone ≡ false) ⊎ ((v == vid) ≡ false)

Apart-row :
    (zone : Text) (v : ℕ) (other : Text) (vid : ℕ) (a : Text)
    → Apart zone v other vid
    → text_eq a zone ≡ true
    → (text_eq a other && v == vid) ≡ false
Apart-row zone v other vid a (inl e) h = elim (Bool-cases (text_eq a other)) [
  | inl i ↦ ground (arith, text_eq→eq a other)
  | inr i ↦ rw i refl
]
Apart-row zone v other vid a (inr e) h = ground arith

select-moved :
    (zone : Text) (old v : ℕ) (other : Text) (vid : ℕ) (rs : List RecordRow)
    → Apart zone v other vid
    → select (version_of other vid) (map (move v) (select (version_of zone old) rs)) ≡ []
unfolding select
select-moved zone old v other vid [] h = refl
select-moved zone old v other vid (r ∷ rs) h = elim (Bool-cases (version_of zone old r)) [
  | inl e ↦
      rw (e, Apart-row zone v other vid r.zone h (&&-left _ _ e))
        (select-moved zone old v other vid rs h)
  | inr e ↦ rw e (select-moved zone old v other vid rs h)
]

select-row_of :
    (zone : Text) (v : ℕ) (name rtype : Text) (ttl : ℕ) (other : Text) (vid : ℕ) (es : List Entry)
    → Apart zone v other vid
    → select (version_of other vid) (map (row_of zone v name rtype ttl) es) ≡ []
unfolding select
select-row_of zone v name rtype ttl other vid [] h = refl
select-row_of zone v name rtype ttl other vid ((j, w) ∷ es) h =
    rw (Apart-row zone v other vid zone h (text_eq_refl zone))
      (select-row_of zone v name rtype ttl other vid es h)

select-new_rows :
    (zone : Text) (v : ℕ) (name rtype : Text) (other : Text) (vid : ℕ) (o : Option Rrset)
    → Apart zone v other vid
    → select (version_of other vid) (new_rows zone v name rtype o) ≡ []
unfolding select
select-new_rows zone v name rtype other vid none h = refl
select-new_rows zone v name rtype other vid (some s) h =
    select-row_of zone v name rtype s.ttl other vid s.entries h

not_rewritten :
    (zone : Text) (v : ℕ) (name rtype other : Text) (vid : ℕ) (r : RecordRow)
    → Apart zone v other vid
    → version_of other vid r ≡ true
    → key_of zone v name rtype r ≡ false
not_rewritten zone v name rtype other vid r h e = elim (Bool-cases (text_eq r.zone zone)) [
  | inl i ↦ ground (arith, Apart-row zone v other vid r.zone h i)
  | inr i ↦ rw i refl
]

rewrite_changed-kept :
    (zone : Text) (v : ℕ) (other : Text) (vid : ℕ) (rrsets : List Rrset) (keys : Changed)
    (rs : List RecordRow)
    → Apart zone v other vid
    → select (version_of other vid) (rewrite_changed zone v rrsets keys rs)
      ≡ select (version_of other vid) rs
unfolding rewrite_changed
rewrite_changed-kept zone v other vid rrsets [] rs h = refl
rewrite_changed-kept zone v other vid rrsets ((name, rtype) ∷ keys) rs h =
    rewrite_changed-kept zone v other vid rrsets keys _ h
    ∙ select-append (version_of other vid) (delete (key_of zone v name rtype) rs) _
    ∙ rw
        (
          select-new_rows zone v name rtype other vid (rrset_of rrsets name rtype) h,
          select-delete (version_of other vid) (key_of zone v name rtype) rs
              (λ r e. not_rewritten zone v name rtype other vid r h e),
        )
        (append-nil (select (version_of other vid) rs))

materialize-kept :
    (db : Database) (zone : Text) (old v : ℕ) (other : Text) (vid : ℕ) (rrsets : List Rrset)
    (changed : Changed)
    → Apart zone v other vid
    → select (version_of other vid) (materialize db zone old v rrsets changed).records
      ≡ select (version_of other vid) db.records
unfolding materialize
materialize-kept db zone old v other vid rrsets changed h =
    rewrite_changed-kept zone v other vid rrsets changed _ h
    ∙ select-append (version_of other vid) db.records _
    ∙ rw (select-moved zone old v other vid db.records h)
        (append-nil (select (version_of other vid) db.records))

unchanged :
    (db db' : Database) {r s : Result Reply}
    → ◌≡◌ {A = Database × Result Reply} (db, r) (db', s)
    → db' ≡ with_ledger db db'.publish_requests
unchanged db db' h = let same = ap (λ (p : Database × Result Reply). p.0) h in rw (sym same) refl

module _ {V : Type 0} (canonical_rdata : Text → V → Text → Result Entry)
    (json_serial : Text → ℕ) where
  -- What has been written when an exception comes is not committed.
  settle-fails :
      (db : Database) (z : ZoneRow) (request_id : Text) (base_serial next_serial : ℕ)
      (ops : List (Op V)) (fingerprint : Text) (ts : ℕ) (a : Database × Result Reply)
      (db' : Database) (e : Fault)
      → IsOutcome canonical_rdata json_serial db z request_id base_serial next_serial ops
          fingerprint ts a
      → ◌≡◌ {A = Database × Result Reply}
          (settle db z.name request_id fingerprint base_serial next_serial ts a)
          (db', err e)
      → db' ≡ with_ledger db db'.publish_requests
  settle-fails db z request_id base_serial next_serial ops fingerprint ts a db' e (written w) h =
      cc (ap (λ (p : Database × Result Reply). p.1) h)
  settle-fails db z request_id base_serial next_serial ops fingerprint ts a db' e
        (unwritten {e = f}) h =
      let same = ap (λ (p : Database × Result Reply). p.0) h in
      rw (sym same)
        (fail_or_rollback-with_ledger db z.name request_id fingerprint base_serial next_serial ts f)
  settle-fails db z request_id base_serial next_serial ops fingerprint ts a db' e interrupted h =
      unchanged db db' h

  attempt-kept :
      (db : Database) (z : ZoneRow) (request_id : Text) (base_serial next_serial : ℕ)
      (ops : List (Op V)) (fingerprint : Text) (ts : ℕ) (db' : Database) (reply : Reply)
      (other : Text) (vid : ℕ)
      → IsWritten canonical_rdata json_serial db z request_id base_serial next_serial ops
          fingerprint ts db' reply
      → Apart z.name (z.current_version + 1) other vid
      → select (version_of other vid) db'.records ≡ select (version_of other vid) db.records
  unfolding enqueue_cleanup
  attempt-kept db z request_id base_serial next_serial ops fingerprint ts db' reply other vid c h =
      ap (λ (d : Database). select (version_of other vid) d.records) c.db_eq
      ∙ materialize-kept db z.name z.current_version (z.current_version + 1) other vid c.rrsets
          c.changed h

  module _ (zone_name request_id : Text) (base_serial next_serial : ℕ) (ops : List (Op V))
      (fingerprint : Text) (ts : ℕ) (db db' : Database) where
    -- A publish that fails, at whatever point of its transaction, changes nothing but the ledger: no
    -- zone, version, record, delta, key, pin or task, though a failure that the ledger keeps commits
    -- all that the transaction has written.
    pub publish_fails :
        (e : Fault)
        → publish canonical_rdata json_serial db zone_name request_id base_serial next_serial ops
            fingerprint ts
          ≡ (db', err e)
        → db' ≡ with_ledger db db'.publish_requests
    unfolding publish
    publish_fails e h = elim (Option-cases (fetchone (select (named zone_name) db.zones))) [
      | inl i ↦ unchanged db db' (rw i at h)
      | inr (z, i) ↦ elim (Option-cases (ledger_of db z.name request_id)) [
        | inl k ↦
            settle-fails db z request_id base_serial next_serial ops fingerprint ts _ db' e
              (attempt-IsOutcome canonical_rdata json_serial db z request_id base_serial next_serial
                ops fingerprint ts)
              (rw (i, k) at h)
        | inr (r, k) ↦ unchanged db db' (rw (i, k) at h)
      ]
    ]

    kept_on_success :
        (reply : Reply) (z : ZoneRow) (other : Text) (vid : ℕ)
        → publish canonical_rdata json_serial db zone_name request_id base_serial next_serial ops
            fingerprint ts
          ≡ (db', ok reply)
        → fetchone (select (named zone_name) db.zones) ≡ some z
        → Apart z.name (z.current_version + 1) other vid
        → select (version_of other vid) db'.records ≡ select (version_of other vid) db.records
    unfolding publish
    kept_on_success reply z other vid h i a = elim (Option-cases (ledger_of db z.name request_id)) [
      | inl k ↦
          attempt-kept db z request_id base_serial next_serial ops fingerprint ts db' reply other
            vid
            (attempt-IsWritten canonical_rdata json_serial db z request_id base_serial next_serial
              ops fingerprint ts db' reply
              (settle-ok db z.name request_id fingerprint base_serial next_serial ts _ db' reply
                (rw (i, k) at h)))
            a
      | inr (r, k) ↦
          ap (λ (p : Database × Result Reply). select (version_of other vid) p.0.records)
            (sym (rw (i, k) at h))
    ]

    -- A publish, committed or not, leaves the snapshot of every version as it is but that of its
    -- zone's next version.
    pub publish_keeps_snapshots :
        (result : Result Reply) (z : ZoneRow) (other : Text) (vid : ℕ)
        → publish canonical_rdata json_serial db zone_name request_id base_serial next_serial ops
            fingerprint ts
          ≡ (db', result)
        → fetchone (select (named zone_name) db.zones) ≡ some z
        → (text_eq other z.name ≡ false) ⊎ ((z.current_version + 1 == vid) ≡ false)
        → select (version_of other vid) db'.records ≡ select (version_of other vid) db.records
    publish_keeps_snapshots (err e) z other vid h i a =
        ap (λ (d : Database). select (version_of other vid) d.records) (publish_fails e h)
    publish_keeps_snapshots (ok reply) z other vid h i a = kept_on_success reply z other vid h i a
