-- ===== src/Service/Tables.antt =====
-- Which operations leave the key table alone.
use ab_bedd4c0e_tsig_bugfix.Prelude.{
  ℕ, ◌≡◌, refl, sym, ap, ◌∙◌, Option, none, some, List, [], ◌∷◌, Option-cases, inl, inr,
}
use ab_bedd4c0e_tsig_bugfix.Errors.{Result, ok, err, >>=-eq-ok, ok-inj}
use ab_bedd4c0e_tsig_bugfix.Text.{Text, text_eq}
use ab_bedd4c0e_tsig_bugfix.Storage.Tables.{
  Database, ZoneRow, TaskRow, select, fetchone, get_zone_row,
}
use ab_bedd4c0e_tsig_bugfix.Storage.Cleanup.{
  enqueue_cleanup, set_retention, claimable, first_task, is_pending, claim_cleanup_task, purge,
  reap, candidates, pin_of, clean_zone, run_cleanup,
}
use ab_bedd4c0e_tsig_bugfix.Storage.Changeset.{Entry, Op}
use ab_bedd4c0e_tsig_bugfix.Storage.Materialize.{materialize}
use ab_bedd4c0e_tsig_bugfix.Storage.Publish.{ledger_of, named, Reply, publish}
use ab_bedd4c0e_tsig_bugfix.Storage.Publish.Writes.{IsWritten, attempt-IsWritten, settle-ok}
use ab_bedd4c0e_tsig_bugfix.Storage.Publish.Immutable.{publish_fails}
use ab_bedd4c0e_tsig_bugfix.Storage.Zones.{Metadata, create_zone}
use ab_bedd4c0e_tsig_bugfix.Storage.Zones.Created.{create_zone-written}
use ab_bedd4c0e_tsig_bugfix.Cleaner.{run_task, run_once}

purge-keys : (zone : Text) (vids : List ℕ) (db : Database) → (purge zone vids db).keys ≡ db.keys
unfolding purge
purge-keys zone [] db = refl
purge-keys zone (vid ∷ vids) db = purge-keys zone vids _

run_cleanup-keys :
    (db : Database) (task : TaskRow) (now : ℕ) → (run_cleanup db task now).0.keys ≡ db.keys
unfolding run_cleanup clean_zone
run_cleanup-keys db task now =
    elim (Option-cases (fetchone (select (λ (z : ZoneRow). text_eq z.name task.zone) db.zones))) [
      | inl e ↦ rw e refl
      | inr (z, e) ↦
          let db1 = reap task.zone now db in
          rw e (
            purge-keys task.zone (candidates task.zone z (pin_of db1 task.zone now) db1.versions)
              db1)
    ]

claim-keys :
    (db : Database) (token : Text) (now : ℕ) → (claim_cleanup_task db token now).0.keys ≡ db.keys
unfolding claim_cleanup_task
claim-keys db token now =
    elim (Option-cases
      (claimable now (first_task (select is_pending db.cleanup_tasks)) db.cleanup_tasks)) [
        | inl e ↦ rw e refl
        | inr (t, e) ↦ rw e refl
      ]

run_task-keys : (now_ms : ℕ) (p : Database × Option TaskRow) → (run_task now_ms p).0.keys ≡ p.0.keys
run_task-keys now_ms (db, none) = refl
run_task-keys now_ms (db, some task) = run_cleanup-keys db task now_ms

pub run_once-keys :
    (db : Database) (token : Text) (now now_ms : ℕ)
    → (run_once db token now now_ms).0.keys ≡ db.keys
unfolding run_once
run_once-keys db token now now_ms =
    run_task-keys now_ms (claim_cleanup_task db token now) ∙ claim-keys db token now

pub set_retention-keys :
    (db : Database) (zone : Text) (retain ts : ℕ) (db' : Database)
    → set_retention db zone retain ts ≡ ok db'
    → db'.keys ≡ db.keys
unfolding set_retention enqueue_cleanup
set_retention-keys db zone retain ts db' h =
    let (z, e, h1) = >>=-eq-ok (get_zone_row db zone) _ h in
    sym (ap (λ (d : Database). d.keys) (ok-inj h1))

module _ {V : Type 0} (soa_rdata : V → ℕ → Text → Result Entry) (soa_ttl : V → Result ℕ)
    (ns_rdata : Text → Text → Result Entry) where
  pub create_zone-keys :
      (db : Database) (zone : Text) (serial : ℕ) (soa : V) (targets : List Text)
      (retain_versions ts : ℕ) (db' : Database) (meta : Metadata)
      → create_zone soa_rdata soa_ttl ns_rdata db zone serial soa targets retain_versions ts
        ≡ ok (db', meta)
      → db'.keys ≡ db.keys
  create_zone-keys db zone serial soa targets retain_versions ts db' meta h =
      let (rows, absent, w) =
        create_zone-written soa_rdata soa_ttl ns_rdata db zone serial soa targets retain_versions ts
          db' meta h in
      ap (λ (d : Database). d.keys) w

module _ {V : Type 0} (canonical_rdata : Text → V → Text → Result Entry)
    (json_serial : Text → ℕ) where
  attempt-keys :
      (db : Database) (z : ZoneRow) (request_id : Text) (base_serial next_serial : ℕ)
      (ops : List (Op V)) (fingerprint : Text) (ts : ℕ) (db' : Database) (reply : Reply)
      → IsWritten canonical_rdata json_serial db z request_id base_serial next_serial ops
          fingerprint ts db' reply
      → db'.keys ≡ db.keys
  unfolding enqueue_cleanup materialize
  attempt-keys db z request_id base_serial next_serial ops fingerprint ts db' reply c =
      ap (λ (d : Database). d.keys) c.db_eq

  module _ (db : Database) (zone_name request_id : Text) (base_serial next_serial : ℕ)
      (ops : List (Op V)) (fingerprint : Text) (ts : ℕ) where
    success-keys :
        (db' : Database) (reply : Reply)
        → publish canonical_rdata json_serial db zone_name request_id base_serial next_serial ops
            fingerprint ts
          ≡ (db', ok reply)
        → db'.keys ≡ db.keys
    unfolding publish
    success-keys db' reply h = elim (Option-cases (fetchone (select (named zone_name) db.zones))) [
      | inl i ↦ cc (ap (λ (p : Database × Result Reply). p.1) (rw i at h))
      | inr (z, i) ↦ elim (Option-cases (ledger_of db z.name request_id)) [
        | inl k ↦
            attempt-keys db z request_id base_serial next_serial ops fingerprint ts db' reply (
              attempt-IsWritten canonical_rdata json_serial db z request_id base_serial next_serial
                ops fingerprint ts db' reply
                (settle-ok db z.name request_id fingerprint base_serial next_serial ts _ db' reply
                  (rw (i, k) at h)))
        | inr (r, k) ↦ ap (λ (p : Database × Result Reply). p.0.keys) (sym (rw (i, k) at h))
      ]
    ]

    pub publish-keys :
        (p : Database × Result Reply)
        → publish canonical_rdata json_serial db zone_name request_id base_serial next_serial ops
            fingerprint ts
          ≡ p
        → p.0.keys ≡ db.keys
    publish-keys (db', ok reply) h = success-keys db' reply h
    publish-keys (db', err e) h =
        ap (λ (d : Database). d.keys)
          (publish_fails canonical_rdata json_serial zone_name request_id base_serial next_serial
            ops fingerprint ts db db' e h)
