-- ===== src/Storage/Publish/Replay.antt =====
-- A request that is made again gives its first outcome and changes nothing.
use ab_bedd4c0e_tsig_bugfix.Prelude.{
  ℕ, ◌≡◌, ◌≢◌, ◌⊎◌, refl, sym, ap, ◌∙◌, true, Option, none, some, List, Bool-cases, Option-cases,
  inl, inr,
}
use ab_bedd4c0e_tsig_bugfix.Errors.{ApiError, api, err, Result, ok, ok-inj}
use ab_bedd4c0e_tsig_bugfix.Text.{Text, text_eq}
use ab_bedd4c0e_tsig_bugfix.Text.Laws.{text_eq_refl}
use ab_bedd4c0e_tsig_bugfix.Storage.Tables.{
  Database, ZoneRow, RequestRow, RequestStatus, committed, failed, select, fetchone,
}
use ab_bedd4c0e_tsig_bugfix.Storage.Tables.Laws.{fetchone-update, fetchone-append, found-none}
use ab_bedd4c0e_tsig_bugfix.Storage.Cleanup.{enqueue_cleanup}
use ab_bedd4c0e_tsig_bugfix.Storage.Changeset.{Entry, Rrset, Op}
use ab_bedd4c0e_tsig_bugfix.Storage.Materialize.{materialize}
use ab_bedd4c0e_tsig_bugfix.Storage.Publish.{
  settle, is_ledgerable, insert_ledger, failed_row, fail_or_rollback, replayed_error, has_request,
  ledger_of, named, Reply, ledger_result, failed_result, committed_row, advance, commit, replay,
  publish,
}
use ab_bedd4c0e_tsig_bugfix.Storage.Publish.Writes.{
  IsOutcome, written, unwritten, interrupted, IsWritten, attempt-IsOutcome, attempt-IsWritten,
  settle-ok,
}

module _ (z : ZoneRow) (request_id : Text) (base_serial next_serial : ℕ) (fingerprint : Text)
    (ts : ℕ) (rrsets : List Rrset) (m : Database) where
  abbrev pub done : Database
  done = commit z request_id base_serial next_serial fingerprint ts rrsets m

  pub zone_after :
      (zone_name : Text)
      → fetchone (select (named zone_name) m.zones) ≡ some z
      → fetchone (select (named zone_name) done.zones) ≡ some (advance z next_serial ts rrsets z)
  unfolding enqueue_cleanup
  zone_after zone_name h =
      fetchone-update (named zone_name) (named z.name) (advance z next_serial ts rrsets) z m.zones
        (λ r. refl) (text_eq_refl z.name) h

  pub ledger_after :
      ledger_of m z.name request_id ≡ none
      → ledger_of done z.name request_id
        ≡ some (committed_row z request_id base_serial next_serial fingerprint ts)
  unfolding enqueue_cleanup
  ledger_after h =
      fetchone-append (has_request z.name request_id)
        (committed_row z request_id base_serial next_serial fingerprint ts) m.publish_requests h
        (rw (text_eq_refl z.name, text_eq_refl request_id) refl)

committed_or_failed : (s : RequestStatus) → (s ≡ committed) ⊎ (s ≡ failed)
committed_or_failed committed = inl refl
committed_or_failed failed = inr refl

failed_result-not_ok : (e : Option ApiError) (reply : Reply) → failed_result e ≢ ok reply
failed_result-not_ok none reply h = cc
failed_result-not_ok (some e) reply h = cc

ledger_result-replayed :
    (r : RequestRow) (reply : Reply)
    → ledger_result r ≡ ok reply
    → reply ≡ record reply { replayed = true }
unfolding ledger_result
ledger_result-replayed r reply h = elim (committed_or_failed r.status) [
  | inl e ↦ let same = ok-inj (rw e at h) in rw (sym same) refl
  | inr e ↦ absurd (failed_result-not_ok r.error reply (rw e at h))
]

-- An answer from the ledger says that it is one.
replay-replayed :
    (r : RequestRow) (fingerprint : Text) (reply : Reply)
    → replay r fingerprint ≡ ok reply
    → reply ≡ record reply { replayed = true }
replay-replayed r fingerprint reply h = elim (Bool-cases (text_eq r.fingerprint fingerprint)) [
  | inl e ↦ ledger_result-replayed r reply (rw e at h)
  | inr e ↦ cc (rw e at h)
]

module _ {V : Type 0} (canonical_rdata : Text → V → Text → Result Entry)
    (json_serial : Text → ℕ) where
  settle-failed :
      (db : Database) (z : ZoneRow) (request_id : Text) (base_serial next_serial : ℕ)
      (ops : List (Op V)) (fingerprint : Text) (ts : ℕ) (a : Database × Result Reply)
      (db' : Database) (e : ApiError)
      → IsOutcome canonical_rdata json_serial db z request_id base_serial next_serial ops
          fingerprint ts a
      → is_ledgerable e.code ≡ true
      → ledger_of db z.name request_id ≡ none
      → ◌≡◌ {A = Database × Result Reply}
          (settle db z.name request_id fingerprint base_serial next_serial ts a)
          (db', err (api e))
      → db'
        ≡ insert_ledger (failed_row z.name request_id fingerprint base_serial next_serial ts e) db
  settle-failed db z request_id base_serial next_serial ops fingerprint ts a db' e (written w) l k
        h =
      cc (ap (λ (p : Database × Result Reply). p.1) h)
  settle-failed db z request_id base_serial next_serial ops fingerprint ts a db' e interrupted l k
        h =
      cc (ap (λ (p : Database × Result Reply). p.1) h)
  settle-failed db z request_id base_serial next_serial ops fingerprint ts a db' e
        (unwritten {e = f}) l k h =
      let same : err f ≡ err (api e) = ap (λ (p : Database × Result Reply). p.1) h in
      let fault : f ≡ api e = cc in
      let absent = found-none (has_request z.name request_id) db.publish_requests k in
      sym (ap (λ (p : Database × Result Reply). p.0) h)
      ∙ ap (fail_or_rollback db db z.name request_id fingerprint base_serial next_serial ts) fault
      ∙ rw (l, absent) refl

  module _ (zone_name request_id : Text) (base_serial next_serial : ℕ) (ops : List (Op V))
      (fingerprint : Text) (ts base2 next2 : ℕ) (ops2 : List (Op V)) (ts2 : ℕ) where
    -- The second call, made after a commit.
    again_after_commit :
        (db : Database) (z : ZoneRow) (db' : Database) (reply : Reply)
        → fetchone (select (named zone_name) db.zones) ≡ some z
        → ledger_of db z.name request_id ≡ none
        → IsWritten canonical_rdata json_serial db z request_id base_serial next_serial ops
            fingerprint ts db' reply
        → publish canonical_rdata json_serial db' zone_name request_id base2 next2 ops2 fingerprint
            ts2
          ≡ (db', ok (record reply { replayed = true }))
    unfolding publish ledger_result materialize
    again_after_commit db z db' reply e k c =
        let zones =
          ap (λ (d : Database). fetchone (select (named zone_name) d.zones)) c.db_eq
          ∙ zone_after z request_id base_serial next_serial fingerprint ts c.rrsets _ zone_name e in
        let ledger =
          ap (λ (d : Database). ledger_of d z.name request_id) c.db_eq
          ∙ ledger_after z request_id base_serial next_serial fingerprint ts c.rrsets _ k in
        rw (zones, ledger, text_eq_refl fingerprint, c.reply_eq) refl

    -- The second call, made after an answer from the ledger.
    again_after_replay :
        (db : Database) (z : ZoneRow) (r : RequestRow) (db' : Database) (reply : Reply)
        → fetchone (select (named zone_name) db.zones) ≡ some z
        → ledger_of db z.name request_id ≡ some r
        → ◌≡◌ {A = Database × Result Reply} (db, replay r fingerprint) (db', ok reply)
        → publish canonical_rdata json_serial db' zone_name request_id base2 next2 ops2 fingerprint
            ts2
          ≡ (db', ok (record reply { replayed = true }))
    unfolding publish
    again_after_replay db z r db' reply e k h =
        let same = ap (λ (p : Database × Result Reply). p.0) h in
        let result = ap (λ (p : Database × Result Reply). p.1) h in
        rw (sym same) (rw (e, k, result, sym (replay-replayed r fingerprint reply result)) refl)

    -- A request that has succeeded, made again with the same content's fingerprint, gives the same
    -- version and serial, says that it is a replay, and changes nothing.
    pub publish_again :
        (db db' : Database) (reply : Reply)
        → publish canonical_rdata json_serial db zone_name request_id base_serial next_serial ops
            fingerprint ts
          ≡ (db', ok reply)
        → publish canonical_rdata json_serial db' zone_name request_id base2 next2 ops2 fingerprint
            ts2
          ≡ (db', ok (record reply { replayed = true }))
    unfolding publish
    publish_again db db' reply h =
        elim (Option-cases (fetchone (select (named zone_name) db.zones))) [
          | inl e ↦ cc (rw e at h)
          | inr (z, e) ↦ elim (Option-cases (ledger_of db z.name request_id)) [
            | inl k ↦ again_after_commit db z db' reply e k (
                attempt-IsWritten canonical_rdata json_serial db z request_id base_serial
                  next_serial ops fingerprint ts db' reply
                  (settle-ok db z.name request_id fingerprint base_serial next_serial ts _ db' reply
                    (rw (e, k) at h)))
            | inr (r, k) ↦ again_after_replay db z r db' reply e k (rw (e, k) at h)
          ]
        ]

    -- A new request that fails for a reason that the ledger keeps, made again with the same content's
    -- fingerprint, gives the same error, marked as a replay, and changes nothing.
    pub publish_fails_again :
        (db db' : Database) (z : ZoneRow) (e : ApiError)
        → publish canonical_rdata json_serial db zone_name request_id base_serial next_serial ops
            fingerprint ts
          ≡ (db', err (api e))
        → fetchone (select (named zone_name) db.zones) ≡ some z
        → ledger_of db z.name request_id ≡ none
        → is_ledgerable e.code ≡ true
        → publish canonical_rdata json_serial db' zone_name request_id base2 next2 ops2 fingerprint
            ts2
          ≡ (db', err (api (replayed_error e)))
    unfolding publish ledger_result
    publish_fails_again db db' z e h i k l =
        let same =
          settle-failed db z request_id base_serial next_serial ops fingerprint ts _ db' e
            (attempt-IsOutcome canonical_rdata json_serial db z request_id base_serial next_serial
              ops fingerprint ts)
            l k (rw (i, k) at h) in
        rw same (
          rw
            (
              i,
              fetchone-append (has_request z.name request_id)
                  (failed_row z.name request_id fingerprint base_serial next_serial ts e)
                  db.publish_requests k (rw (text_eq_refl z.name, text_eq_refl request_id) refl),
              text_eq_refl fingerprint,
            )
            refl)
