-- ===== src/Server/Access/Secondary.antt =====
-- From the client's signed query to the granted transfer.
use ab_bedd4c0e_tsig_bugfix.Prelude.{ℕ, ◌%◌, ◌^◌, ◌≡◌, refl, ap, ◌∙◌, true, Option, some, [], ◌∷◌}
use ab_bedd4c0e_tsig_bugfix.Errors.{ok}
use ab_bedd4c0e_tsig_bugfix.Text.{Text, Bytes, text_eq}
use ab_bedd4c0e_tsig_bugfix.Text.Laws.{text_eq_refl}
use ab_bedd4c0e_tsig_bugfix.Storage.Tables.{Database, ZoneRow, KeyRow, select, fetchone}
use ab_bedd4c0e_tsig_bugfix.Storage.Transfers.{pin_transfer}
use ab_bedd4c0e_tsig_bugfix.Wire.Names.RoundTrip.{normal}
use ab_bedd4c0e_tsig_bugfix.Wire.Tsig.{type_axfr, verify_tsig_time}
use ab_bedd4c0e_tsig_bugfix.Wire.Query.{Tsig, Query, parse_query}
use ab_bedd4c0e_tsig_bugfix.Wire.Mac.{expected_request_mac}
use ab_bedd4c0e_tsig_bugfix.Client.{build_tsig_query}
use ab_bedd4c0e_tsig_bugfix.Client.Authority.{authority_of}
use ab_bedd4c0e_tsig_bugfix.Client.Accepted.{IsAccepted, signed_query-IsAccepted}
use ab_bedd4c0e_tsig_bugfix.Server.Access.Granted.{plan_of}
use ab_bedd4c0e_tsig_bugfix.Server.Access.{
  Mode, axfr, Plan, has_name, is_live, is_usable, newest, pick_live, resolve_in_tx, decide,
  authorize_transfer,
}

module _ (hmac : Bytes → Bytes → Bytes) (now ts : ℕ) (instance_id ref_id : Text)
    (db : Database) where
  plan_eq :
      (z : ZoneRow) (a b : Text) (s u : Bytes) (i j : ℕ)
      → a ≡ b
      → s ≡ u
      → i ≡ j
      → plan_of z a s i ref_id (some axfr) z.current_version
        ≡ plan_of z b u j ref_id (some axfr) z.current_version
  plan_eq z a b s u i j e1 e2 e3 = rw (e1, e2, e3) refl

  authorize_transfer-run :
      (q : Query) (t : Tsig) (z : ZoneRow) (key : KeyRow) (off : ℕ) (mode : Option Mode) (low : ℕ)
      → q.tsig ≡ some t
      → q.tsig_offset ≡ some off
      → fetchone (select (λ (r : ZoneRow). text_eq r.name q.qname) db.zones) ≡ some z
      → resolve_in_tx db z.name t now ≡ ok key
      → expected_request_mac hmac key.secret q t off ≡ ok t.mac
      → decide db z q ≡ ok (mode, low)
      → authorize_transfer hmac now ts instance_id ref_id db q
        ≡ ok (
          pin_transfer db z.name instance_id z.current_version low key.gen ref_id ts,
          plan_of z t.name key.secret q.id ref_id mode low,
        )
  unfolding authorize_transfer expected_request_mac pin_transfer decide
  authorize_transfer-run q t z key off mode low e1 e2 e3 e4 e5 e6 =
      rw (e1, e2, e3, e4, e5, text_eq_refl t.mac, e6) refl

  pick_live-only :
      (t : Tsig) (key : KeyRow)
      → is_usable now key ≡ true
      → verify_tsig_time t.time t.fudge now ≡ true
      → pick_live t now (key ∷ []) ≡ ok key
  unfolding select newest
  pick_live-only t key e4 e5 = rw (e5, e4) refl

  resolve_in_tx-only :
      (zone : Text) (t : Tsig) (key : KeyRow)
      → select is_live (select (has_name zone t.name) db.keys) ≡ key ∷ []
      → is_usable now key ≡ true
      → verify_tsig_time t.time t.fudge now ≡ true
      → resolve_in_tx db zone t now ≡ ok key
  unfolding resolve_in_tx
  resolve_in_tx-only zone t key e3 e4 e5 = rw e3 (pick_live-only t key e4 e5)

  decide-axfr :
      (z : ZoneRow) (q : Query)
      → q.qtype ≡ type_axfr
      → decide db z q ≡ ok (some axfr, z.current_version)
  unfolding decide
  decide-axfr z q e = rw e refl

  granted :
      (qid : ℕ) (qname key_name : Text) (secret : Bytes) (when fudge : ℕ) (serial : Option ℕ)
      (msg : Bytes) (z : ZoneRow) (key : KeyRow)
      (acc : IsAccepted hmac qid qname type_axfr key_name secret when fudge serial msg)
      → fetchone (select (λ (r : ZoneRow). text_eq r.name (normal qname)) db.zones) ≡ some z
      → select is_live (select (has_name z.name (normal key_name)) db.keys) ≡ key ∷ []
      → is_usable now key ≡ true
      → key.secret ≡ secret
      → verify_tsig_time (when % 2 ^ 48) fudge now ≡ true
      → authorize_transfer hmac now ts instance_id ref_id db acc.query
        ≡ ok (
          pin_transfer db z.name instance_id z.current_version z.current_version key.gen ref_id ts,
          plan_of z (normal key_name) secret qid ref_id (some axfr) z.current_version,
        )
  granted qid qname key_name secret when fudge serial msg z key acc e1 e2 e3 e4 e5 =
      authorize_transfer-run acc.query acc.entry z key acc.offset (some axfr) z.current_version
        acc.tsig_eq acc.offset_eq (rw acc.qname_eq e1)
        (resolve_in_tx-only z.name acc.entry key (rw acc.name_eq e2) e3
          (rw (acc.time_eq, acc.fudge_eq) e5))
        (rw e4 acc.mac_eq) (decide-axfr z acc.query acc.qtype_eq)
      ∙ ap
          (λ (p : Plan). ok (
            pin_transfer db z.name instance_id z.current_version z.current_version key.gen ref_id
                ts,
            p,
          ))
          (plan_eq z acc.entry.name (normal key_name) key.secret secret acc.query.id qid acc.name_eq
            e4 acc.id_eq)

  -- If the zone is there, the key's name has one live key, which is usable and carries the client's
  -- secret, and the query is in time, then the AXFR query that the client builds and signs, with no
  -- authority record or with the SOA record of its serial, is parsed and granted, whatever the
  -- digest function: the plan is for the zone's current version, which is pinned.
  pub signed_axfr_granted :
      (qid : ℕ) (qname key_name : Text) (secret : Bytes) (when fudge : ℕ) (serial : Option ℕ)
      (auth msg : Bytes) (z : ZoneRow) (key : KeyRow)
      → authority_of qname serial ≡ ok auth
      → build_tsig_query hmac qid qname type_axfr key_name secret when fudge auth ≡ ok msg
      → fetchone (select (λ (r : ZoneRow). text_eq r.name (normal qname)) db.zones) ≡ some z
      → select is_live (select (has_name z.name (normal key_name)) db.keys) ≡ key ∷ []
      → is_usable now key ≡ true
      → key.secret ≡ secret
      → verify_tsig_time (when % 2 ^ 48) fudge now ≡ true
      → (q : Query) × (parse_query msg ≡ ok q)
        × (authorize_transfer hmac now ts instance_id ref_id db q
            ≡ ok (
              pin_transfer db z.name instance_id z.current_version z.current_version key.gen ref_id
                  ts,
              plan_of z (normal key_name) secret qid ref_id (some axfr) z.current_version,
            ))
  signed_axfr_granted qid qname key_name secret when fudge serial auth msg z key a h e1 e2 e3 e4
        e5 =
      let acc =
        signed_query-IsAccepted hmac qid qname type_axfr key_name secret when fudge serial auth msg
          a h in
      (
        acc.query,
        acc.is_parsed,
        granted qid qname key_name secret when fudge serial msg z key acc e1 e2 e3 e4 e5,
      )
