-- ===== src/Server/Access/Granted.antt =====
-- What a granted transfer shows.
use ab_bedd4c0e_tsig_bugfix.Prelude.{
  ℕ, ◌≡◌, refl, sym, ap, ◌∙◌, Bool, true, false, not, Option, none, some, List, [], ◌∷◌, ltb,
  length, Bool-cases, inl, inr,
}
use ab_bedd4c0e_tsig_bugfix.Errors.{Result, ok, >>=-eq-ok, ok-inj, raise_if->>-eq-ok}
use ab_bedd4c0e_tsig_bugfix.Text.{Text, Bytes, text_eq}
use ab_bedd4c0e_tsig_bugfix.Text.Laws.{text_eq→eq}
use ab_bedd4c0e_tsig_bugfix.Storage.Tables.{Database, ZoneRow, KeyRow, select, fetchone}
use ab_bedd4c0e_tsig_bugfix.Storage.Tables.Laws.{IsIn, here, there, select-IsIn}
use ab_bedd4c0e_tsig_bugfix.Storage.Transfers.{pin_transfer}
use ab_bedd4c0e_tsig_bugfix.Wire.Tsig.{verify_tsig_time}
use ab_bedd4c0e_tsig_bugfix.Wire.Query.{Tsig, Query}
use ab_bedd4c0e_tsig_bugfix.Wire.Mac.{expected_request_mac}
use ab_bedd4c0e_tsig_bugfix.Server.Access.{
  Mode, Plan, has_name, is_live, is_usable, newest, pick_usable, check_time, pick_live,
  resolve_in_tx, of_tsig, of_zone, offset_or, decide, authorize_transfer,
}

newest-IsIn : (best : KeyRow) (ks : List KeyRow) → IsIn (newest best ks) (best ∷ ks)
unfolding newest
newest-IsIn best [] = here refl
newest-IsIn best (k ∷ ks) = elim (Bool-cases (ltb best.gen k.gen)) [
  | inl e ↦ rw e (there (newest-IsIn k ks))
  | inr e ↦ rw e (skip (newest-IsIn best ks))
]
  where
    skip : {a : KeyRow} → IsIn a (best ∷ ks) → IsIn a (best ∷ k ∷ ks)
    skip (here e) = here e
    skip (there m) = there (there m)

-- The key that a query is checked under.
pub record IsResolved (db : Database) (zone : Text) (t : Tsig) (now : ℕ) (key : KeyRow)
    : Type 0 where
  pub is_key : IsIn key db.keys
  pub of_name : has_name zone t.name key ≡ true
  pub live : is_live key ≡ true
  pub usable : is_usable now key ≡ true
  pub in_time : verify_tsig_time t.time t.fudge now ≡ true

pick_usable-IsIn : (ks : List KeyRow) (key : KeyRow) → pick_usable ks ≡ ok key → IsIn key ks
pick_usable-IsIn [] key h = cc
pick_usable-IsIn (k ∷ ks) key h = let e : newest k ks ≡ key = cc in rw (sym e) (newest-IsIn k ks)

check_time-IsIn :
    (t : Tsig) (now : ℕ) (ks : List KeyRow) (key : KeyRow)
    → check_time t now ks ≡ ok key
    → (verify_tsig_time t.time t.fudge now ≡ true) × IsIn key (select (is_usable now) ks)
check_time-IsIn t now ks key h = elim (Bool-cases (verify_tsig_time t.time t.fudge now)) [
  | inl e ↦ (e, pick_usable-IsIn _ key (rw e at h))
  | inr e ↦ cc (rw e at h)
]

pick_live-IsIn :
    (t : Tsig) (now : ℕ) (ks : List KeyRow) (key : KeyRow)
    → pick_live t now ks ≡ ok key
    → (verify_tsig_time t.time t.fudge now ≡ true) × IsIn key (select (is_usable now) ks)
pick_live-IsIn t now [] key h = cc
pick_live-IsIn t now (k ∷ ks) key h = check_time-IsIn t now (k ∷ ks) key h

-- Whatever key is chosen is one of the zone's with the query's name that is neither REVOKED nor
-- expired, and the query is in time.
pub resolve_in_tx-IsResolved :
    (db : Database) (zone : Text) (t : Tsig) (now : ℕ) (key : KeyRow)
    → resolve_in_tx db zone t now ≡ ok key
    → IsResolved db zone t now key
unfolding resolve_in_tx
resolve_in_tx-IsResolved db zone t now key h =
    let (time, m) =
      pick_live-IsIn t now (select is_live (select (has_name zone t.name) db.keys)) key h in
    let (m1, u) = select-IsIn (is_usable now) key _ m in
    let (m2, l) = select-IsIn is_live key _ m1 in
    let (m3, n) = select-IsIn (has_name zone t.name) key _ m2 in
    record { is_key = m3; of_name = n; live = l; usable = u; in_time = time }

-- What was checked before a plan was given.
pub record IsGranted (hmac : Bytes → Bytes → Bytes) (now ts : ℕ) (instance_id ref_id : Text)
    (db : Database) (q : Query) (db' : Database) (plan : Plan) : Type 0 where
  pub entry : Tsig
  pub key : KeyRow
  pub tsig_eq : q.tsig ≡ some entry
  pub zone_eq : plan.zone ≡ q.qname
  pub resolved : IsResolved db q.qname entry now key
  pub mac_eq :
      expected_request_mac hmac key.secret q entry (offset_or q.tsig_offset (length q.raw))
      ≡ ok entry.mac
  pub secret_eq : plan.secret ≡ key.secret
  pub ref_eq : plan.ref_id ≡ ref_id
  pub db_eq :
      db'
      ≡ pin_transfer db plan.zone instance_id plan.target_version plan.min_version key.gen ref_id ts

of_tsig-ok : (o : Option Tsig) (t : Tsig) → of_tsig o ≡ ok t → o ≡ some t
of_tsig-ok none t h = cc
of_tsig-ok (some u) t h = cc

of_zone-ok : (o : Option ZoneRow) (z : ZoneRow) → of_zone o ≡ ok z → o ≡ some z
of_zone-ok none z h = cc
of_zone-ok (some u) z h = cc

fetchone-name :
    (name : Text) (zs : List ZoneRow) (z : ZoneRow)
    → fetchone (select (λ (r : ZoneRow). text_eq r.name name) zs) ≡ some z
    → z.name ≡ name
unfolding select
fetchone-name name [] z h = cc
fetchone-name name (r ∷ zs) z h = elim (Bool-cases (text_eq r.name name)) [
  | inl e ↦
      let i : r ≡ z = cc (rw e at h) in
      sym (ap (λ (w : ZoneRow). w.name) i) ∙ text_eq→eq r.name name e
  | inr e ↦ fetchone-name name zs z (rw e at h)
]

cast_zone :
    (db : Database) (t : Tsig) (now : ℕ) (key : KeyRow) (a b : Text)
    → a ≡ b
    → IsResolved db a t now key
    → IsResolved db b t now key
cast_zone db t now key a b e r = rw (sym e) r

-- The plan with these parts.
abbrev pub plan_of : ZoneRow → Text → Bytes → ℕ → Text → Option Mode → ℕ → Plan
plan_of z key_name secret qid ref_id mode min_version = record {
  mode = mode;
  zone = z.name;
  target_version = z.current_version;
  target_serial = z.current_serial;
  min_version = min_version;
  ref_id = ref_id;
  key_name = key_name;
  secret = secret;
  qid = qid;
}

outcome :
    (db : Database) (z : ZoneRow) (key : KeyRow) (name : Text) (qid low ts : ℕ) (mode : Option Mode)
    (instance_id ref_id : Text) (db' : Database) (plan : Plan)
    → ◌≡◌ {A = Result (Database × Plan)}
        (ok (
          pin_transfer db z.name instance_id z.current_version low key.gen ref_id ts,
          plan_of z name key.secret qid ref_id mode low,
        ))
        (ok (db', plan))
    → (plan.zone ≡ z.name)
      × (plan.secret ≡ key.secret)
      × (plan.ref_id ≡ ref_id)
      × (db'
          ≡ pin_transfer db plan.zone instance_id plan.target_version plan.min_version key.gen
              ref_id ts)
outcome db z key name qid low ts mode instance_id ref_id db' plan h =
    let pair = ok-inj h in
    (
      sym (ap (λ (p : Database × Plan). p.1.zone) pair),
      sym (ap (λ (p : Database × Plan). p.1.secret) pair),
      sym (ap (λ (p : Database × Plan). p.1.ref_id) pair),
      sym (ap (λ (p : Database × Plan). p.0) pair)
          ∙ ap
              (λ (p : Database × Plan).
                pin_transfer db p.1.zone instance_id p.1.target_version p.1.min_version key.gen
                  ref_id ts)
              pair,
    )

-- A transfer is granted only on a TSIG record, within its time, whose MAC is the one that a key of the
-- zone with its name gives for the query, where the key is neither REVOKED nor expired; the plan
-- carries that key's secret, and the database is changed by the pin of the transfer alone.
pub authorize_transfer-IsGranted :
    (hmac : Bytes → Bytes → Bytes) (now ts : ℕ) (instance_id ref_id : Text) (db : Database)
    (q : Query) (db' : Database) (plan : Plan)
    → authorize_transfer hmac now ts instance_id ref_id db q ≡ ok (db', plan)
    → IsGranted hmac now ts instance_id ref_id db q db' plan
unfolding authorize_transfer
authorize_transfer-IsGranted hmac now ts instance_id ref_id db q db' plan h =
    let (t, e1, h1) = >>=-eq-ok (of_tsig q.tsig) _ h in
    let (z, e2, h2) =
      >>=-eq-ok (of_zone (fetchone (select (λ (r : ZoneRow). text_eq r.name q.qname) db.zones))) _
        h1 in
    let (key, e3, h3) = >>=-eq-ok (resolve_in_tx db z.name t now) _ h2 in
    let (mac, e4, h4) =
      >>=-eq-ok (expected_request_mac hmac key.secret q t (offset_or q.tsig_offset (length q.raw)))
        _ h3 in
    let (e5, h5) = raise_if->>-eq-ok (not (text_eq mac t.mac)) _ _ h4 in
    let ((mode, low), e6, h6) = >>=-eq-ok (decide db z q) _ h5 in
    let (same_zone, same_secret, same_ref, same_db) =
      outcome db z key t.name q.id low ts mode instance_id ref_id db' plan h6 in
    let name = fetchone-name q.qname db.zones z (of_zone-ok _ z e2) in
    record {
      entry = t;
      key = key;
      tsig_eq = of_tsig-ok q.tsig t e1;
      zone_eq = same_zone ∙ name;
      resolved =
          cast_zone db t now key z.name q.qname name
            (resolve_in_tx-IsResolved db z.name t now key e3);
      mac_eq =
          e4 ∙ ap (λ (m : Bytes). ok m) (text_eq→eq mac t.mac (not-false (text_eq mac t.mac) e5));
      secret_eq = same_secret;
      ref_eq = same_ref;
      db_eq = same_db;
    }
  where
    not-false : (b : Bool) → not b ≡ false → b ≡ true
    not-false true e = refl
    not-false false e = cc
