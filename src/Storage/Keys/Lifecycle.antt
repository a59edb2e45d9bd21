-- ===== src/Storage/Keys/Lifecycle.antt =====
-- `install_key` and `revoke_key` as steps of the view of the key table, and what the steps keep.
use ab_bedd4c0e_tsig_bugfix.Prelude.{
  ℕ, ◌≡◌, refl, sym, ap, ◌∙◌, Bool, true, false, ◌&&◌, Option, none, some, List, [], ◌∷◌, ◌++◌,
  arith, Bool-cases, inl, inr, if◌then◌else◌,
}
use ab_bedd4c0e_tsig_bugfix.Errors.{ok, ok-inj, >>=-eq-ok, raise_if->>-eq-ok}
use ab_bedd4c0e_tsig_bugfix.Text.{Text, Bytes, text_eq}
use ab_bedd4c0e_tsig_bugfix.Text.Laws.{text_eq→eq}
use ab_bedd4c0e_tsig_bugfix.Storage.Tables.{
  Database, KeyRow, KeyState, active, retiring, revoked, select, update, fetchone, found,
  get_zone_row,
}
use ab_bedd4c0e_tsig_bugfix.Storage.Keys.{
  is_active, is_revoked, active_in, has_id, new_key, retire, revoke, of_key_row, install_key,
  revoke_key,
}
use ab_bedd4c0e_tsig_bugfix.Storage.Keys.Rotation.{installed}
use ab_bedd4c0e_tsig_bugfix.Storage.Keys.View.{
  View, state_of_row, state_in, view, retired, Step, stays, installs, revokes,
}

&&-left : (a b : Bool) → (a && b) ≡ true → a ≡ true
&&-left a b e = ground arith

&&-right : (a b : Bool) → (a && b) ≡ true → b ≡ true
&&-right a b e = ground arith

has_id-zone : (z i : Text) (k : KeyRow) → has_id z i k ≡ true → k.zone ≡ z
has_id-zone z i k h = text_eq→eq k.zone z (&&-left _ _ h)

-- The state of a row that is retired where it is ACTIVE.
retire-state :
    (a : Bool) (e : ℕ) (k : KeyRow) (s : KeyState)
    → k.state ≡ s
    → (if a && is_active k.state then retire e k else k).state
      ≡ (if a then (if is_active s then retiring else s) else s)
retire-state true e k active h = rw h refl
retire-state true e k retiring h = rw h refl
retire-state true e k revoked h = rw h refl
retire-state false e k s h = h

retired-eq : (s : KeyState) → some (if is_active s then retiring else s) ≡ retired (some s)
retired-eq active = refl
retired-eq retiring = refl
retired-eq revoked = refl

retire-has_id :
    (z i : Text) (b : Bool) (e : ℕ) (k : KeyRow)
    → has_id z i (if b then retire e k else k) ≡ has_id z i k
retire-has_id z i true e k = refl
retire-has_id z i false e k = refl

state_in-retire :
    (zone z i : Text) (e : ℕ) (ks : List KeyRow)
    → state_in (update (active_in zone) (retire e) ks) z i
      ≡ (if text_eq z zone then retired (state_in ks z i) else state_in ks z i)
unfolding select update
state_in-retire zone z i e [] = elim (Bool-cases (text_eq z zone)) [
  | inl a ↦ rw a refl
  | inr a ↦ rw a refl
]
state_in-retire zone z i e (k ∷ ks) = elim (Bool-cases (has_id z i k)) [
  | inl h ↦
      rw (retire-has_id z i (active_in zone k) e k, h)
        (ap (λ s. some s) (retire-state (text_eq k.zone zone) e k k.state refl)
          ∙ rw (has_id-zone z i k h) (choose (text_eq z zone) k.state))
  | inr h ↦ rw (retire-has_id z i (active_in zone k) e k, h) (state_in-retire zone z i e ks)
]
  where
    choose :
        (a : Bool) (s : KeyState)
        → ◌≡◌ {A = Option KeyState}
            (some (if a then (if is_active s then retiring else s) else s))
            (if a then retired (some s) else some s)
    choose true s = retired-eq s
    choose false s = refl

-- The row that is added is found where no other is.
state_in-append :
    (z i : Text) (ks : List KeyRow) (k : KeyRow)
    → (state_in ks z i ≡ none → has_id z i k ≡ false → state_in (ks ++ k ∷ []) z i ≡ none)
      × (state_in ks z i ≡ none → has_id z i k ≡ true → state_in (ks ++ k ∷ []) z i ≡ some k.state)
      × (has_id z i k ≡ false → state_in (ks ++ k ∷ []) z i ≡ state_in ks z i)
unfolding select
state_in-append z i [] k = (λ n h. rw h refl, λ n h. rw h refl, λ h. rw h refl)
state_in-append z i (r ∷ rs) k = elim (Bool-cases (has_id z i r)) [
  | inl e ↦ rw e (λ n h. cc, λ n h. cc, λ h. refl)
  | inr e ↦ rw e (state_in-append z i rs k)
]

found-state_in :
    (z i : Text) (ks : List KeyRow)
    → found (select (has_id z i) ks) ≡ false
    → state_in ks z i ≡ none
found-state_in z i ks h = by_rows (select (has_id z i) ks) h
  where
    by_rows : (rs : List KeyRow) → found rs ≡ false → state_of_row (fetchone rs) ≡ none
    by_rows [] h = refl
    by_rows (r ∷ rs) h = cc

text_eq_sym : (a b : Text) → text_eq a b ≡ text_eq b a
unfolding text_eq
text_eq_sym [] [] = refl
text_eq_sym [] (b ∷ t) = refl
text_eq_sym (a ∷ s) [] = refl
text_eq_sym (a ∷ s) (b ∷ t) = ground (arith, text_eq_sym s t)

-- The state after an installation, by whether the zone and the id are the new key's.
installed_state :
    (zone key_id z i : Text) (e gen ts : ℕ) (name : Text) (secret : Bytes) (ks : List KeyRow)
    (a b : Bool)
    → text_eq z zone ≡ a
    → text_eq i key_id ≡ b
    → state_in ks zone key_id ≡ none
    → state_in
        (update (active_in zone) (retire e) ks ++ new_key zone key_id gen name secret ts ∷ [])
        z
        i
      ≡ (if a then if b then some active else retired (state_in ks z i) else state_in ks z i)
installed_state zone key_id z i e gen ts name secret ks true true ha hb fresh =
    let (_, hit, _) =
      state_in-append z i (update (active_in zone) (retire e) ks)
        (new_key zone key_id gen name secret ts) in
    let same_zone = text_eq→eq z zone ha in
    let same_id = text_eq→eq i key_id hb in
    hit (state_in-retire zone z i e ks ∙ rw (ha, same_zone, same_id, fresh) refl)
      (rw (text_eq_sym zone z, ha, text_eq_sym key_id i, hb) refl)
installed_state zone key_id z i e gen ts name secret ks true false ha hb fresh =
    let (_, _, miss) =
      state_in-append z i (update (active_in zone) (retire e) ks)
        (new_key zone key_id gen name secret ts) in
    miss (rw (text_eq_sym zone z, ha, text_eq_sym key_id i, hb) refl)
    ∙ state_in-retire zone z i e ks
    ∙ rw ha refl
installed_state zone key_id z i e gen ts name secret ks false b ha hb fresh =
    let (_, _, miss) =
      state_in-append z i (update (active_in zone) (retire e) ks)
        (new_key zone key_id gen name secret ts) in
    miss (rw (text_eq_sym zone z, ha) refl) ∙ state_in-retire zone z i e ks ∙ rw ha refl

-- An installation is a step of the view: the new id is ACTIVE, what was ACTIVE in the zone is
-- RETIRING, and all else is as before.
pub install_key-Step :
    (db : Database) (zone key_id : Text) (key_name : Option Text) (expires_at : Option ℕ)
    (secret : Bytes) (ts : ℕ) (db' : Database) (key : KeyRow)
    → install_key db zone key_id key_name expires_at secret ts ≡ ok (db', key)
    → Step (view db) (view db')
install_key-Step db zone key_id key_name expires_at secret ts db' key h =
    let d = installed db zone key_id key_name expires_at secret ts db' key h in
    let fresh = found-state_in zone key_id db.keys d.id_free in
    installs zone key_id fresh λ z i.
      rw (d.db_eq, d.key_eq)
        (installed_state zone key_id z i _ _ ts _ secret db.keys (text_eq z zone) (text_eq i key_id)
          refl refl fresh)

has_id-id : (z i : Text) (k : KeyRow) → has_id z i k ≡ true → k.key_id ≡ i
has_id-id z i k h = text_eq→eq k.key_id i (&&-right _ _ h)

state_in-revoke_other :
    (zone key_id z i : Text) (ts : ℕ) (ks : List KeyRow)
    → (text_eq z zone && text_eq i key_id) ≡ false
    → state_in (update (has_id zone key_id) (revoke ts) ks) z i ≡ state_in ks z i
unfolding select update
state_in-revoke_other zone key_id z i ts [] o = refl
state_in-revoke_other zone key_id z i ts (k ∷ ks) o = elim (Bool-cases (has_id z i k)) [
  | inl h ↦
      let apart : has_id zone key_id k ≡ false = rw (has_id-zone z i k h, has_id-id z i k h) o in
      rw (apart, h) refl
  | inr h ↦ elim (Bool-cases (has_id zone key_id k)) [
    | inl j ↦ rw (j, h) (state_in-revoke_other zone key_id z i ts ks o)
    | inr j ↦ rw (j, h) (state_in-revoke_other zone key_id z i ts ks o)
  ]
]

state_in-revoke :
    (zone key_id : Text) (ts : ℕ) (s : KeyState) (ks : List KeyRow)
    → state_in ks zone key_id ≡ some s
    → state_in (update (has_id zone key_id) (revoke ts) ks) zone key_id ≡ some revoked
unfolding select update
state_in-revoke zone key_id ts s [] h = cc
state_in-revoke zone key_id ts s (k ∷ ks) h = elim (Bool-cases (has_id zone key_id k)) [
  | inl e ↦ rw e (rw e refl)
  | inr e ↦ rw (e, e) (state_in-revoke zone key_id ts s ks (rw e at h))
]

revoked_state :
    (zone key_id z i : Text) (ts : ℕ) (s : KeyState) (ks : List KeyRow) (c : Bool)
    → (text_eq z zone && text_eq i key_id) ≡ c
    → state_in ks zone key_id ≡ some s
    → state_in (update (has_id zone key_id) (revoke ts) ks) z i
      ≡ (if c then some revoked else state_in ks z i)
revoked_state zone key_id z i ts s ks false o h = state_in-revoke_other zone key_id z i ts ks o
revoked_state zone key_id z i ts s ks true o h =
    let same_zone = text_eq→eq z zone (&&-left _ _ o) in
    let same_id = text_eq→eq i key_id (&&-right _ _ o) in
    rw (same_zone, same_id) (state_in-revoke zone key_id ts s ks h)

of_key_row-ok : (o : Option KeyRow) (k : KeyRow) → of_key_row o ≡ ok k → o ≡ some k
of_key_row-ok none k h = cc
of_key_row-ok (some j) k h = cc

-- A revocation is a step of the view: the id, which was not REVOKED, is REVOKED, and all else is as
-- before.
pub revoke_key-Step :
    (db : Database) (zone key_id : Text) (ts : ℕ) (db' : Database)
    → revoke_key db zone key_id ts ≡ ok db'
    → Step (view db) (view db')
unfolding revoke_key
revoke_key-Step db zone key_id ts db' h =
    let (z0, e0, h0) = >>=-eq-ok (get_zone_row db zone) _ h in
    let (row, e1, h1) =
      >>=-eq-ok (of_key_row (fetchone (select (has_id zone key_id) db.keys))) _ h0 in
    let (live, h2) = raise_if->>-eq-ok (is_revoked row.state) _ _ h1 in
    let there = ap state_of_row (of_key_row-ok _ row e1) in
    revokes zone key_id row.state there live λ z i. rw (sym (ok-inj h2)) (
      revoked_state zone key_id z i ts row.state db.keys (text_eq z zone && text_eq i key_id) refl
        there)

-- A REVOKED id stays REVOKED in every step.
pub Step-revoked :
    (v w : View) (z i : Text) → Step v w → v z i ≡ some revoked → w z i ≡ some revoked
Step-revoked v w z i (stays e) h = e z i ∙ h
Step-revoked v w z i (installs zone key_id fresh e) h =
    e z i ∙ kept (text_eq z zone) (text_eq i key_id) refl refl
  where
    kept :
        (a b : Bool)
        → text_eq z zone ≡ a
        → text_eq i key_id ≡ b
        → (if a then if b then some active else retired (v z i) else v z i) ≡ some revoked
    kept true true ha hb =
        let e1 = text_eq→eq z zone ha in
        let e2 = text_eq→eq i key_id hb in
        let k : v zone key_id ≡ some revoked = rw (e1, e2) at h in cc
    kept true false ha hb = rw h refl
    kept false b ha hb = h
Step-revoked v w z i (revokes zone key_id s there live e) h =
    e z i ∙ kept (text_eq z zone && text_eq i key_id)
  where
    kept : (c : Bool) → (if c then some revoked else v z i) ≡ some revoked
    kept true = refl
    kept false = h
