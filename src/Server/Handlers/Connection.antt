-- ===== src/Server/Handlers/Connection.antt =====
-- What a connection does to the database, and what a denied transfer is answered with.
use ab_bedd4c0e_tsig_bugfix.Prelude.{
  ℕ, ◌≡◌, inl, inr, refl, ap, ◌∙◌, Bool, none, some, List, [], ◌∷◌, ◌++◌, if◌then◌else◌, Bool-cases,
  append-nil,
}
use ab_bedd4c0e_tsig_bugfix.Errors.{wire_error, denied, Result, ok, err}
use ab_bedd4c0e_tsig_bugfix.Text.{Text, Bytes}
use ab_bedd4c0e_tsig_bugfix.Text.Laws.{text_eq_refl}
use ab_bedd4c0e_tsig_bugfix.Storage.Tables.{Database, RefRow, is_open, is_done, select, update}
use ab_bedd4c0e_tsig_bugfix.Storage.Tables.Laws.{select-append}
use ab_bedd4c0e_tsig_bugfix.Storage.Cleanup.{open_ref}
use ab_bedd4c0e_tsig_bugfix.Storage.Transfers.{has_ref, pin_transfer, release_transfer}
use ab_bedd4c0e_tsig_bugfix.Wire.Query.{Query, parse_query}
use ab_bedd4c0e_tsig_bugfix.Server.Access.{Plan, authorize_transfer}
use ab_bedd4c0e_tsig_bugfix.Server.Access.Granted.{authorize_transfer-IsGranted}
use ab_bedd4c0e_tsig_bugfix.Server.Socket.{Arrival, Received, read_message}
use ab_bedd4c0e_tsig_bugfix.Server.Handlers.{
  is_transfer_type, granted, tcp_parsed, tcp_message, tcp_handle,
}

-- The tables are as before, but for rows of pins that are not open.
abbrev pub HasSameOpenPins : Database → Database → Type 0
HasSameOpenPins db db' =
    (refs : List RefRow) × (db' ≡ record db { transfer_refs = refs })
    × (select open_ref refs ≡ select open_ref db.transfer_refs)

-- Rows without that reference stay as they are.
update-none :
    (ref_id : Text) (f : RefRow → RefRow) (rs : List RefRow)
    → select (has_ref ref_id) rs ≡ []
    → update (has_ref ref_id) f rs ≡ rs
unfolding select update
update-none ref_id f [] h = refl
update-none ref_id f (r ∷ rs) h = elim (Bool-cases (has_ref ref_id r)) [
  | inl e ↦ cc (rw e at h)
  | inr e ↦ rw e (ap (λ t. r ∷ t) (update-none ref_id f rs (rw e at h)))
]

update-append :
    (q : RefRow → Bool) (f : RefRow → RefRow) (rs ss : List RefRow)
    → update q f (rs ++ ss) ≡ update q f rs ++ update q f ss
unfolding update
update-append q f [] ss = refl
update-append q f (r ∷ rs) ss = ap (λ t. (if q r then f r else r) ∷ t) (update-append q f rs ss)

-- A pin that is released at once.
pin-release :
    (db : Database) (zone instance_id ref_id : Text) (target low gen ts ts' : ℕ)
    → select (has_ref ref_id) db.transfer_refs ≡ []
    → HasSameOpenPins db
        (release_transfer (pin_transfer db zone instance_id target low gen ref_id ts) ref_id ts')
unfolding pin_transfer release_transfer select update
pin-release db zone instance_id ref_id target low gen ts ts' h = (_, refl, open_pins)
  where
    pin : RefRow
    pin = record {
      ref_id = ref_id;
      zone = zone;
      instance_id = instance_id;
      version_id = target;
      min_version = low;
      key_gen = gen;
      started_at = ts;
      last_seen = ts;
      state = is_open;
    }

    release : RefRow → RefRow
    release r = record r { state = is_done; last_seen = ts' }

    released : update (has_ref ref_id) release (pin ∷ []) ≡ release pin ∷ []
    released = rw (text_eq_refl ref_id) refl

    open_pins :
        select open_ref (update (has_ref ref_id) release (db.transfer_refs ++ pin ∷ []))
        ≡ select open_ref db.transfer_refs
    open_pins =
        rw
          (
            update-append (has_ref ref_id) release db.transfer_refs (pin ∷ []),
            released,
            update-none ref_id release db.transfer_refs h,
          )
          (select-append open_ref db.transfer_refs (release pin ∷ []) ∙ append-nil _)

released :
    (db db' : Database) (zone instance_id ref_id ref_id' : Text) (target low gen ts : ℕ)
    → db' ≡ pin_transfer db zone instance_id target low gen ref_id ts
    → ref_id' ≡ ref_id
    → select (has_ref ref_id) db.transfer_refs ≡ []
    → HasSameOpenPins db (release_transfer db' ref_id' ts)
released db db' zone instance_id ref_id ref_id' target low gen ts e f h =
    rw (e, f) (pin-release db zone instance_id ref_id target low gen ts ts h)

module _ (hmac : Bytes → Bytes → Bytes) (now when ts : ℕ) (instance_id ref_id : Text)
    (configured : ℕ) where
  -- What holds of the database before, and of it with a pin that is released again, holds after a
  -- connection.
  module _ (P : Database → Type 0) (db : Database) (p : P db)
      (q : (query : Query) (db' : Database) (plan : Plan)
        → authorize_transfer hmac now ts instance_id ref_id db query ≡ ok (db', plan)
        → P (release_transfer db' plan.ref_id ts)) where
    granted-keeps :
        (query : Query) (r : Result (Database × Plan))
        → authorize_transfer hmac now ts instance_id ref_id db query ≡ r
        → P (granted hmac now when ts instance_id ref_id configured query db r).0
    granted-keeps query (err (denied error server_time)) e = p
    granted-keeps query (err f) e = p
    granted-keeps query (ok (db', plan)) e = q query db' plan e

    parsed-keeps :
        (r : Result Query) → P (tcp_parsed hmac now when ts instance_id ref_id configured db r).0
    parsed-keeps (err wire_error) = p
    parsed-keeps (err f) = p
    parsed-keeps (ok query) = elim (Bool-cases (is_transfer_type query.qtype)) [
      | inl e ↦ rw e (granted-keeps query _ refl)
      | inr e ↦ rw e p
    ]

    message-keeps :
        (r : Result Received)
        → P (tcp_message hmac now when ts instance_id ref_id configured db r).0
    message-keeps (err f) = p
    message-keeps (ok none) = p
    message-keeps (ok (some (msg, conn))) = parsed-keeps (parse_query msg)

    pub tcp_handle-keeps :
        (conn : List Arrival)
        → P (tcp_handle hmac now when ts instance_id ref_id configured db conn).0
    unfolding tcp_handle
    tcp_handle-keeps conn = message-keeps (read_message conn)

  pub tcp_handle-keys :
      (db : Database) (conn : List Arrival)
      → (tcp_handle hmac now when ts instance_id ref_id configured db conn).0.keys ≡ db.keys
  unfolding release_transfer pin_transfer
  tcp_handle-keys db conn =
      tcp_handle-keeps (λ (d : Database). d.keys ≡ db.keys) db refl
        (λ query db' plan e.
          ap (λ (d : Database). d.keys)
            (authorize_transfer-IsGranted hmac now ts instance_id ref_id db query db' plan e).db_eq)
        conn
