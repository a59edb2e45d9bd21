-- ===== src/Service/Keys.antt =====
-- The service keeps to the life cycle of keys: every event is a step of the view of the key table, what
-- is revoked stays revoked, and no zone ever has two ACTIVE keys.
use ab_bedd4c0e_tsig_bugfix.Prelude.{◌≡◌, ap, some, List, [], ◌∷◌}
use ab_bedd4c0e_tsig_bugfix.Text.{Text}
use ab_bedd4c0e_tsig_bugfix.Storage.Tables.{Database, revoked}
use ab_bedd4c0e_tsig_bugfix.Storage.Keys.Revocation.{
  AtMostOneActive, install_key-AtMostOneActive, revoke_key-AtMostOneActive,
}
use ab_bedd4c0e_tsig_bugfix.Storage.Keys.View.{state_in, view, Step, stays}
use ab_bedd4c0e_tsig_bugfix.Storage.Keys.Lifecycle.{install_key-Step, revoke_key-Step, Step-revoked}
use ab_bedd4c0e_tsig_bugfix.Service.{Event, Outside, serve, run}
use ab_bedd4c0e_tsig_bugfix.Service.Walk.{serve-keeps}

-- Whatever happens to the service, a request with any path and body, a connection or a round of the
-- cleanup worker, the key table moves by one step of its life cycle or not at all: a new id becomes
-- ACTIVE while what was ACTIVE in its zone becomes RETIRING, or an id that was not REVOKED becomes
-- REVOKED, and every other key keeps its state.
pub serve-Step : (o : Outside) (e : Event) (db : Database) → Step (view db) (view (serve o e db))
serve-Step o e db =
    serve-keeps (λ (d d' : Database). Step (view d) (view d'))
      (λ d d' h. stays λ z i. ap (λ ks. state_in ks z i) h) install_key-Step revoke_key-Step o e db

-- A key that is REVOKED is REVOKED after whatever happens to the service, in whatever order.
pub run-revoked :
    (o : Outside) (es : List Event) (db : Database) (zone key_id : Text)
    → view db zone key_id ≡ some revoked
    → view (run o es db) zone key_id ≡ some revoked
unfolding run
run-revoked o [] db zone key_id h = h
run-revoked o (e ∷ es) db zone key_id h =
    run-revoked o es (serve o e db) zone key_id
      (Step-revoked (view db) (view (serve o e db)) zone key_id (serve-Step o e db) h)

-- Whatever happens to the service, in whatever order, no zone has two ACTIVE keys if none had before.
pub run-AtMostOneActive :
    (o : Outside) (es : List Event) (db : Database)
    → AtMostOneActive db
    → AtMostOneActive (run o es db)
unfolding run
run-AtMostOneActive o [] db h = h
run-AtMostOneActive o (e ∷ es) db h = run-AtMostOneActive o es (serve o e db) (
    serve-keeps (λ (d d' : Database). AtMostOneActive d → AtMostOneActive d')
      (λ d d' k one z. rw k (one z))
      (λ d zone key_id key_name expires_at secret ts d' key k one.
        install_key-AtMostOneActive d zone key_id key_name expires_at secret ts d' key k one)
      (λ d zone key_id ts d' k one. revoke_key-AtMostOneActive d zone key_id ts d' k one) o e db h)
