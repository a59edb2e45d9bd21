-- ===== src/Server/Access/Revoked.antt =====
-- A key that is revoked authenticates no transfer.
use ab_bedd4c0e_tsig_bugfix.Prelude.{ℕ, ◌≡◌, refl, false, List, [], Bool-cases, inl, inr}
use ab_bedd4c0e_tsig_bugfix.Errors.{ok}
use ab_bedd4c0e_tsig_bugfix.Text.{Text}
use ab_bedd4c0e_tsig_bugfix.Storage.Tables.{Database, KeyRow}
use ab_bedd4c0e_tsig_bugfix.Storage.Tables.Laws.{IsIn, IsIn-select}
use ab_bedd4c0e_tsig_bugfix.Storage.Keys.{has_id, revoke_key}
use ab_bedd4c0e_tsig_bugfix.Storage.Keys.Revocation.{live_id, revoke_key_lem}
use ab_bedd4c0e_tsig_bugfix.Wire.Query.{Tsig}
use ab_bedd4c0e_tsig_bugfix.Server.Access.{resolve_in_tx}
use ab_bedd4c0e_tsig_bugfix.Server.Access.Granted.{resolve_in_tx-IsResolved}

not_in_nil : {k : KeyRow} {ks : List KeyRow} → ks ≡ [] → IsIn k ks → ⊥
not_in_nil e m = elim (rw e at m) [ ]

-- After a key is revoked, whatever key is chosen for a query to its zone is not that one, whatever
-- the query's key name and time.
pub resolve_in_tx-revoke_key :
    (db : Database) (zone key_id : Text) (ts : ℕ) (db' : Database) (t : Tsig) (now : ℕ)
    (key : KeyRow)
    → revoke_key db zone key_id ts ≡ ok db'
    → resolve_in_tx db' zone t now ≡ ok key
    → has_id zone key_id key ≡ false
resolve_in_tx-revoke_key db zone key_id ts db' t now key h k =
    elim (Bool-cases (has_id zone key_id key)) [
      | inl e ↦
          let r = resolve_in_tx-IsResolved db' zone t now key k in
          absurd (
            not_in_nil (revoke_key_lem db zone key_id ts db' h).0
              (IsIn-select (live_id zone key_id) key db'.keys r.is_key (rw (e, r.live) refl)))
      | inr e ↦ e
    ]
