-- ===== src/Storage/Transfers.antt =====
-- The transfer pins of app/storage.py: `pin_transfer`, `heartbeat_transfer`, `release_transfer`. The
-- new reference id and the clock (in milliseconds) are arguments.
use ab_bedd4c0e_tsig_bugfix.Prelude.{ℕ, Bool, [], ◌∷◌, ◌++◌}
use ab_bedd4c0e_tsig_bugfix.Text.{Text, text_eq}
use ab_bedd4c0e_tsig_bugfix.Storage.Tables.{Database, RefRow, is_open, is_done, update}

unfoldable pub pin_transfer : Database → Text → Text → ℕ → ℕ → ℕ → Text → ℕ → Database
pin_transfer db zone instance_id target_version min_version key_gen ref_id ts = record db {
  transfer_refs =
      db.transfer_refs
      ++ record {
        ref_id = ref_id;
        zone = zone;
        instance_id = instance_id;
        version_id = target_version;
        min_version = min_version;
        key_gen = key_gen;
        started_at = ts;
        last_seen = ts;
        state = is_open;
      }
        ∷ [];
}

-- `WHERE ref_id=?`
abbrev pub has_ref : Text → RefRow → Bool
has_ref ref_id r = text_eq r.ref_id ref_id

unfoldable pub heartbeat_transfer : Database → Text → ℕ → Database
heartbeat_transfer db ref_id ts = record db {
  transfer_refs = update (has_ref ref_id) (λ r. record r { last_seen = ts }) db.transfer_refs;
}

unfoldable pub release_transfer : Database → Text → ℕ → Database
release_transfer db ref_id ts = record db {
  transfer_refs =
      update (has_ref ref_id) (λ r. record r { state = is_done; last_seen = ts }) db.transfer_refs;
}
