-- ===== src/Storage/Keys.antt =====
-- The transfer keys of app/storage.py: `install_key`, `list_keys`, `revoke_key`. The new secret and
-- the clock are arguments.
pub mod Rotation
pub mod Revocation
pub mod Lifecycle
pub mod View
use Prim.Native.Nat.{max}
use ab_bedd4c0e_tsig_bugfix.Prelude.{
  ℕ, ◌+◌, ◌*◌, ◌≡◌, refl, Bool, true, false, not, ◌&&◌, Option, none, some, List, [], ◌∷◌, ◌++◌,
  ◌==◌, if◌then◌else◌, leb, map,
}
use ab_bedd4c0e_tsig_bugfix.Errors.{
  Result, ok, err, Fault, api, integrity_error, key_state_invalid, key_not_found, ◌>>=◌, ◌>>◌,
  raise_if,
}
use ab_bedd4c0e_tsig_bugfix.Text.{Text, Bytes, is_empty, text_eq}
use ab_bedd4c0e_tsig_bugfix.Storage.Tables.{
  Database, KeyRow, KeyState, active, retiring, revoked, select, update, fetchone, found,
  get_zone_row, plain_error,
}

abbrev pub is_active : KeyState → Bool
is_active active = true
is_active _ = false

abbrev pub is_revoked : KeyState → Bool
is_revoked revoked = true
is_revoked _ = false

-- `WHERE zone=? AND state='ACTIVE'`
abbrev pub active_in : Text → KeyRow → Bool
active_in zone k = text_eq k.zone zone && is_active k.state

-- `WHERE zone=? AND key_id=?`
abbrev pub has_id : Text → Text → KeyRow → Bool
has_id zone key_id k = text_eq k.zone zone && text_eq k.key_id key_id

-- `WHERE zone=? AND key_name=? AND state != 'REVOKED'`
abbrev pub uses_name : Text → Text → KeyRow → Bool
uses_name zone key_name k =
    text_eq k.zone zone && text_eq k.key_name key_name && not (is_revoked k.state)

-- `COALESCE(MAX(gen), -1) + 1` over the zone's keys
unfoldable pub next_gen : Text → List KeyRow → ℕ
next_gen zone [] = 0
next_gen zone (k ∷ ks) =
    let rest = next_gen zone ks in if text_eq k.zone zone then max (k.gen + 1) rest else rest

-- `key_name or key_id`
abbrev pub name_or : Option Text → Text → Text
name_or none key_id = key_id
name_or (some name) key_id = if is_empty name then key_id else name

abbrev pub expiry_or : Option ℕ → ℕ → ℕ
expiry_or none ts = ts + 3600 * 1000
expiry_or (some e) ts = e

abbrev pub retire : ℕ → KeyRow → KeyRow
retire expires_at k = record k { state = retiring; expires_at = some expires_at }

-- INSERT INTO keys, under its primary key (zone, key_id)
abbrev pub insert_key : KeyRow → List KeyRow → Result (List KeyRow)
insert_key k ks =
    if found (select (has_id k.zone k.key_id) ks) then err integrity_error else ok (ks ++ k ∷ [])

-- `except sqlite3.IntegrityError`
abbrev pub except_integrity {ℓ} : {A : Type ℓ} → Result A → Fault → Result A
except_integrity (err integrity_error) e = err e
except_integrity m e = m

abbrev pub new_key : Text → Text → ℕ → Text → Bytes → ℕ → KeyRow
new_key zone key_id gen name secret ts = record {
  zone = zone;
  key_id = key_id;
  gen = gen;
  key_name = name;
  secret = secret;
  state = active;
  created_at = ts;
  expires_at = none;
  revoked_at = none;
}

unfoldable pub install_key :
    Database → Text → Text → Option Text → Option ℕ → Bytes → ℕ → Result (Database × KeyRow)
install_key db zone key_id key_name expires_at secret ts = do
  z ← get_zone_row db zone
  let name = name_or key_name key_id
  let expiry = expiry_or expires_at ts
  raise_if (leb expiry ts) (api (plain_error key_state_invalid 422))
  let gen = next_gen zone db.keys
  raise_if (found (select (uses_name zone name) db.keys)) (api (plain_error key_state_invalid 409))
  raise_if (found (select (has_id zone key_id) db.keys)) (api (plain_error key_state_invalid 409))
  let key = new_key zone key_id gen name secret ts
  keys ←
      except_integrity (insert_key key (update (active_in zone) (retire expiry) db.keys))
        (api (plain_error key_state_invalid 409))
  ok (record db { keys = keys }, key)

abbrev pub of_key_row : Option KeyRow → Result KeyRow
of_key_row none = err (api (plain_error key_not_found 404))
of_key_row (some k) = ok k

abbrev pub revoke : ℕ → KeyRow → KeyRow
revoke ts k = record k { state = revoked; revoked_at = some ts; expires_at = none }

unfoldable pub revoke_key : Database → Text → Text → ℕ → Result Database
revoke_key db zone key_id ts = do
  z ← get_zone_row db zone
  row ← of_key_row (fetchone (select (has_id zone key_id) db.keys))
  raise_if (is_revoked row.state) (api (plain_error key_state_invalid 409))
  ok (record db { keys = update (has_id zone key_id) (revoke ts) db.keys })
