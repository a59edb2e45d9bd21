-- ===== src/Api/Request.antt =====
-- What app/api.py checks of a request before it uses it: `_read_json`, and the checks of values with
-- `valid_u32` of app/serial.py.
pub mod Validated
use ab_bedd4c0e_tsig_bugfix.Prelude.{
  ℕ, ◌+◌, ◌*◌, Bool, true, false, not, ◌||◌, Option, none, some, List, [], ◌∷◌, ◌==◌, if◌then◌else◌,
  ltb, leb, length,
}
use ab_bedd4c0e_tsig_bugfix.Errors.{
  malformed_json, validation_error, limit_exceeded, changeset_invalid, num, serial_invalid, Fault,
  Result, ok, err, ◌>>=◌, ◌>>◌, raise_if,
}
use ab_bedd4c0e_tsig_bugfix.Text.{Text, codes, is_empty, lower}
use ab_bedd4c0e_tsig_bugfix.Json.{
  ℤ, pos, negsuc, Json, null, whole, str, array, object, Fields, get, get_or, get_or_null,
  set_default, items_of, is_falsy, int_of, int_of_text, except_value, str_of,
}
use ab_bedd4c0e_tsig_bugfix.Canonical.{
  api_error, canonical_zone, canonical_zone_arg, lstrip, rstrip,
}
use ab_bedd4c0e_tsig_bugfix.Canonical.Rdata.{invalid}

abbrev pub max_body : ℕ
max_body = 4 * 1024 * 1024

abbrev malformed : Fault
malformed = api_error malformed_json 400 []

abbrev length_of : ℤ → Result ℕ
length_of (pos n) = do
  raise_if (n == 0) malformed
  raise_if (ltb max_body n) (api_error limit_exceeded 413 [])
  ok n
length_of (negsuc n) = err malformed

abbrev of_body : Option Json → Result Fields
of_body (some (object fs)) = ok fs
of_body _ = err malformed

-- `_read_json`: the header's Content-Length, and what the bytes of that length are as JSON, if they
-- are UTF-8 and JSON at all
unfoldable pub read_json : Text → (ℕ → Option Json) → Result Fields
read_json content_length payload = do
  z ← except_value (int_of_text content_length) (err invalid)
  n ← length_of z
  of_body (payload n)

abbrev u32_or_none : ℤ → Option ℕ
u32_or_none (pos n) = if leb n 0xFFFFFFFF then some n else none
u32_or_none (negsuc n) = none

-- `valid_u32`
unfoldable pub valid_u32 : Json → Result (Option ℕ)
valid_u32 v = except_value (do z ← int_of v; ok (u32_or_none z)) (ok none)

abbrev pub of_serial : Option ℕ → Result ℕ
of_serial none = err (api_error serial_invalid 422 [])
of_serial (some n) = ok n

abbrev pub strip : Text → Text
strip s = rstrip (lstrip s)

-- A `requestId`, as it is handed on.
unfoldable pub request_id_of : Json → Result Text
unfolding lstrip rstrip
request_id_of (str s) = do raise_if (is_empty (strip s) || ltb 200 (length s)) invalid; ok (strip s)
request_id_of _ = err invalid

-- `retainVersions` of `_set_retention`: no Boolean, and no other value that `int` takes.
abbrev pub retention_range : ℤ → Result ℕ
retention_range (pos n) =
    if ltb n 1 || ltb 100000 n then err (api_error validation_error 422 []) else ok n
retention_range (negsuc n) = err (api_error validation_error 422 [])

unfoldable pub retention_of : Json → Result ℕ
retention_of (whole z) = retention_range z
retention_of _ = err (api_error validation_error 422 [])

abbrev positive : ℤ → Result ℕ
positive (pos n) = if ltb n 1 then err invalid else ok n
positive (negsuc n) = err invalid

-- `retireInSeconds` of `_install_key`, as the time of expiry
unfoldable pub expiry_of : Json → ℕ → Result (Option ℕ)
expiry_of null now_ms = ok none
expiry_of (whole z) now_ms = do secs ← positive z; ok (some (now_ms + secs * 1000))
expiry_of _ now_ms = err invalid

module _ (repr : Json → Text) where
  -- `keyId`
  unfoldable pub key_id_of : Json → Result Text
  unfolding lstrip rstrip
  key_id_of v = do
    let key_id = strip (if is_falsy v then [] else str_of repr v)
    raise_if (is_empty key_id || ltb 200 (length key_id)) invalid
    ok key_id

  abbrev name_text : Text → Result (Option Text)
  name_text name = do raise_if (is_empty name || ltb 255 (length name)) invalid; ok (some name)

  -- `keyName`
  unfoldable pub key_name_of : Json → Result (Option Text)
  unfolding lstrip rstrip
  key_name_of null = ok none
  key_name_of v = name_text (lower (strip (str_of repr v)))

-- `Config.MAX_CHANGES_PER_PUBLISH`
abbrev pub max_changes : ℕ
max_changes = 1000

-- `isinstance(v, list)`
abbrev pub of_list : Json → Fault → Result (List Json)
of_list (array js) e = ok (items_of js)
of_list _ e = err e

abbrev of_some : Option Json → Result Json
of_some none = err invalid
of_some (some null) = err invalid
of_some (some v) = ok v

abbrev pub no_changes : Fault
no_changes = api_error changeset_invalid 400 []

-- `body.get("changes", body.get("ops"))`
abbrev pub changes_of : Fields → Option Json
changes_of body = elim (get (codes "changes") body) [
  | some v ↦ some v
  | none ↦ get (codes "ops") body
]

pub record PublishRequest : Type 0 where
  pub zone : Text
  pub request_id : Text
  pub base_serial : ℕ
  pub next_serial : ℕ
  pub changes : List Json

-- `_publish` before the fingerprint
unfoldable pub check_publish : Text → Fields → Result PublishRequest
check_publish name body = do
  zone ← canonical_zone_arg name
  request_id ← request_id_of (get_or_null (codes "requestId") body)
  base' ← valid_u32 (get_or_null (codes "baseSerial") body)
  next' ← valid_u32 (get_or_null (codes "nextSerial") body)
  base_serial ← of_serial base'
  next_serial ← of_serial next'
  v ← of_some (changes_of body)
  changes ← of_list v no_changes
  raise_if (length changes == 0) no_changes
  raise_if (ltb max_changes (length changes)) (
      api_error limit_exceeded 413
        (("limit", num max_changes) ∷ ("count", num (length changes)) ∷ []))
  ok (record {
    zone = zone;
    request_id = request_id;
    base_serial = base_serial;
    next_serial = next_serial;
    changes = changes;
  })

abbrev pub of_soa : Json → Result Fields
of_soa (object fs) = ok fs
of_soa _ = err invalid

abbrev pub is_text : Json → Bool
is_text (str s) = true
is_text _ = false

-- The defaults of an SOA value.
abbrev pub with_defaults : Fields → Fields
with_defaults fs = set_default (codes "minimum") (whole (pos 3600)) (
    set_default (codes "expire") (whole (pos 1209600)) (
      set_default (codes "retry") (whole (pos 3600))
        (set_default (codes "refresh") (whole (pos 7200)) fs)))

pub record ZoneRequest : Type 0 where
  pub zone : Text
  pub serial : ℕ
  pub soa : Fields
  pub servers : List Json
  pub retain : ℕ

module _ (repr : Json → Text) where
  -- `_create_zone` before the store is asked
  unfoldable pub check_create : Fields → Result ZoneRequest
  check_create body = do
    name ← canonical_zone (str_of repr (get_or (codes "name") (str []) body))
    serial' ← valid_u32 (get_or_null (codes "serial") body)
    serial ← of_serial serial'
    soa ← of_soa (get_or_null (codes "soa") body)
    raise_if (not (is_text (get_or_null (codes "mname") soa))) invalid
    raise_if (not (is_text (get_or_null (codes "rname") soa))) invalid
    servers ← of_list (get_or_null (codes "ns") body) invalid
    raise_if (length servers == 0) invalid
    raise_if (ltb max_changes (length servers)) (api_error limit_exceeded 413 [])
    z ← int_of (get_or (codes "retainVersions") (whole (pos 10)) body)
    retain ← retention_range z
    ok (record { zone = name; serial = serial; soa = soa; servers = servers; retain = retain })
