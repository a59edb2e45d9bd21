-- ===== src/Canonical.antt =====
-- The names of app/canonical.py: `_check_name`, `canonical_name`, `canonical_target`,
-- `canonical_zone`, `canonical_zone_arg`, `rr_fits_message`, at the default limits of app/config.py.
-- Lower case and white space are those of ASCII.
pub mod Zone
pub mod Rdata
use ab_bedd4c0e_tsig_bugfix.Prelude.{
  ℕ, ◌+◌, ◌-◌, Bool, true, false, not, ◌&&◌, ◌||◌, String, List, [], ◌∷◌, ◌++◌, ◌==◌, if◌then◌else◌,
  ltb, leb, length, take,
}
use ab_bedd4c0e_tsig_bugfix.Errors.{
  ErrorCode, validation_error, limit_exceeded, name_out_of_zone, Detail, num, text, Result, ok,
  Fault, api, ◌>>=◌, ◌>>◌, raise_if,
}
use ab_bedd4c0e_tsig_bugfix.Text.{
  Text, Bytes, codes, dot, text_eq, lower, is_empty, split_dots, ends_with,
}
use ab_bedd4c0e_tsig_bugfix.Wire.Names.{encode_name}

abbrev pub max_label_len : ℕ
max_label_len = 63

abbrev pub max_name_len : ℕ
max_name_len = 255

abbrev pub max_tcp_message : ℕ
max_tcp_message = 65535

abbrev pub api_error : ErrorCode → ℕ → List (String × Detail) → Fault
api_error code status details =
    api (record { code = code; http_status = status; details = details })

abbrev pub is_space : ℕ → Bool
is_space c = c == 32 || leb 9 c && leb c 13 || leb 28 c && leb c 31

-- `s.strip()`
unfoldable pub lstrip : Text → Text
lstrip [] = []
lstrip (c ∷ s) = let rest = lstrip s in if is_space c then rest else c ∷ s

abbrev rstrip_step : ℕ → Text → Text
rstrip_step c s = if is_space c && is_empty s then [] else c ∷ s

unfoldable pub rstrip : Text → Text
rstrip [] = []
rstrip (c ∷ s) = rstrip_step c (rstrip s)

-- `[a-z0-9_-]`
abbrev pub label_char : ℕ → Bool
label_char c = leb b'a' c && leb c b'z' || leb b'0' c && leb c b'9' || c == b'_' || c == b'-'

-- The rest of a label behind its first character: `$` also matches before a line feed at the end.
unfoldable pub label_rest : Text → Bool
label_rest [] = true
label_rest (c ∷ s) = let rest = label_rest s in label_char c && rest || c == 10 && is_empty s

abbrev without_feed : Text → ℕ
without_feed [] = 0
without_feed (c ∷ s) = let rest = without_feed s in if c == 10 && is_empty s then 0 else rest + 1

-- `_LABEL_RE.match(lab)`
abbrev pub label_matches : Text → Bool
label_matches [] = false
label_matches (c ∷ s) = label_char c && label_rest s && leb (without_feed (c ∷ s)) 63

-- The loop of `_check_name`: the wire length of the name.
unfoldable pub check_labels : List Text → ℕ → Result ℕ
unfolding label_rest
check_labels [] wire_len = ok wire_len
check_labels (lab ∷ labs) wire_len = do
  raise_if (ltb max_label_len (length lab))
      (api_error limit_exceeded 413 (("limit", num max_label_len) ∷ []))
  raise_if (not (label_matches lab)) (api_error validation_error 400 [])
  check_labels labs (wire_len + (1 + length lab))

abbrev pub labels_of : Text → List Text
labels_of abs_name =
    if text_eq abs_name (dot ∷ []) then [] else split_dots (take (length abs_name - 1) abs_name)

unfoldable pub check_name : Text → Result Text
unfolding check_labels text_eq
check_name abs_name = do
  wire_len ← check_labels (labels_of abs_name) 1
  raise_if (ltb max_name_len wire_len)
      (api_error limit_exceeded 413 (("limit", num max_name_len) ∷ []))
  ok abs_name

abbrev pub tidy : Text → Text
tidy raw = rstrip (lstrip (lower raw))

abbrev pub is_absolute : Text → Bool
is_absolute name = ends_with name (dot ∷ [])

unfoldable pub canonical_zone : Text → Result Text
unfolding check_name lstrip rstrip
canonical_zone name = do
  raise_if (is_empty name) (api_error validation_error 400 [])
  raise_if (not (is_absolute (tidy name))) (api_error validation_error 400 [])
  check_name (tidy name)

unfoldable pub canonical_zone_arg : Text → Result Text
unfolding check_name lstrip rstrip
canonical_zone_arg raw = do
  raise_if (is_empty (rstrip (lstrip raw))) (api_error validation_error 400 [])
  check_name (if is_absolute (tidy raw) then tidy raw else tidy raw ++ dot ∷ [])

-- `canonical_name` behind the root and the apex: the name made absolute
abbrev pub in_zone_name : Text → Text → Text → Result Text
in_zone_name raw zone name = do
  raise_if (not (ends_with name zone))
      (api_error name_out_of_zone 422 (("name", text raw) ∷ ("zone", text zone) ∷ []))
  raise_if (not (text_eq name zone) && not (ends_with name (dot ∷ zone)))
      (api_error name_out_of_zone 422 [])
  check_name name

unfoldable pub canonical_name : Text → Text → Result Text
unfolding check_name lstrip rstrip text_eq
canonical_name raw zone = do
  raise_if (is_empty raw) (api_error validation_error 400 [])
  let name = tidy raw
  if text_eq name (codes "@") then ok zone else do
    raise_if (is_empty name || text_eq name (dot ∷ [])) (api_error validation_error 400 [])
    in_zone_name raw zone (if is_absolute name then name else name ++ dot ∷ zone)

unfoldable pub canonical_target : Text → Text → Result Text
unfolding check_name lstrip rstrip
canonical_target raw zone = do
  raise_if (is_empty raw) (api_error validation_error 400 [])
  check_name (if is_absolute (tidy raw) then tidy raw else tidy raw ++ dot ∷ zone)

-- `_check_ttl`, of a number
unfoldable pub check_ttl : ℕ → Result ℕ
check_ttl ttl = do raise_if (ltb 0xFFFFFFFF ttl) (api_error validation_error 400 []); ok ttl

unfoldable pub rr_fits_message : Text → Text → Bytes → Result (Unit {0})
rr_fits_message name rtype rdata_wire = do
  owner ← encode_name name
  let rr_len = length owner + 10 + length rdata_wire
  let hard_limit = max_tcp_message - 700
  raise_if (ltb hard_limit rr_len)
      (api_error limit_exceeded 413 (("rrLength", num rr_len) ∷ ("limit", num hard_limit) ∷ []))
