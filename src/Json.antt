-- ===== src/Json.antt =====
-- The values that `json.loads` gives, with what the program calls on them: `int`, `str`, `dict.get`,
-- and `json.dumps` of texts and numbers. Digits are those of ASCII.
use ab_bedd4c0e_tsig_bugfix.Prelude.{
  ℕ, zero, suc, ◌+◌, ◌-◌, ◌*◌, ◌/◌, ◌%◌, Bool, true, false, not, ◌&&◌, ◌||◌, Option, none, some,
  List, [], ◌∷◌, ◌++◌, ◌==◌, if◌then◌else◌, ltb, leb,
}
use ab_bedd4c0e_tsig_bugfix.Errors.{type_error, value_error, Result, ok, err}
use ab_bedd4c0e_tsig_bugfix.Text.{Text, codes, is_empty, text_eq}
use ab_bedd4c0e_tsig_bugfix.Canonical.{lstrip, rstrip}

-- `int` of Python.
pub data ℤ : Type 0 where
  pos : ℕ → ℤ
  negsuc : ℕ → ℤ

-- `float` of Python: its text, whether it is zero, and what `int` makes of it, which raises for the
-- infinities and for NaN.
pub record Float : Type 0 where
  pub repr : Text
  pub is_zero : Bool
  pub truncated : Result ℤ

mutual
  pub data Json : Type 0 where
    null : Json
    boolean : Bool → Json
    whole : ℤ → Json
    real : Float → Json
    str : Text → Json
    array : Items → Json
    object : Fields → Json

  pub data Items : Type 0 where
    no_items : Items
    item : Json → Items → Items

  pub data Fields : Type 0 where
    no_fields : Fields
    field : Text → Json → Fields → Fields

-- `d.get(key)`
unfoldable pub get : Text → Fields → Option Json
get key no_fields = none
get key (field k v fs) = let rest = get key fs in if text_eq k key then some v else rest

abbrev or_else {ℓ} : {A : Type ℓ} → Option A → A → A
or_else none d = d
or_else (some a) d = a

-- `d.get(key, default)`
abbrev pub get_or : Text → Json → Fields → Json
get_or key d fs = or_else (get key fs) d

-- `d.get(key)`, `None` where there is none
abbrev pub get_or_null : Text → Fields → Json
get_or_null key fs = get_or key null fs

-- `d[key] = v`
unfoldable pub set : Text → Json → Fields → Fields
set key v no_fields = field key v no_fields
set key v (field k w fs) =
    let rest = set key v fs in if text_eq k key then field k v fs else field k w rest

abbrev keep_or : Text → Json → Option Json → Fields → Fields
keep_or key d none fs = set key d fs
keep_or key d (some _) fs = fs

-- `d.setdefault(key, default)`
abbrev pub set_default : Text → Json → Fields → Fields
set_default key d fs = keep_or key d (get key fs) fs

-- `not v`
abbrev pub is_falsy : Json → Bool
is_falsy null = true
is_falsy (boolean b) = not b
is_falsy (whole (pos n)) = n == 0
is_falsy (whole (negsuc n)) = false
is_falsy (real f) = f.is_zero
is_falsy (str s) = is_empty s
is_falsy (array no_items) = true
is_falsy (array (item j js)) = false
is_falsy (object no_fields) = true
is_falsy (object (field k v fs)) = false

unfoldable pub items_of : Items → List Json
items_of no_items = []
items_of (item j js) = j ∷ items_of js

abbrev is_digit : ℕ → Bool
is_digit c = leb b'0' c && leb c b'9'

-- Digits with single underscores between them, after a digit.
unfoldable pub digits_from : ℕ → Text → Option ℕ
digits_from n [] = some n
digits_from n (c ∷ []) = if is_digit c then some (n * 10 + (c - b'0')) else none
digits_from n (c ∷ d ∷ s) =
    let rest = digits_from (if is_digit c then n * 10 + (c - b'0') else n) (d ∷ s) in
    if is_digit c || c == b'_' && is_digit d then rest else none

abbrev number : Text → Option ℕ
number [] = none
number (c ∷ s) = if is_digit c then digits_from 0 (c ∷ s) else none

abbrev negate : ℕ → ℤ
negate zero = pos zero
negate (suc n) = negsuc n

abbrev of_digits : (ℕ → ℤ) → Option ℕ → Result ℤ
of_digits sign none = err value_error
of_digits sign (some n) = ok (sign n)

abbrev signed : Text → Result ℤ
signed [] = err value_error
signed (c ∷ s) =
    if c == b'-'
    then of_digits negate (number s)
    else if c == b'+'
    then of_digits pos (number s)
    else of_digits pos (number (c ∷ s))

-- `int(text)`
unfoldable pub int_of_text : Text → Result ℤ
unfolding digits_from lstrip rstrip
int_of_text s = signed (rstrip (lstrip s))

-- `int(v)`
unfoldable pub int_of : Json → Result ℤ
int_of null = err type_error
int_of (boolean true) = ok (pos 1)
int_of (boolean false) = ok (pos 0)
int_of (whole z) = ok z
int_of (real f) = f.truncated
int_of (str s) = int_of_text s
int_of (array js) = err type_error
int_of (object fs) = err type_error

-- `except (TypeError, ValueError): …`
abbrev pub except_value {ℓ} : {A : Type ℓ} → Result A → Result A → Result A
except_value (err type_error) d = d
except_value (err value_error) d = d
except_value r d = r

-- The digits of a number, in at most so many rounds.
unfoldable pub digits : ℕ → ℕ → Text
digits zero n = []
digits (suc rounds) n =
    let rest = digits rounds (n / 10) in
    if ltb n 10 then (b'0' + n) ∷ [] else rest ++ (b'0' + n % 10) ∷ []

-- `str(n)`: no number has more digits than its value and one.
unfoldable pub decimal : ℕ → Text
unfolding digits
decimal n = digits (suc n) n

abbrev pub int_text : ℤ → Text
int_text (pos n) = decimal n
int_text (negsuc n) = b'-' ∷ decimal (suc n)

module _ (repr : Json → Text) where
  -- `str(v)`; the text of a list or of a dictionary is a parameter
  unfoldable pub str_of : Json → Text
  unfolding decimal
  str_of null = codes "None"
  str_of (boolean true) = codes "True"
  str_of (boolean false) = codes "False"
  str_of (whole z) = int_text z
  str_of (real f) = f.repr
  str_of (str s) = s
  str_of (array js) = repr (array js)
  str_of (object fs) = repr (object fs)

abbrev hex_digit : ℕ → ℕ
hex_digit n = if ltb n 10 then b'0' + n else b'a' + (n - 10)

abbrev unicode_escape : ℕ → Text
unicode_escape n =
    b'\\'
    ∷ b'u'
    ∷ hex_digit (n / 4096 % 16)
    ∷ hex_digit (n / 256 % 16)
    ∷ hex_digit (n / 16 % 16)
    ∷ hex_digit (n % 16)
    ∷ []

abbrev escape_other : ℕ → Text
escape_other c =
    if leb 32 c && leb c 126
    then c ∷ []
    else if ltb c 0x10000
    then unicode_escape c
    else unicode_escape (0xD800 + (c - 0x10000) / 1024 % 1024)
      ++ unicode_escape (0xDC00 + (c - 0x10000) % 1024)

-- One character of a text in JSON, as `json.dumps` writes it by default.
unfoldable pub escape_char : ℕ → Text
escape_char c =
    if c == 34 || c == 92
    then 92 ∷ c ∷ []
    else if c == 10
    then codes "\\n"
    else if c == 13
    then codes "\\r"
    else if c == 9
    then codes "\\t"
    else if c == 12
    then codes "\\f"
    else if c == 8
    then codes "\\b"
    else escape_other c

unfoldable pub escape : Text → Text
escape [] = []
escape (c ∷ s) = escape_char c ++ escape s

-- `json.dumps(s)`
abbrev pub dump_text : Text → Text
dump_text s = 34 ∷ escape s ++ 34 ∷ []
