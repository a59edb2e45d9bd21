-- ===== src/Wire/Names.antt =====
-- `encode_name` and `decode_name` of app/dnswire.py.
pub mod Ends
pub mod RoundTrip
pub mod Normal
use ab_bedd4c0e_tsig_bugfix.Prelude.{
  ℕ, zero, suc, ◌+◌, ◌*◌, ◌/◌, ◌%◌, Bool, true, false, ◌||◌, not, Option, none, some, List, [], ◌∷◌,
  ◌++◌, ltb, leb, ◌==◌, if◌then◌else◌, length, get_elem?, slice,
}
use ab_bedd4c0e_tsig_bugfix.Errors.{
  Result, ok, err, wire_error, unicode_error, out_of_fuel, ◌>>=◌, ◌>>◌, raise_if,
}
use ab_bedd4c0e_tsig_bugfix.Text.{
  Text, Bytes, dot, text_eq, lower, is_ascii, is_empty, rstrip_dots, split_dots, join_dots,
}

-- One round of the loop of `encode_name`.
unfoldable pub encode_label : Text → Result Bytes
encode_label label = do
  raise_if (is_empty label) wire_error
  raise_if (not (is_ascii label)) unicode_error
  raise_if (ltb 63 (length label)) wire_error
  ok (length label ∷ lower label)

unfoldable pub encode_labels : List Text → Result Bytes
encode_labels [] = ok []
encode_labels (l ∷ ls) = do lab ← encode_label l; out ← encode_labels ls; ok (lab ++ out)

unfoldable pub encode_name : Text → Result Bytes
unfolding text_eq encode_labels encode_label
encode_name name =
    if is_empty name || text_eq name (dot ∷ [])
    then ok (0 ∷ [])
    else do out ← encode_labels (split_dots (rstrip_dots name)); ok (out ++ 0 ∷ [])

-- The local variables of `decode_name`; `next_off` is set once the reader has jumped.
pub record NameState : Type 0 where
  pub cur : ℕ
  pub labels : List Text
  pub seen : List ℕ
  pub next_off : Option ℕ

pub data NameStep : Type 0 where
  more : NameState → NameStep
  done : Result (Text × ℕ) → NameStep

abbrev pub contains : ℕ → List ℕ → Bool
contains p [] = false
contains p (q ∷ qs) = p == q || contains p qs

abbrev pub or_else : Option ℕ → ℕ → ℕ
or_else none d = d
or_else (some n) d = n

-- `((n & 0x3F) << 8) | b`, and the jump to it
unfoldable pub follow_pointer : NameState → ℕ → Option ℕ → NameStep
follow_pointer s n none = done (err wire_error)
follow_pointer s n (some b) =
    let ptr = n % 64 * 256 + b in
    if contains ptr s.seen || leb s.cur ptr
    then done (err wire_error)
    else more (record {
      cur = ptr;
      labels = s.labels;
      seen = ptr ∷ s.seen;
      next_off = some (or_else s.next_off (s.cur + 2));
    })

unfoldable pub read_label : Bytes → NameState → ℕ → NameStep
read_label buf s n =
    let start = s.cur + 1 in
    let lab = slice buf start (start + n) in
    if ltb (length buf) (start + n)
    then done (err wire_error)
    else if is_ascii lab
    then more (record s { cur = start + n; labels = s.labels ++ lower lab ∷ [] })
    else done (err unicode_error)

-- `n & 0xC0` is `n / 64 % 4`, in units of 0x40.
unfoldable pub decode_byte : Bytes → NameState → Option ℕ → NameStep
decode_byte buf s none = done (err wire_error)
decode_byte buf s (some n) =
    if n == 0
    then done (ok (join_dots s.labels ++ dot ∷ [], or_else s.next_off (s.cur + 1)))
    else if n / 64 % 4 == 3
    then follow_pointer s n (get_elem? buf (s.cur + 1))
    else if n / 64 % 4 == 0
    then read_label buf s n
    else done (err wire_error)

-- The `while True` loop, a bounded number of rounds.
unfoldable pub decode_loop : ℕ → Bytes → NameState → Result (Text × ℕ)
decode_loop zero buf s = err out_of_fuel
decode_loop (suc fuel) buf s = elim (decode_byte buf s (get_elem? buf s.cur)) [
  | more s' ↦ decode_loop fuel buf s'
  | done r ↦ r
]

abbrev pub start_at : ℕ → NameState
start_at off = record { cur = off; labels = []; seen = []; next_off = none }

-- Enough rounds for any buffer: each position may be jumped to once, and between two jumps the
-- reader moves forward.
abbrev pub rounds : Bytes → ℕ
rounds buf = (length buf + 1) * (length buf + 1) + 1

unfoldable pub decode_name : Bytes → ℕ → Result (Text × ℕ)
unfolding decode_loop decode_byte follow_pointer read_label
decode_name buf off = decode_loop (rounds buf) buf (start_at off)
