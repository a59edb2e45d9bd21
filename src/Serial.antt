-- ===== src/Serial.antt =====
-- app/serial.py: RFC 1982 serial number arithmetic. `x & 0xFFFFFFFF` is `x % 2 ^ 32`, and
-- `(s2 - s1) % MOD`, which Python takes of a signed difference, adds the modulus first.
pub mod Order
use ab_bedd4c0e_tsig_bugfix.Prelude.{
  ℕ, ◌+◌, ◌-◌, ◌%◌, ◌^◌, String, Bool, true, false, ◌&&◌, Option, none, some, ltb, ◌==◌,
  if◌then◌else◌,
}

abbrev pub modulus : ℕ
modulus = 2 ^ 32

abbrev pub half : ℕ
half = 2 ^ 31

pub data SerialRelation : Type 0 where
  equal greater less undecidable : SerialRelation

unfoldable pub compare : ℕ → ℕ → SerialRelation
compare s1 s2 =
    let a = s1 % modulus in
    let b = s2 % modulus in
    let delta = (b + modulus - a) % modulus in
    if a == b
    then equal
    else if ltb 0 delta && ltb delta half
    then greater
    else if ltb half delta && ltb delta modulus
    then less
    else undecidable

abbrev pub must_be_greater : String
must_be_greater = "nextSerial must be greater than baseSerial"

abbrev pub exactly_half : String
exactly_half = "serial distance is exactly 2^31 (undecidable per RFC 1982)"

abbrev pub is_behind : String
is_behind = "nextSerial is behind baseSerial in serial-number arithmetic"

abbrev pub forward_answer : SerialRelation → Bool × Option String
forward_answer greater = (true, none)
forward_answer equal = (false, some must_be_greater)
forward_answer undecidable = (false, some exactly_half)
forward_answer less = (false, some is_behind)

unfoldable pub is_forward : ℕ → ℕ → Bool × Option String
is_forward base nxt = forward_answer (compare base nxt)
