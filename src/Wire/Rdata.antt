-- ===== src/Wire/Rdata.antt =====
-- `encode_rdata` of app/dnswire.py: the wire form of canonical record data. The bytes of an IPv6
-- address are a parameter.
pub mod TxtStrings
use ab_bedd4c0e_tsig_bugfix.Prelude.{
  ℕ, zero, suc, Bool, true, false, ◌&&◌, ◌||◌, List, [], ◌∷◌, ◌++◌, ltb, leb, ◌+◌, ◌-◌, ◌/◌, ◌%◌,
  if◌then◌else◌, length, take, drop,
}
use ab_bedd4c0e_tsig_bugfix.Errors.{
  Result, ok, err, wire_error, unicode_error, value_error, out_of_fuel, ◌>>=◌, ◌>>◌, raise_if,
}
use ab_bedd4c0e_tsig_bugfix.Text.{Text, Bytes, split_dots}
use ab_bedd4c0e_tsig_bugfix.Wire.Bytes.{pack_h, pack_i}
use ab_bedd4c0e_tsig_bugfix.Wire.Names.{encode_name}
use ab_bedd4c0e_tsig_bugfix.Wire.Tsig.{check_u32}
use ab_bedd4c0e_tsig_bugfix.Json.{ℤ, pos, negsuc, int_of_text}

pub record Soa : Type 0 where
  pub mname : Text
  pub rname : Text
  pub serial : ℕ
  pub refresh : ℕ
  pub retry : ℕ
  pub expire : ℕ
  pub minimum : ℕ

-- Canonical record data by type.
pub data Rdata : Type 0 where
  a_data aaaa_data ns_data cname_data txt_data : Text → Rdata
  mx_data : ℕ → Text → Rdata
  soa_data : Soa → Rdata

-- One code point in UTF-8; a surrogate has none.
unfoldable pub utf8_char : ℕ → Result Bytes
utf8_char c =
    if ltb c 0x80
    then ok (c ∷ [])
    else if ltb c 0x800
    then ok ((0xC0 + c / 64) ∷ (0x80 + c % 64) ∷ [])
    else if leb 0xD800 c && leb c 0xDFFF
    then err unicode_error
    else if ltb c 0x10000
    then ok ((0xE0 + c / 4096) ∷ (0x80 + c / 64 % 64) ∷ (0x80 + c % 64) ∷ [])
    else ok
        ((0xF0 + c / 262144) ∷ (0x80 + c / 4096 % 64) ∷ (0x80 + c / 64 % 64) ∷ (0x80 + c % 64) ∷ [])

-- `s.encode("utf-8")`
unfoldable pub utf8 : Text → Result Bytes
utf8 [] = ok []
utf8 (c ∷ s) = do b ← utf8_char c; bs ← utf8 s; ok (b ++ bs)

-- The loop over `range(0, len(text), 255)`, in at most so many rounds.
unfoldable pub txt_from : ℕ → Bytes → Result Bytes
txt_from rounds [] = ok []
txt_from zero (b ∷ bs) = err out_of_fuel
txt_from (suc rounds) (b ∷ bs) = do
  out ← txt_from rounds (drop 255 (b ∷ bs))
  ok (length (take 255 (b ∷ bs)) ∷ take 255 (b ∷ bs) ++ out)

abbrev pub or_zero : Bytes → Bytes
or_zero [] = 0 ∷ []
or_zero (b ∷ bs) = b ∷ bs

unfoldable pub txt_strings : Bytes → Result Bytes
unfolding txt_from
txt_strings text = do out ← txt_from (length text) text; ok (or_zero out)

-- `bytes(int(p) for p in parts)`
abbrev byte_of : ℤ → Result ℕ
byte_of (pos n) = if ltb n 256 then ok n else err value_error
byte_of (negsuc n) = err value_error

unfoldable pub bytes_of_parts : List Text → Result Bytes
bytes_of_parts [] = ok []
bytes_of_parts (p ∷ ps) = do
  z ← int_of_text p
  n ← byte_of z
  rest ← bytes_of_parts ps
  ok (n ∷ rest)

abbrev ipv4_parts : List Text → Result Bytes
ipv4_parts (p ∷ q ∷ r ∷ s ∷ []) = bytes_of_parts (p ∷ q ∷ r ∷ s ∷ [])
ipv4_parts _ = err wire_error

abbrev checked_i : ℕ → Result Bytes
checked_i v = do v' ← check_u32 v; pack_i v'

module _ (packed : Text → Result Bytes) where
  unfoldable pub encode_rdata : Rdata → Result Bytes
  unfolding utf8 utf8_char txt_strings bytes_of_parts check_u32
  encode_rdata (a_data address) = ipv4_parts (split_dots address)
  encode_rdata (aaaa_data address) = packed address
  encode_rdata (ns_data target) = encode_name target
  encode_rdata (cname_data target) = encode_name target
  encode_rdata (mx_data preference exchange) = do
    raise_if (ltb 0xFFFF preference) wire_error
    p ← pack_h preference
    e ← encode_name exchange
    ok (p ++ e)
  encode_rdata (txt_data text) = do bytes ← utf8 text; txt_strings bytes
  encode_rdata (soa_data s) = do
    m ← encode_name s.mname
    r ← encode_name s.rname
    w1 ← checked_i s.serial
    w2 ← checked_i s.refresh
    w3 ← checked_i s.retry
    w4 ← checked_i s.expire
    w5 ← checked_i s.minimum
    ok (m ++ r ++ (w1 ++ w2 ++ w3 ++ w4 ++ w5))
