-- ===== src/Wire/Response.antt =====
-- The response builders of app/dnswire.py.
use Prim.Native.Nat.{bit_or}
use ab_bedd4c0e_tsig_bugfix.Prelude.{
  ℕ, ◌/◌, ◌%◌, ◌^◌, Bool, Option, none, some, List, [], ◌∷◌, ◌++◌, ◌==◌, if◌then◌else◌, length,
}
use ab_bedd4c0e_tsig_bugfix.Errors.{Result, ok, ◌>>=◌}
use ab_bedd4c0e_tsig_bugfix.Text.{Bytes}
use ab_bedd4c0e_tsig_bugfix.Wire.Bytes.{pack_h, pack_i}
use ab_bedd4c0e_tsig_bugfix.Wire.Tsig.{build_header, append_tsig, tsig_badtime}
use ab_bedd4c0e_tsig_bugfix.Wire.Query.{Tsig, Query}

abbrev pub flag_qr : ℕ
flag_qr = 0x8000

abbrev pub flag_aa : ℕ
flag_aa = 0x0400

abbrev pub flag_tc : ℕ
flag_tc = 0x0200

abbrev pub rcode_noerror : ℕ
rcode_noerror = 0

abbrev pub rcode_formerr : ℕ
rcode_formerr = 1

abbrev pub rcode_servfail : ℕ
rcode_servfail = 2

abbrev pub rcode_nxdomain : ℕ
rcode_nxdomain = 3

abbrev pub rcode_notimp : ℕ
rcode_notimp = 4

abbrev pub rcode_refused : ℕ
rcode_refused = 5

-- The other data of a BADTIME answer: the server's 48-bit time.
unfoldable pub error_other : ℕ → ℕ → Result Bytes
error_other error now =
    if error == tsig_badtime
    then (do hi ← pack_h (now / 2 ^ 32 % 2 ^ 16); lo ← pack_i (now % 2 ^ 32); ok (hi ++ lo))
    else ok []

abbrev with_tsig_error : Query → Bytes → Option ℕ → Option Tsig → ℕ → ℕ → Result Bytes
with_tsig_error q msg (some error) (some t) now when = do
  other ← error_other error now
  append_tsig msg t.name when 300 [] q.id error (some 0) other
with_tsig_error q msg _ _ now when = ok msg

abbrev arcount_for : Option ℕ → ℕ
arcount_for none = 0
arcount_for (some _) = 1

-- `now` and `when` are the clock's two answers.
unfoldable pub make_error_response : Query → ℕ → Option ℕ → ℕ → ℕ → Result Bytes
unfolding error_other
make_error_response q rcode tsig_error now when = do
  head ← build_header q.id (bit_or (bit_or flag_qr flag_aa) rcode) 1 0 0 (arcount_for tsig_error)
  with_tsig_error q (head ++ q.raw_question) tsig_error q.tsig now when

abbrev pub concat : List Bytes → Bytes
concat [] = []
concat (b ∷ bs) = b ++ concat bs

unfoldable pub simple_flags : ℕ → Bool → Bool → ℕ
simple_flags rcode aa tc =
    let flags = bit_or flag_qr rcode in
    let flags_aa = if aa then bit_or flags flag_aa else flags in
    if tc then bit_or flags_aa flag_tc else flags_aa

unfoldable pub make_simple_response : ℕ → Bytes → ℕ → List Bytes → Bool → Bool → Result Bytes
unfolding simple_flags
make_simple_response qid question rcode answers aa tc = do
  head ← build_header qid (simple_flags rcode aa tc) 1 (if tc then 0 else length answers) 0 0
  ok (head ++ question ++ (if tc then [] else concat answers))
