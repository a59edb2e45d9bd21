-- ===== src/Server/Packer.antt =====
-- Message assembly of app/dns_server.py: `_question_for`, `_frame`, `_wrap`, `_rr_batches`. The
-- records of a transfer are a list of wire forms, and a batch is the list of those that go into one
-- message.
pub mod Batches
use Prim.Native.Nat.{bit_or, min}
use ab_bedd4c0e_tsig_bugfix.Prelude.{
  ℕ, ◌+◌, ◌-◌, Bool, true, false, ◌&&◌, List, [], ◌∷◌, ◌++◌, ltb, length, if◌then◌else◌,
}
use ab_bedd4c0e_tsig_bugfix.Errors.{Result, ok, ◌>>=◌}
use ab_bedd4c0e_tsig_bugfix.Text.{Text, Bytes}
use ab_bedd4c0e_tsig_bugfix.Wire.Bytes.{pack_h}
use ab_bedd4c0e_tsig_bugfix.Wire.Names.{encode_name}
use ab_bedd4c0e_tsig_bugfix.Wire.Tsig.{build_header, class_in}
use ab_bedd4c0e_tsig_bugfix.Wire.Response.{concat, flag_qr, flag_aa, rcode_noerror}

-- `_transfer_budget`, at the configured XFER_MESSAGE_BUDGET
unfoldable pub transfer_budget : ℕ → ℕ
transfer_budget configured = min configured 65000

unfoldable pub question_for : Text → ℕ → Result Bytes
question_for zone qtype = do
  name ← encode_name zone
  t ← pack_h qtype
  c ← pack_h class_in
  ok (name ++ t ++ c)

unfoldable pub frame : Bytes → Result Bytes
frame msg = do size ← pack_h (length msg); ok (size ++ msg)

unfoldable pub wrap : ℕ → Bytes → List Bytes → Result Bytes
wrap qid question answers = do
  head ← build_header qid (bit_or (bit_or flag_qr flag_aa) rcode_noerror) 1 (length answers) 0 0
  ok (head ++ question ++ concat answers)

abbrev pub has_some : List Bytes → Bool
has_some [] = false
has_some (_ ∷ _) = true

-- The loop of `_rr_batches`: `cur` and `cur_len` are its variables, `base` its `base_header`.
unfoldable pub pack_from : ℕ → ℕ → List Bytes → ℕ → List Bytes → List (List Bytes)
pack_from room base cur cur_len [] = cur ∷ []
pack_from room base cur cur_len (rr ∷ rrs) = elim (has_some cur && ltb room (cur_len + length rr)) [
  | true ↦ cur ∷ pack_from room base (rr ∷ []) (base + length rr) rrs
  | false ↦ pack_from room base (cur ++ rr ∷ []) (cur_len + length rr) rrs
]

-- `_rr_batches`
unfoldable pub rr_batches : Bytes → List Bytes → ℕ → ℕ → List (List Bytes)
unfolding pack_from
rr_batches question rrs budget tsig_space =
    let base = 12 + length question in pack_from (budget - tsig_space) base [] base rrs
