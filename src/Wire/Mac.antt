-- ===== src/Wire/Mac.antt =====
-- The digests of app/dnswire.py. HMAC-SHA256 is a parameter, `hmac key block`.
use ab_bedd4c0e_tsig_bugfix.Prelude.{ℕ, ◌+◌, some, ◌++◌, length, take}
use ab_bedd4c0e_tsig_bugfix.Errors.{Result, ok, ◌>>=◌}
use ab_bedd4c0e_tsig_bugfix.Text.{Text, Bytes}
use ab_bedd4c0e_tsig_bugfix.Wire.Bytes.{pack_h}
use ab_bedd4c0e_tsig_bugfix.Wire.Tsig.{algorithm_wire, patch_arcount, tsig_variables, append_tsig}
use ab_bedd4c0e_tsig_bugfix.Wire.Query.{Tsig, Query}

-- `_digest_block`
unfoldable pub digest_block : Bytes → ℕ → ℕ → Text → ℕ → ℕ → ℕ → Bytes → Result Bytes
digest_block msg tsig_offset final_arcount key_name when fudge error other = do
  base ← patch_arcount (take tsig_offset msg) final_arcount
  vars ← tsig_variables key_name algorithm_wire when fudge error other
  ok (base ++ vars)

unfoldable pub prior_mac_wire : Bytes → Result Bytes
prior_mac_wire prior_mac = do size ← pack_h (length prior_mac); ok (size ++ prior_mac)

module _ (hmac : Bytes → Bytes → Bytes) where
  -- `expected_request_mac`, at the TSIG entry of the query and its offset
  unfoldable pub expected_request_mac : Bytes → Query → Tsig → ℕ → Result Bytes
  expected_request_mac key q t offset = do
    block ← digest_block q.raw offset q.arcount t.name t.time t.fudge t.error t.other
    ok (hmac key block)

  unfoldable pub continue_running_mac : Bytes → Bytes → Bytes → Result Bytes
  continue_running_mac key running_mac unsigned_message = do
    prior ← prior_mac_wire running_mac
    ok (hmac key (prior ++ unsigned_message))

  -- `sign_response`: the message as sent, and its MAC
  unfoldable pub sign_response :
      Bytes → Bytes → Text → Bytes → ℕ → ℕ → ℕ → ℕ → ℕ → Bytes → Result (Bytes × Bytes)
  sign_response key response key_name prior_mac when fudge orig_id arcount_before error other = do
    base ← patch_arcount response (arcount_before + 1)
    prior ← prior_mac_wire prior_mac
    vars ← tsig_variables key_name algorithm_wire when fudge error other
    let mac = hmac key (prior ++ base ++ vars)
    wire ← append_tsig response key_name when fudge mac orig_id error (some arcount_before) other
    ok (wire, mac)
