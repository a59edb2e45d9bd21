-- ===== src/Client/Signature.antt =====
-- The parts of a response that `sign_response` of app/dnswire.py has signed.
use ab_bedd4c0e_tsig_bugfix.Prelude.{
  ℕ, ◌+◌, ◌%◌, ◌^◌, ◌≤◌, ◌≡◌, sym, ap, ◌∙◌, ◌++◌, append_assoc, arith, some, length, drop, take,
  take_of_length, drop_of_length, length-append, length-take, length-drop,
}
use ab_bedd4c0e_tsig_bugfix.Errors.{ok, >>=-eq-ok, ok-inj}
use ab_bedd4c0e_tsig_bugfix.Text.{Text, Bytes}
use ab_bedd4c0e_tsig_bugfix.Wire.Bytes.{be16, pack_h, pack_h-inv}
use ab_bedd4c0e_tsig_bugfix.Wire.Tsig.{
  algorithm_wire, append_tsig, patch_arcount, tsig_rr, tsig_variables,
}
use ab_bedd4c0e_tsig_bugfix.Wire.Mac.{prior_mac_wire, sign_response}
use ab_bedd4c0e_tsig_bugfix.Client.Accepted.{pack_time-low}

abbrev patched_of : Bytes → ℕ → Bytes
patched_of msg n = take 10 msg ++ be16 n ++ drop 12 msg

pub patch_arcount-inv :
    (msg w : Bytes) (n : ℕ)
    → patch_arcount msg n ≡ ok w
    → (w ≡ patched_of msg n) × (pack_h n ≡ ok (be16 n))
unfolding patch_arcount
patch_arcount-inv msg w n h =
    let (c, e, k) = >>=-eq-ok (pack_h n) _ h in
    let i = pack_h-inv n c e in (cc, e ∙ ap (λ (b : Bytes). ok b) i)

pub length-patched :
    (msg : Bytes) (n : ℕ) → 12 ≤ length msg → length (patched_of msg n) ≡ length msg
length-patched msg n h = omega (
  arith,
  length-append {0} (take 10 msg ++ be16 n) (drop 12 msg),
  length-append {0} (take 10 msg) (be16 n),
  length-take {0} 10 msg,
  length-drop {0} 12 msg,
)

-- A message that says already how many additional records there are.
pub patch_arcount_again :
    (msg w : Bytes) (n : ℕ)
    → 12 ≤ length msg
    → patch_arcount msg n ≡ ok w
    → patch_arcount w n ≡ ok w
unfolding patch_arcount
patch_arcount_again msg w n long h =
    let (e, k) = patch_arcount-inv msg w n h in
    let size : 10 ≡ length (take 10 msg) = omega (arith, length-take {0} 10 msg) in
    let size' : 12 ≡ length (take 10 msg ++ be16 n) =
      omega (arith, size, length-append {0} (take 10 msg) (be16 n)) in
    let low : take 10 w ≡ take 10 msg =
      ap (take 10) (e ∙ append_assoc (take 10 msg) (be16 n) (drop 12 msg))
      ∙ take_of_length 10 (take 10 msg) (be16 n ++ drop 12 msg) size in
    let high : drop 12 w ≡ drop 12 msg =
      ap (drop 12) e ∙ drop_of_length 12 (take 10 msg ++ be16 n) (drop 12 msg) size' in
    rw (k, low, high) (ap (λ (b : Bytes). ok b) (sym e))

pub tsig_variables-low :
    (key_name : Text) (when fudge error : ℕ) (other vars : Bytes)
    → tsig_variables key_name algorithm_wire when fudge error other ≡ ok vars
    → tsig_variables key_name algorithm_wire (when % 2 ^ 48) fudge error other ≡ ok vars
unfolding tsig_variables
tsig_variables-low key_name when fudge error other vars h = rw pack_time-low h

-- The parts of a signed response.
pub record IsSignedResponse (hmac : Bytes → Bytes → Bytes) (secret response : Bytes)
    (key_name : Text) (prior_mac : Bytes) (when fudge orig_id before error : ℕ)
    (other wire mac : Bytes) : Type 0 where
  pub base : Bytes
  pub prior : Bytes
  pub vars : Bytes
  pub rr : Bytes
  pub patched : patch_arcount response (before + 1) ≡ ok base
  pub prior_of : prior_mac_wire prior_mac ≡ ok prior
  pub vars_of : tsig_variables key_name algorithm_wire when fudge error other ≡ ok vars
  pub rr_of : tsig_rr key_name when fudge mac orig_id error other ≡ ok rr
  pub mac_eq : mac ≡ hmac secret (prior ++ base ++ vars)
  pub layout : wire ≡ base ++ rr

pub sign_response-IsSignedResponse :
    (hmac : Bytes → Bytes → Bytes) (secret response : Bytes) (key_name : Text) (prior_mac : Bytes)
    (when fudge orig_id before error : ℕ) (other wire mac : Bytes)
    → sign_response hmac secret response key_name prior_mac when fudge orig_id before error other
      ≡ ok (wire, mac)
    → IsSignedResponse hmac secret response key_name prior_mac when fudge orig_id before error other
        wire mac
unfolding sign_response append_tsig
sign_response-IsSignedResponse hmac secret response key_name prior_mac when fudge orig_id before
      error other wire mac h =
    let (base, e1, h1) = >>=-eq-ok (patch_arcount response (before + 1)) _ h in
    let (prior, e2, h2) = >>=-eq-ok (prior_mac_wire prior_mac) _ h1 in
    let (vars, e3, h3) =
      >>=-eq-ok (tsig_variables key_name algorithm_wire when fudge error other) _ h2 in
    let (w, e4, h4) =
      >>=-eq-ok
        (append_tsig response key_name when fudge (hmac secret (prior ++ base ++ vars)) orig_id
          error (some before) other)
        _ h3 in
    let (rr, e5, h5) =
      >>=-eq-ok
        (tsig_rr key_name when fudge (hmac secret (prior ++ base ++ vars)) orig_id error other) _
        e4 in
    let (head, e6, h6) = >>=-eq-ok (patch_arcount response (before + 1)) _ h5 in
    let pair = ok-inj h4 in
    let same_mac : mac ≡ hmac secret (prior ++ base ++ vars) =
      sym (ap (λ (p : Bytes × Bytes). p.1) pair) in
    let same_wire : w ≡ wire = ap (λ (p : Bytes × Bytes). p.0) pair in
    let same_base : base ≡ head = ok-inj (sym e1 ∙ e6) in
    record {
      base = base;
      prior = prior;
      vars = vars;
      rr = rr;
      patched = e1;
      prior_of = e2;
      vars_of = e3;
      rr_of = ap (λ (m : Bytes). tsig_rr key_name when fudge m orig_id error other) same_mac ∙ e5;
      mac_eq = same_mac;
      layout = sym same_wire ∙ sym (ok-inj h6) ∙ ap (λ b. b ++ rr) (sym same_base);
    }
