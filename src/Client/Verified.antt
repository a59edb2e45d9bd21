-- ===== src/Client/Verified.antt =====
-- A response that the server signs with `sign_response` of app/dnswire.py, as the client reads its
-- TSIG record and verifies its MAC.
use ab_bedd4c0e_tsig_bugfix.Prelude.{
  ℕ, ◌+◌, ◌%◌, ◌^◌, ◌≤◌, ◌≡◌, refl, sym, ap, ◌∙◌, ◌++◌, List, [], ◌∷◌, arith, none, some, length,
  drop, take, take_of_length, drop_of_length, length-append,
}
use ab_bedd4c0e_tsig_bugfix.Errors.{ok, >>=-eq-ok, ok-inj}
use ab_bedd4c0e_tsig_bugfix.Text.{Text, Bytes}
use ab_bedd4c0e_tsig_bugfix.Text.Laws.{text_eq_refl}
use ab_bedd4c0e_tsig_bugfix.Wire.Bytes.{pack_h}
use ab_bedd4c0e_tsig_bugfix.Wire.Names.RoundTrip.{normal}
use ab_bedd4c0e_tsig_bugfix.Wire.Tsig.{algorithm_wire, tsig_variables}
use ab_bedd4c0e_tsig_bugfix.Wire.Query.{Tsig}
use ab_bedd4c0e_tsig_bugfix.Wire.Query.Reading.{tsig_rr-IsTsigRr}
use ab_bedd4c0e_tsig_bugfix.Wire.Mac.{prior_mac_wire, sign_response}
use ab_bedd4c0e_tsig_bugfix.Client.{Rr, Message, parse_additional, signed_base, verify_response_mac}
use ab_bedd4c0e_tsig_bugfix.Client.Record.{the_rr, entry_of, parse_additional-tsig}
use ab_bedd4c0e_tsig_bugfix.Client.Signature.{
  patch_arcount-inv, length-patched, patch_arcount_again, tsig_variables-low,
  sign_response-IsSignedResponse,
}

verify_response_mac-ok :
    (hmac : Bytes → Bytes → Bytes) (secret prior_mac : Bytes) (key_name : Text) (msg : Message)
    (t : Tsig) (offset : ℕ) (size base vars : Bytes)
    → pack_h (length prior_mac) ≡ ok size
    → signed_base msg offset ≡ ok base
    → tsig_variables key_name algorithm_wire t.time t.fudge t.error t.other ≡ ok vars
    → hmac secret (size ++ prior_mac ++ base ++ vars) ≡ t.mac
    → verify_response_mac hmac msg t offset secret prior_mac key_name ≡ ok t.mac
unfolding verify_response_mac
verify_response_mac-ok hmac secret prior_mac key_name msg t offset size base vars a b c d =
    rw (a, b, c, d, text_eq_refl t.mac) refl

-- What the client makes of a signed response.
pub record IsVerified (hmac : Bytes → Bytes → Bytes) (secret response : Bytes) (key_name : Text)
    (prior_mac : Bytes) (when fudge orig_id error : ℕ) (other : Bytes) (msg : Message) (mac : Bytes)
    : Type 0 where
  pub entry : Tsig
  pub last : List Rr
  pub is_parsed :
      parse_additional 1 msg.raw (length response) none ≡ ok (last, some (entry, length response))
  pub name_eq : entry.name ≡ normal key_name
  pub time_eq : entry.time ≡ when % 2 ^ 48
  pub fudge_eq : entry.fudge ≡ fudge
  pub orig_id_eq : entry.orig_id ≡ orig_id
  pub error_eq : entry.error ≡ error
  pub other_eq : entry.other ≡ other
  pub verified :
      verify_response_mac hmac msg entry (length response) secret prior_mac key_name ≡ ok mac

-- Whatever the digest function, behind a response of 12 bytes or more that sign_response has signed
-- the client's parser finds the TSIG record that was signed, with the time's low 48 bits; and where
-- the message as parsed has the bytes and the count of additional records that were sent, the client
-- accepts that record's MAC under the same secret, prior MAC and key name, and goes on with it.
pub sign_response-IsVerified :
    (hmac : Bytes → Bytes → Bytes) (secret response : Bytes) (key_name : Text) (prior_mac : Bytes)
    (when fudge orig_id before error : ℕ) (other wire mac : Bytes) (msg : Message)
    → 12 ≤ length response
    → sign_response hmac secret response key_name prior_mac when fudge orig_id before error other
      ≡ ok (wire, mac)
    → msg.raw ≡ wire
    → msg.arcount ≡ before + 1
    → IsVerified hmac secret response key_name prior_mac when fudge orig_id error other msg mac
unfolding signed_base prior_mac_wire
sign_response-IsVerified hmac secret response key_name prior_mac when fudge orig_id before error
      other wire mac msg long h same_raw same_count =
    let s =
      sign_response-IsSignedResponse hmac secret response key_name prior_mac when fudge orig_id
        before error other wire mac h in
    let r = tsig_rr-IsTsigRr key_name when fudge mac orig_id error other s.rr s.rr_of in
    let size : length response ≡ length s.base =
      sym (length-patched response (before + 1) long)
      ∙ sym (ap (length {A = ℕ}) (patch_arcount-inv response s.base (before + 1) s.patched).0) in
    let raw_eq : msg.raw ≡ s.base ++ s.rr = same_raw ∙ s.layout in
    let at : drop (length response) msg.raw ≡ s.rr =
      ap (drop (length response)) raw_eq ∙ drop_of_length (length response) s.base s.rr size in
    let low : take (length response) msg.raw ≡ s.base =
      ap (take (length response)) raw_eq ∙ take_of_length (length response) s.base s.rr size in
    let inside : length response ≤ length msg.raw =
      omega (arith, size, ap (length {A = ℕ}) raw_eq, length-append {0} s.base s.rr) in
    let (sz, e, k) = >>=-eq-ok (pack_h (length prior_mac)) _ s.prior_of in
    let entry : Tsig =
      entry_of key_name when fudge mac orig_id error other s.rr r msg.raw (length response) at
        inside in
    let base_of : signed_base msg (length response) ≡ ok s.base =
      rw (low, same_count) (patch_arcount_again response s.base (before + 1) long s.patched) in
    let mac_of : hmac secret (sz ++ prior_mac ++ s.base ++ s.vars) ≡ mac =
      ap (λ (p : Bytes). hmac secret (p ++ s.base ++ s.vars)) (ok-inj k) ∙ sym s.mac_eq in
    record {
      entry = entry;
      last =
          the_rr key_name when fudge mac orig_id error other s.rr r msg.raw (length response) at
            inside
          ∷ [];
      is_parsed =
          parse_additional-tsig key_name when fudge mac orig_id error other s.rr r msg.raw
            (length response) at inside;
      name_eq = refl;
      time_eq = refl;
      fudge_eq = refl;
      orig_id_eq = refl;
      error_eq = refl;
      other_eq = refl;
      verified =
          verify_response_mac-ok hmac secret prior_mac key_name msg entry (length response) sz
            s.base s.vars e base_of
            (tsig_variables-low key_name when fudge error other s.vars s.vars_of) mac_of;
    }
