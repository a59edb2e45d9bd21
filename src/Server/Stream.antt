-- ===== src/Server/Stream.antt =====
-- `_stream_signed_transfer` of app/dns_server.py: the frames that one transfer sends, from the plain
-- messages in their order. The first and the last message are signed; `first_signed_mac` is kept from
-- the first to the last. Sending and the heartbeats behind each send are not part of the model.
pub mod Chain
use ab_bedd4c0e_tsig_bugfix.Prelude.{
  ℕ, zero, suc, Bool, true, false, Option, none, some, List, [], ◌∷◌, ◌++◌, ◌==◌, ◌||◌,
  if◌then◌else◌,
}
use ab_bedd4c0e_tsig_bugfix.Errors.{Result, ok, ◌>>=◌}
use ab_bedd4c0e_tsig_bugfix.Text.{Text, Bytes}
use ab_bedd4c0e_tsig_bugfix.Wire.Mac.{sign_response}
use ab_bedd4c0e_tsig_bugfix.Server.Packer.{frame, wrap, rr_batches, transfer_budget}

-- What `_stream_signed_transfer` takes from the plan, the query and the clock.
pub record Session : Type 0 where
  pub secret : Bytes
  pub key_name : Text
  pub qid : ℕ
  pub request_mac : Bytes
  pub when : ℕ

-- The fudge of every signed response.
abbrev pub response_fudge : ℕ
response_fudge = 300

abbrev pub prior_of : ℕ → Bytes → Option Bytes → Bytes
prior_of zero request_mac first = request_mac
prior_of (suc i) request_mac none = []
prior_of (suc i) request_mac (some mac) = mac

abbrev keep_first : ℕ → Bytes → Option Bytes → Option Bytes
keep_first zero mac first = some mac
keep_first (suc i) mac first = first

module _ (hmac : Bytes → Bytes → Bytes) (s : Session) where
  -- `send_indexed`: the frame sent, and `first_signed_mac` afterwards
  unfoldable pub send_indexed : ℕ → Bytes → Bool → Option Bytes → Result (Bytes × Option Bytes)
  send_indexed i plain is_last first =
      if i == 0 || is_last
      then (do
        (signed, mac) ←
            sign_response hmac s.secret plain s.key_name (prior_of i s.request_mac first) s.when
              response_fudge s.qid 0 0 []
        out ← frame signed
        ok (out, keep_first i mac first))
      else (do out ← frame plain; ok (out, first))

  -- The loop with its lookahead: `pending` is sent when the next message is there.
  unfoldable pub send_from : ℕ → Bytes → List Bytes → Option Bytes → Result (List Bytes)
  send_from i pending [] first = do (out, first') ← send_indexed i pending true first; ok (out ∷ [])
  send_from i pending (plain ∷ plains) first = do
    (out, first') ← send_indexed i pending false first
    outs ← send_from (suc i) plain plains first'
    ok (out ∷ outs)

  unfoldable pub stream_signed_transfer : Bytes → List Bytes → Result (List Bytes)
  stream_signed_transfer plain plains = send_from 0 plain plains none
