-- ===== src/Server/Handlers/Replies.antt =====
-- What the replies of `UDPHandler.handle` look like, and the denials of `_deny`.
use ab_bedd4c0e_tsig_bugfix.Prelude.{
  ℕ, ◌≤◌, ◌≡◌, ◌⊎◌, Bool, true, false, none, some, [], ◌∷◌, ◌++◌, length, append-nil,
}
use ab_bedd4c0e_tsig_bugfix.Errors.{ok, >>=-eq-ok}
use ab_bedd4c0e_tsig_bugfix.Text.{Bytes}
use ab_bedd4c0e_tsig_bugfix.Storage.Tables.{Database}
use ab_bedd4c0e_tsig_bugfix.Wire.Tsig.{build_header}
use ab_bedd4c0e_tsig_bugfix.Wire.Query.{Query}
use ab_bedd4c0e_tsig_bugfix.Wire.Response.{
  rcode_noerror, rcode_servfail, simple_flags, make_simple_response,
}
use ab_bedd4c0e_tsig_bugfix.Server.Answer.{Answer, reply, is_transfer, answer_question}
use ab_bedd4c0e_tsig_bugfix.Server.Handlers.{max_udp_payload, is_transfer_type}

-- A response without records: its header counts none, and the question ends it.
abbrev pub IsEmptyReply : Query → ℕ → Bool → Bool → Bytes → Type 0
IsEmptyReply q rcode aa tc resp =
    (head : Bytes) × (build_header q.id (simple_flags rcode aa tc) 1 0 0 0 ≡ ok head)
    × (resp ≡ head ++ q.raw_question)

pub empty-IsEmptyReply :
    (q : Query) (rcode : ℕ) (aa tc : Bool) (resp : Bytes)
    → make_simple_response q.id q.raw_question rcode [] aa tc ≡ ok resp
    → IsEmptyReply q rcode aa tc resp
unfolding make_simple_response
empty-IsEmptyReply q rcode aa true resp h =
    let (head, b, e) = >>=-eq-ok (build_header q.id (simple_flags rcode aa true) 1 0 0 0) _ h in
    (head, b, by_end head (cc e))
  where
    by_end : (head : Bytes) → head ++ q.raw_question ++ [] ≡ resp → resp ≡ head ++ q.raw_question
    by_end head e = cc (e, append-nil (head ++ q.raw_question))
empty-IsEmptyReply q rcode aa false resp h =
    let (head, b, e) = >>=-eq-ok (build_header q.id (simple_flags rcode aa false) 1 0 0 0) _ h in
    (head, b, by_end head (cc e))
  where
    by_end : (head : Bytes) → head ++ q.raw_question ++ [] ≡ resp → resp ≡ head ++ q.raw_question
    by_end head e = cc (e, append-nil (head ++ q.raw_question))

-- A response with records: as they are one byte string, its header counts one answer.
abbrev pub IsFullReply : Query → ℕ → Bytes → Bytes → Type 0
IsFullReply q rcode records resp =
    (head : Bytes) × (build_header q.id (simple_flags rcode true false) 1 1 0 0 ≡ ok head)
    × (resp ≡ head ++ q.raw_question ++ records)

-- The reply to an answer: without records; or with all of them, in 512 bytes; or cut short, without
-- records and with the truncation flag.
abbrev pub IsUdpAnswer : Query → Answer → Bytes → Type 0
IsUdpAnswer q is_transfer resp = ⊥
IsUdpAnswer q (reply rcode none) resp = IsEmptyReply q rcode true false resp
IsUdpAnswer q (reply rcode (some [])) resp = IsEmptyReply q rcode true false resp
IsUdpAnswer q (reply rcode (some (b ∷ bs))) resp =
    (IsFullReply q rcode (b ∷ bs) resp × (length resp ≤ max_udp_payload))
    ⊎ IsEmptyReply q rcode true true resp

-- What a datagram that holds a query is answered with.
abbrev pub IsUdpReply : Database → Query → Bytes → Type 0
IsUdpReply db q resp =
    ((is_transfer_type q.qtype ≡ true) × IsEmptyReply q rcode_noerror true true resp)
    ⊎ ((is_transfer_type q.qtype ≡ false)
        × (a : Answer) × (answer_question db q ≡ ok a)
        × IsUdpAnswer q a resp)
    ⊎ IsEmptyReply q rcode_servfail true false resp
