-- ===== src/Server/Transfer.antt =====
-- The record streams of app/dns_server.py, `axfr_rr_stream` and `ixfr_rr_stream`, and
-- `_handle_transfer` from a granted plan to the frames sent. A generator is the list of what it
-- yields; where it raises, the whole transfer is an error.
pub mod Streams
use ab_bedd4c0e_tsig_bugfix.Prelude.{
  ℕ, zero, suc, ◌+◌, ◌-◌, Bool, true, false, not, ◌&&◌, ◌||◌, Option, none, some, List, [], ◌∷◌,
  ◌++◌, ◌==◌, if◌then◌else◌, ltb, leb,
}
use ab_bedd4c0e_tsig_bugfix.Errors.{Result, ok, err, key_error, type_error, ◌>>=◌}
use ab_bedd4c0e_tsig_bugfix.Text.{Text, Bytes, codes, text_eq, text_leb}
use ab_bedd4c0e_tsig_bugfix.Serial.{SerialRelation, greater, compare}
use ab_bedd4c0e_tsig_bugfix.Storage.Tables.{
  order_by, Database, VersionRow, RecordRow, ChangeRow, select, delete, fetchone,
}
use ab_bedd4c0e_tsig_bugfix.Wire.Tsig.{class_in, pack_rr, type_axfr, type_ixfr}
use ab_bedd4c0e_tsig_bugfix.Wire.Query.{Query}
use ab_bedd4c0e_tsig_bugfix.Server.Packer.{question_for, rr_batches, wrap, transfer_budget}
use ab_bedd4c0e_tsig_bugfix.Server.Stream.{Session, stream_signed_transfer}
use ab_bedd4c0e_tsig_bugfix.Server.Access.{Mode, axfr, ixfr, Plan, version_by_serial}

abbrev pub soa_type : Text
soa_type = codes "SOA"

-- `TYPES_BY_NAME`
abbrev types_by_name : List (Text × ℕ)
types_by_name =
    (codes "A", 1)
    ∷ (codes "NS", 2)
    ∷ (codes "CNAME", 5)
    ∷ (codes "SOA", 6)
    ∷ (codes "MX", 15)
    ∷ (codes "TXT", 16)
    ∷ (codes "AAAA", 28)
    ∷ (codes "IXFR", 251)
    ∷ (codes "AXFR", 252)
    ∷ []

abbrev type_in : Text → List (Text × ℕ) → Result ℕ
type_in name [] = err key_error
type_in name ((n, t) ∷ rest) =
    let later = type_in name rest in if text_eq n name then ok t else later

unfoldable pub type_by_name : Text → Result ℕ
unfolding text_eq
type_by_name name = type_in name types_by_name

-- `_rr_wire`
unfoldable pub rr_wire : RecordRow → Result Bytes
rr_wire r = do t ← type_by_name r.rtype; pack_rr r.name t class_in r.ttl r.rdata_wire

abbrev change_wire : ChangeRow → Result Bytes
change_wire c = do t ← type_by_name c.rtype; pack_rr c.name t class_in c.ttl c.rdata_wire

abbrev pub rr_wires : List RecordRow → Result (List Bytes)
rr_wires [] = ok []
rr_wires (r ∷ rs) = do w ← rr_wire r; ws ← rr_wires rs; ok (w ∷ ws)

abbrev change_wires : List ChangeRow → Result (List Bytes)
change_wires [] = ok []
change_wires (c ∷ cs) = do w ← change_wire c; ws ← change_wires cs; ok (w ∷ ws)

-- `ORDER BY name,rtype,rdata`
abbrev pub record_le : RecordRow → RecordRow → Bool
record_le a b =
    if text_eq a.name b.name
    then if text_eq a.rtype b.rtype then text_leb a.rdata b.rdata else text_leb a.rtype b.rtype
    else text_leb a.name b.name

-- `ORDER BY seq`
abbrev pub change_le : ChangeRow → ChangeRow → Bool
change_le a b = leb a.seq b.seq

abbrev pub in_version : Text → ℕ → RecordRow → Bool
in_version zone v r = text_eq r.zone zone && r.version_id == v

abbrev pub is_apex_soa : Text → RecordRow → Bool
is_apex_soa zone r = text_eq r.name zone && text_eq r.rtype soa_type

abbrev pub of_soa : Option RecordRow → Result RecordRow
of_soa none = err type_error
of_soa (some r) = ok r

-- The SOA record of a snapshot.
abbrev pub soa_of : Database → Text → ℕ → Result RecordRow
soa_of snap zone v =
    of_soa (
      fetchone (select (λ (r : RecordRow). in_version zone v r && is_apex_soa zone r) snap.records))

unfoldable pub axfr_rr_stream : Database → Plan → Result (List Bytes)
unfolding order_by text_leb
axfr_rr_stream snap plan = do
  soa ← soa_of snap plan.zone plan.target_version
  first ← rr_wire soa
  let rows = order_by record_le (select (in_version plan.zone plan.target_version) snap.records)
  mids ← rr_wires (delete (is_apex_soa plan.zone) rows)
  last ← rr_wire soa
  ok (first ∷ mids ++ last ∷ [])

-- The publishes from a version on, so many of them.
abbrev deltas_from : Database → Text → ℕ → ℕ → Result (List Bytes)
deltas_from snap zone vid zero = ok []
deltas_from snap zone vid (suc n) = do
  ws ← change_wires (
      order_by change_le
        (select (λ (c : ChangeRow). text_eq c.zone zone && c.version_id == vid) snap.changes))
  rest ← deltas_from snap zone (vid + 1) n
  ok (ws ++ rest)

abbrev of_start : Option VersionRow → Result ℕ
of_start none = err type_error
of_start (some v) = ok v.version_id

abbrev deltas : Database → Plan → Option ℕ → Result (List Bytes)
deltas snap plan none = ok []
deltas snap plan (some client_serial) = elim (compare client_serial plan.target_serial) [
  | greater ↦ do
    v0 ← of_start (version_by_serial snap plan.zone client_serial)
    deltas_from snap plan.zone (v0 + 1) (plan.target_version - v0)
  | _ ↦ ok []
]

unfoldable pub ixfr_rr_stream : Database → Plan → Option ℕ → Result (List Bytes)
unfolding order_by
ixfr_rr_stream snap plan client_serial = do
  target_soa ← soa_of snap plan.zone plan.target_version
  first ← rr_wire target_soa
  rest ← deltas snap plan client_serial
  ok (first ∷ rest)

abbrev is_axfr : Option Mode → Bool
is_axfr (some axfr) = true
is_axfr _ = false

abbrev wraps : ℕ → Bytes → List (List Bytes) → Result (List Bytes)
wraps qid question [] = ok []
wraps qid question (b ∷ bs) = do m ← wrap qid question b; ms ← wraps qid question bs; ok (m ∷ ms)

abbrev tsig_space : ℕ
tsig_space = 400

abbrev stream_all : (Bytes → Bytes → Bytes) → Session → List Bytes → Result (List Bytes)
stream_all hmac s [] = ok []
stream_all hmac s (m ∷ ms) = stream_signed_transfer hmac s m ms

-- `_handle_transfer` at the MAC of the request and the configured budget: the frames sent.
unfoldable pub handle_transfer :
    (Bytes → Bytes → Bytes) → Database → Plan → Query → Bytes → ℕ → ℕ → Result (List Bytes)
unfolding axfr_rr_stream ixfr_rr_stream
handle_transfer hmac snap plan q request_mac when configured = do
  rrs ←
      if is_axfr plan.mode
      then axfr_rr_stream snap plan
      else ixfr_rr_stream snap plan q.client_soa_serial
  question ← question_for plan.zone (if is_axfr plan.mode then type_axfr else type_ixfr)
  msgs ← wraps q.id question (rr_batches question rrs (transfer_budget configured) tsig_space)
  stream_all hmac
      (record {
        secret = plan.secret;
        key_name = plan.key_name;
        qid = plan.qid;
        request_mac = request_mac;
        when = when;
      })
      msgs
