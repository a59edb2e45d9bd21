-- ===== src/Server/Answer.antt =====
-- `find_zone_by_name` of app/storage.py and `answer_question` of app/dns_server.py: which zone a
-- query name belongs to, and the answer to a query that is no transfer.
pub mod Zones
use ab_bedd4c0e_tsig_bugfix.Prelude.{
  ℕ, Bool, true, false, not, ◌&&◌, ◌||◌, Option, none, some, List, [], ◌∷◌, ◌++◌, ◌==◌,
  if◌then◌else◌, ltb, length,
}
use ab_bedd4c0e_tsig_bugfix.Errors.{Result, ok, err, ◌>>=◌}
use ab_bedd4c0e_tsig_bugfix.Text.{Text, Bytes, codes, dot, text_eq, lower, ends_with, text_leb}
use ab_bedd4c0e_tsig_bugfix.Storage.Tables.{order_by, Database, ZoneRow, RecordRow, select, found}
use ab_bedd4c0e_tsig_bugfix.Wire.Tsig.{class_in, class_any, type_axfr, type_ixfr, type_any}
use ab_bedd4c0e_tsig_bugfix.Wire.Query.{Query}
use ab_bedd4c0e_tsig_bugfix.Wire.Response.{
  concat, rcode_noerror, rcode_nxdomain, rcode_notimp, rcode_refused,
}
use ab_bedd4c0e_tsig_bugfix.Server.Transfer.{in_version, rr_wires}

-- `name == zn or name.endswith("." + zn)`
abbrev pub encloses : Text → Text → Bool
encloses name zn = text_eq name zn || ends_with name (dot ∷ zn)

abbrev pub longer : ZoneRow → Option ZoneRow → Bool
longer z none = true
longer z (some best) = ltb (length best.name) (length z.name)

-- The loop of `find_zone_by_name`, with its variable `best`.
unfoldable pub best_zone : Text → Option ZoneRow → List ZoneRow → Option ZoneRow
best_zone name best [] = best
best_zone name best (z ∷ zs) =
    if encloses name z.name && longer z best
    then best_zone name (some z) zs
    else best_zone name best zs

unfoldable pub find_zone_by_name : Database → Text → Option ZoneRow
unfolding best_zone
find_zone_by_name db name = best_zone (lower name) none db.zones

-- What `answer_question` returns: a reply code with the answers, if any, or the sign that the query
-- is a transfer (the code -1).
pub data Answer : Type 0 where
  reply : ℕ → Option Bytes → Answer
  is_transfer : Answer

abbrev type_text : ℕ → List (ℕ × Text) → Option Text
type_text t [] = none
type_text t ((n, name) ∷ rest) = let later = type_text t rest in if n == t then some name else later

-- `TYPES_BY_VALUE.get`
abbrev types_by_value : ℕ → Option Text
types_by_value t = type_text t (
    (1, codes "A")
    ∷ (2, codes "NS")
    ∷ (5, codes "CNAME")
    ∷ (6, codes "SOA")
    ∷ (15, codes "MX")
    ∷ (16, codes "TXT")
    ∷ (28, codes "AAAA")
    ∷ (251, codes "IXFR")
    ∷ (252, codes "AXFR")
    ∷ [])

abbrev at_name : Text → ℕ → Text → RecordRow → Bool
at_name zone version name r = in_version zone version r && text_eq r.name name

-- `ORDER BY rtype,rdata`
abbrev type_le : RecordRow → RecordRow → Bool
type_le a b = if text_eq a.rtype b.rtype then text_leb a.rdata b.rdata else text_leb a.rtype b.rtype

abbrev rdata_le : RecordRow → RecordRow → Bool
rdata_le a b = text_leb a.rdata b.rdata

abbrev reply_rows : Bool → List RecordRow → Result Answer
reply_rows exists [] = ok (reply (if exists then rcode_noerror else rcode_nxdomain) (some []))
reply_rows exists (r ∷ rs) = do ws ← rr_wires (r ∷ rs); ok (reply rcode_noerror (some (concat ws)))

abbrev typed_rows : Database → Text → ℕ → Text → Option Text → Result Answer
typed_rows db zone version qname none = ok (reply rcode_notimp none)
typed_rows db zone version qname (some tname) =
    reply_rows (found (select (at_name zone version qname) db.records)) (
      order_by rdata_le (
        select (λ (r : RecordRow). at_name zone version qname r && text_eq r.rtype tname)
          db.records))

abbrev in_zone_answer : Database → Query → ZoneRow → Result Answer
in_zone_answer db q z =
    if not (text_eq q.qname z.name) && not (ends_with q.qname (dot ∷ z.name))
    then ok (reply rcode_refused none)
    else if q.qtype == type_axfr || q.qtype == type_ixfr
    then ok is_transfer
    else if q.qtype == type_any
    then reply_rows (found (select (at_name z.name z.current_version q.qname) db.records))
        (order_by type_le (select (at_name z.name z.current_version q.qname) db.records))
    else typed_rows db z.name z.current_version q.qname (types_by_value q.qtype)

abbrev zone_answer : Database → Query → Option ZoneRow → Result Answer
zone_answer db q none = ok (reply rcode_refused none)
zone_answer db q (some z) = in_zone_answer db q z

unfoldable pub answer_question : Database → Query → Result Answer
unfolding find_zone_by_name order_by text_leb
answer_question db q =
    if not (q.qclass == class_in || q.qclass == class_any)
    then ok (reply rcode_refused none)
    else zone_answer db q (find_zone_by_name db q.qname)
