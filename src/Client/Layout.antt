-- ===== src/Client/Layout.antt =====
-- The parts of a query that `build_tsig_query` has built.
use ab_bedd4c0e_tsig_bugfix.Prelude.{
  ℕ, ◌+◌, ◌≤◌, ◌≡◌, ap, ◌++◌, [], arith, length, drop, Option, none, if◌then◌else◌,
}
use ab_bedd4c0e_tsig_bugfix.Errors.{ok, >>=-eq-ok}
use ab_bedd4c0e_tsig_bugfix.Text.{Text, Bytes, is_empty}
use ab_bedd4c0e_tsig_bugfix.Wire.Bytes.{
  be16, pack_h, pack_h-inv, pack_hhh, pack_hhh-inv, header_layout,
}
use ab_bedd4c0e_tsig_bugfix.Wire.Names.{encode_name}
use ab_bedd4c0e_tsig_bugfix.Wire.Tsig.{
  algorithm_wire, build_header, patch_arcount, tsig_variables, tsig_rr, class_in,
}
use ab_bedd4c0e_tsig_bugfix.Wire.Query.{read_authority}
use ab_bedd4c0e_tsig_bugfix.Client.{question_wire, build_tsig_query}

abbrev pub section_count : Bytes → ℕ
section_count auth = if is_empty auth then 0 else 1

-- What the server's loop over the authority section gives where `auth` stands.
pub record IsAuthority (auth : Bytes) (serial : Option ℕ) : Type 0 where
  pub read :
      (buf rest : Bytes) (off : ℕ)
      → drop off buf ≡ auth ++ rest
      → off ≤ length buf
      → read_authority (section_count auth) buf off none ≡ ok (off + length auth, serial)

pub IsAuthority-empty : IsAuthority [] none
IsAuthority-empty = record {
  read = λ buf rest off at inside.
      unfold read_authority in ap (λ (k : ℕ). ok (k, none)) {x = off} {y = off + 0} (omega arith);
}

build_header-inv :
    (qid flags qd an ns ar : ℕ) (w : Bytes)
    → build_header qid flags qd an ns ar ≡ ok w
    → w ≡ header_layout qid flags qd an ns ar
unfolding build_header
build_header-inv qid flags qd an ns ar w h =
    let (x, e, k) = >>=-eq-ok (pack_hhh qid flags qd) _ h in
    let (y, e', k') = >>=-eq-ok (pack_hhh an ns ar) _ k in
    cc (pack_hhh-inv qid flags qd x e, pack_hhh-inv an ns ar y e')

pub record IsQuestion (qname : Text) (qtype : ℕ) (question : Bytes) : Type 0 where
  pub name_wire : Bytes
  pub name_encoded : encode_name qname ≡ ok name_wire
  pub layout : question ≡ name_wire ++ be16 qtype ++ be16 class_in

question_wire-inv :
    (qname : Text) (qtype : ℕ) (question : Bytes)
    → question_wire qname qtype ≡ ok question
    → IsQuestion qname qtype question
unfolding question_wire
question_wire-inv qname qtype question h =
    let (w, e, k) = >>=-eq-ok (encode_name qname) _ h in
    let (t, e', k') = >>=-eq-ok (pack_h qtype) _ k in
    let (c, e'', k'') = >>=-eq-ok (pack_h class_in) _ k' in
    record {
      name_wire = w;
      name_encoded = e;
      layout = cc (pack_h-inv qtype t e', pack_h-inv class_in c e'');
    }

-- The parts of a signed query.
pub record IsSigned (hmac : Bytes → Bytes → Bytes) (qid : ℕ) (qname : Text) (qtype : ℕ)
    (key_name : Text) (secret : Bytes) (when fudge : ℕ) (auth msg : Bytes) : Type 0 where
  pub head : Bytes
  pub question : Bytes
  pub signed : Bytes
  pub vars : Bytes
  pub rr : Bytes
  pub head_eq : head ≡ header_layout qid 256 1 0 (section_count auth) 1
  pub is_question : IsQuestion qname qtype question
  pub patched : patch_arcount (head ++ question ++ auth) 1 ≡ ok signed
  pub vars_of : tsig_variables key_name algorithm_wire when fudge 0 [] ≡ ok vars
  pub rr_of : tsig_rr key_name when fudge (hmac secret (signed ++ vars)) qid 0 [] ≡ ok rr
  pub layout : msg ≡ head ++ question ++ auth ++ rr

pub build_tsig_query-IsSigned :
    (hmac : Bytes → Bytes → Bytes) (qid : ℕ) (qname : Text) (qtype : ℕ) (key_name : Text)
    (secret : Bytes) (when fudge : ℕ) (auth msg : Bytes)
    → build_tsig_query hmac qid qname qtype key_name secret when fudge auth ≡ ok msg
    → IsSigned hmac qid qname qtype key_name secret when fudge auth msg
unfolding build_tsig_query
build_tsig_query-IsSigned hmac qid qname qtype key_name secret when fudge auth msg h =
    let (head, e1, h1) = >>=-eq-ok (build_header qid 256 1 0 (section_count auth) 1) _ h in
    let (question, e2, h2) = >>=-eq-ok (question_wire qname qtype) _ h1 in
    let (signed, e3, h3) = >>=-eq-ok (patch_arcount (head ++ question ++ auth) 1) _ h2 in
    let (vars, e4, h4) = >>=-eq-ok (tsig_variables key_name algorithm_wire when fudge 0 []) _ h3 in
    let (rr, e5, h5) =
      >>=-eq-ok (tsig_rr key_name when fudge (hmac secret (signed ++ vars)) qid 0 []) _ h4 in
    record {
      head = head;
      question = question;
      signed = signed;
      vars = vars;
      rr = rr;
      head_eq = build_header-inv qid 256 1 0 (section_count auth) 1 head e1;
      is_question = question_wire-inv qname qtype question e2;
      patched = e3;
      vars_of = e4;
      rr_of = e5;
      layout = cc;
    }
