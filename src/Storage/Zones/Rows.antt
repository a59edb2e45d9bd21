-- ===== src/Storage/Zones/Rows.antt =====
-- The rows of `create_zone`, and how they are found again.
use ab_bedd4c0e_tsig_bugfix.Prelude.{
  ℕ, ◌≡◌, ◌≢◌, refl, sym, ap, ◌∙◌, true, false, List, [], ◌∷◌, ◌++◌, Bool-cases, inl, inr,
  append_assoc, append-nil,
}
use ab_bedd4c0e_tsig_bugfix.Errors.{Result, ok, >>=-eq-ok}
use ab_bedd4c0e_tsig_bugfix.Text.{Text, text_eq}
use ab_bedd4c0e_tsig_bugfix.Text.Laws.{text_eq_refl}
use ab_bedd4c0e_tsig_bugfix.Canonical.{canonical_target}
use ab_bedd4c0e_tsig_bugfix.Storage.Tables.{RecordRow, select, found}
use ab_bedd4c0e_tsig_bugfix.Storage.Changeset.{Entry}
use ab_bedd4c0e_tsig_bugfix.Storage.Zones.{
  ns_text, at_apex, is_seen, apex_row, same_record, insert_records, ns_rows,
}

-- Rows of the apex in version 0 with this type.
abbrev pub AreApex : Text → Text → List RecordRow → Type 0
AreApex zone rtype [] = Unit
AreApex zone rtype (r ∷ rs) =
    ((entry : Entry) × (r ≡ apex_row zone rtype 3600 entry)) × AreApex zone rtype rs

pub insert_records-append :
    (rows records out : List RecordRow)
    → insert_records rows records ≡ ok out
    → out ≡ records ++ rows
unfolding insert_records
insert_records-append [] records out h = cc (h, append-nil records)
insert_records-append (r ∷ rs) records out h =
    elim (Bool-cases (found (select (same_record r) records))) [
      | inl e ↦ cc (rw e at h)
      | inr e ↦
          insert_records-append rs (records ++ r ∷ []) out (rw e at h)
          ∙ append_assoc records (r ∷ []) rs
    ]

pub apex_row-at_apex :
    (zone rtype : Text) (ttl : ℕ) (entry : Entry)
    → at_apex zone 0 rtype (apex_row zone rtype ttl entry) ≡ true
apex_row-at_apex zone rtype ttl (j, w) = rw (text_eq_refl zone, text_eq_refl rtype) refl

pub apex_row-other :
    (zone rtype other : Text) (ttl : ℕ) (entry : Entry)
    → text_eq rtype other ≡ false
    → at_apex zone 0 other (apex_row zone rtype ttl entry) ≡ false
apex_row-other zone rtype other ttl (j, w) h = rw (text_eq_refl zone, h) refl

pub AreApex-select :
    (zone rtype : Text) (rows : List RecordRow)
    → AreApex zone rtype rows
    → select (at_apex zone 0 rtype) rows ≡ rows
unfolding select
AreApex-select zone rtype [] h = refl
AreApex-select zone rtype (r ∷ rs) ((entry, e), h) =
    let k : at_apex zone 0 rtype r ≡ true = rw e (apex_row-at_apex zone rtype 3600 entry) in
    rw k (ap (λ t. r ∷ t) (AreApex-select zone rtype rs h))

pub AreApex-select_other :
    (zone rtype other : Text) (rows : List RecordRow)
    → text_eq rtype other ≡ false
    → AreApex zone rtype rows
    → select (at_apex zone 0 other) rows ≡ []
unfolding select
AreApex-select_other zone rtype other [] o h = refl
AreApex-select_other zone rtype other (r ∷ rs) o ((entry, e), h) =
    let k : at_apex zone 0 other r ≡ false = rw e (apex_row-other zone rtype other 3600 entry o) in
    rw k (AreApex-select_other zone rtype other rs o h)

-- The rows of a zone that has none.
pub none_of_zone :
    (zone rtype : Text) (records : List RecordRow)
    → select (λ (r : RecordRow). text_eq r.zone zone) records ≡ []
    → select (at_apex zone 0 rtype) records ≡ []
unfolding select
none_of_zone zone rtype [] h = refl
none_of_zone zone rtype (r ∷ rs) h = elim (Bool-cases (text_eq r.zone zone)) [
  | inl e ↦ cc (rw e at h)
  | inr e ↦ rw e (none_of_zone zone rtype rs (rw e at h))
]

module _ (ns_rdata : Text → Text → Result Entry) where
  pub ns_rows-AreApex :
      (zone : Text) (targets seen : List Text) (rows : List RecordRow)
      → ns_rows ns_rdata zone targets seen ≡ ok rows
      → AreApex zone ns_text rows
  unfolding ns_rows
  ns_rows-AreApex zone [] seen rows h = let e : [] ≡ rows = cc in rw (sym e) tt
  ns_rows-AreApex zone (target ∷ targets) seen rows h =
      let (t, e, h1) = >>=-eq-ok (canonical_target target zone) _ h in
      elim (Bool-cases (is_seen t seen)) [
        | inl k ↦ ns_rows-AreApex zone targets seen rows (rw k at h1)
        | inr k ↦
            let (entry, e2, h2) = >>=-eq-ok (ns_rdata t zone) _ (rw k at h1) in
            let (more, e3, h3) = >>=-eq-ok (ns_rows ns_rdata zone targets (t ∷ seen)) _ h2 in
            let e4 : apex_row zone ns_text 3600 entry ∷ more ≡ rows = cc h3 in
            rw (sym e4) ((entry, refl), ns_rows-AreApex zone targets (t ∷ seen) more e3)
      ]

  -- The first name server is not left out.
  pub ns_rows-some :
      (zone target : Text) (targets : List Text) (rows : List RecordRow)
      → ns_rows ns_rdata zone (target ∷ targets) [] ≡ ok rows
      → rows ≢ []
  unfolding ns_rows is_seen
  ns_rows-some zone target targets rows h k =
      let (t, e, h1) = >>=-eq-ok (canonical_target target zone) _ h in
      let (entry, e2, h2) = >>=-eq-ok (ns_rdata t zone) _ h1 in
      let (more, e3, h3) = >>=-eq-ok (ns_rows ns_rdata zone targets (t ∷ [])) _ h2 in cc
