-- ===== src/Server/Transfer/Streams.antt =====
-- What an AXFR stream holds.
use ab_bedd4c0e_tsig_bugfix.Prelude.{
  ◌≡◌, refl, sym, ap, ◌∙◌, ◌↔◌, Bool, true, false, not, ◌&&◌, List, [], ◌∷◌, ◌++◌, Bool-cases, inl,
  inr,
}
use ab_bedd4c0e_tsig_bugfix.Errors.{ok, >>=-eq-ok, ok-inj}
use ab_bedd4c0e_tsig_bugfix.Text.{Bytes}
use ab_bedd4c0e_tsig_bugfix.Storage.Tables.{
  order_by, insert_by, Database, RecordRow, select, delete, fetchone,
}
use ab_bedd4c0e_tsig_bugfix.Storage.Tables.Laws.{
  IsIn, here, there, select-IsIn, IsIn-select, delete-select,
}
use ab_bedd4c0e_tsig_bugfix.Server.Access.{Plan}
use ab_bedd4c0e_tsig_bugfix.Server.Transfer.{
  rr_wire, rr_wires, record_le, in_version, is_apex_soa, of_soa, soa_of, axfr_rr_stream,
}

swap_heads :
    {A : Type 0} {a r s : A} (rest ins : List A)
    → (IsIn a (r ∷ rest) → IsIn a ins)
    → IsIn a (r ∷ s ∷ rest)
    → IsIn a (s ∷ ins)
swap_heads rest ins f (here i) = there (f (here i))
swap_heads rest ins f (there (here i)) = here i
swap_heads rest ins f (there (there m)) = there (f (there m))

swap_back :
    {A : Type 0} {a r s : A} (rest ins : List A)
    → (IsIn a ins → IsIn a (r ∷ rest))
    → IsIn a (s ∷ ins)
    → IsIn a (r ∷ s ∷ rest)
swap_back rest ins f (here i) = there (here i)
swap_back rest ins f (there m) = elim (f m) [ here i ↦ here i | there n ↦ there (there n) ]

insert_by-IsIn :
    {A : Type 0} (le : A → A → Bool) (a r : A) (rs : List A)
    → IsIn a (r ∷ rs) ↔ IsIn a (insert_by le r rs)
unfolding insert_by
insert_by-IsIn le a r [] = (λ m. m, λ m. m)
insert_by-IsIn le a r (s ∷ rs) =
    let (to, from) = insert_by-IsIn le a r rs in
    elim (Bool-cases (le r s)) [
      | inl e ↦ rw e (λ m. m, λ m. m)
      | inr e ↦ rw e (swap_heads rs (insert_by le r rs) to, swap_back rs (insert_by le r rs) from)
    ]

order_by-IsIn :
    {A : Type 0} (le : A → A → Bool) (a : A) (rs : List A) → IsIn a rs ↔ IsIn a (order_by le rs)
unfolding order_by
order_by-IsIn le a [] = (λ m. m, λ m. m)
order_by-IsIn le a (r ∷ rs) =
    let (to, from) = order_by-IsIn le a rs in
    let (to', from') = insert_by-IsIn le a r (order_by le rs) in
    (λ m. to' (on_tail to m), λ m. on_tail from (from' m))
  where
    on_tail :
        {A : Type 0} {a r : A} {xs ys : List A}
        → (IsIn a xs → IsIn a ys)
        → IsIn a (r ∷ xs)
        → IsIn a (r ∷ ys)
    on_tail f (here i) = here i
    on_tail f (there m) = there (f m)

-- What an AXFR stream is: the SOA record of the version, then the records `rows`, then the SOA record
-- again, where `rows` are all the version's other records and no more.
pub record IsAxfr (snap : Database) (plan : Plan) (rrs : List Bytes) : Type 0 where
  pub soa : RecordRow
  pub rows : List RecordRow
  pub wire : Bytes
  pub mids : List Bytes
  pub soa_is : IsIn soa snap.records
  pub soa_of_version :
      (in_version plan.zone plan.target_version soa && is_apex_soa plan.zone soa) ≡ true
  pub wire_eq : rr_wire soa ≡ ok wire
  pub mids_eq : rr_wires rows ≡ ok mids
  pub rrs_eq : rrs ≡ wire ∷ mids ++ wire ∷ []
  pub complete :
      (r : RecordRow)
      → IsIn r snap.records
      → in_version plan.zone plan.target_version r ≡ true
      → is_apex_soa plan.zone r ≡ false
      → IsIn r rows
  pub sound :
      (r : RecordRow)
      → IsIn r rows
      → IsIn r snap.records
        × (in_version plan.zone plan.target_version r ≡ true)
        × (is_apex_soa plan.zone r ≡ false)

of_soa-IsIn : (rs : List RecordRow) (r : RecordRow) → of_soa (fetchone rs) ≡ ok r → IsIn r rs
of_soa-IsIn [] r h = cc
of_soa-IsIn (s ∷ rs) r h = here (sym (ok-inj h))

abbrev rows_of : Database → Plan → List RecordRow
rows_of snap plan =
    delete (is_apex_soa plan.zone)
      (order_by record_le (select (in_version plan.zone plan.target_version) snap.records))

rows_complete :
    (snap : Database) (plan : Plan) (r : RecordRow)
    → IsIn r snap.records
    → in_version plan.zone plan.target_version r ≡ true
    → is_apex_soa plan.zone r ≡ false
    → IsIn r (rows_of snap plan)
rows_complete snap plan r m v a =
    rw
      (delete-select (is_apex_soa plan.zone)
        (order_by record_le (select (in_version plan.zone plan.target_version) snap.records)))
      (IsIn-select (λ r. not (is_apex_soa plan.zone r)) r _
        ((order_by-IsIn record_le r _).0
          (IsIn-select (in_version plan.zone plan.target_version) r snap.records m v))
        (rw a refl))

rows_sound :
    (snap : Database) (plan : Plan) (r : RecordRow)
    → IsIn r (rows_of snap plan)
    → IsIn r snap.records
      × (in_version plan.zone plan.target_version r ≡ true)
      × (is_apex_soa plan.zone r ≡ false)
rows_sound snap plan r m =
    let (n, a) =
      select-IsIn (λ r. not (is_apex_soa plan.zone r)) r _
        (rw
          (delete-select (is_apex_soa plan.zone)
            (order_by record_le (select (in_version plan.zone plan.target_version) snap.records)))
          at m) in
    let (k, v) =
      select-IsIn (in_version plan.zone plan.target_version) r snap.records
        ((order_by-IsIn record_le r _).1 n) in
    (k, v, negated (is_apex_soa plan.zone r) a)
  where
    negated : (b : Bool) → not b ≡ true → b ≡ false
    negated true e = cc
    negated false e = refl

-- An AXFR stream that is given opens and closes with the SOA record of the pinned version, and holds
-- between them exactly the other records of that version's snapshot.
pub axfr_rr_stream-IsAxfr :
    (snap : Database) (plan : Plan) (rrs : List Bytes)
    → axfr_rr_stream snap plan ≡ ok rrs
    → IsAxfr snap plan rrs
unfolding axfr_rr_stream
axfr_rr_stream-IsAxfr snap plan rrs h =
    let (soa, e1, h1) = >>=-eq-ok (soa_of snap plan.zone plan.target_version) _ h in
    let (wire, e2, h2) = >>=-eq-ok (rr_wire soa) _ h1 in
    let (mids, e3, h3) = >>=-eq-ok (rr_wires (rows_of snap plan)) _ h2 in
    let (last, e4, h4) = >>=-eq-ok (rr_wire soa) _ h3 in
    let (m, v) =
      select-IsIn
        (λ (r : RecordRow). in_version plan.zone plan.target_version r && is_apex_soa plan.zone r)
        soa snap.records (of_soa-IsIn _ soa e1) in
    record {
      soa = soa;
      rows = rows_of snap plan;
      wire = wire;
      mids = mids;
      soa_is = m;
      soa_of_version = v;
      wire_eq = e2;
      mids_eq = e3;
      rrs_eq = sym (ok-inj h4) ∙ ap (λ (l : Bytes). wire ∷ mids ++ l ∷ []) (ok-inj (sym e4 ∙ e2));
      complete = rows_complete snap plan;
      sound = rows_sound snap plan;
    }
