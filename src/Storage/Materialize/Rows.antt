-- ===== src/Storage/Materialize/Rows.antt =====
-- The rows of the snapshot that `_materialize` of app/storage.py writes, by name and type.
use ab_bedd4c0e_tsig_bugfix.Prelude.{
  ℕ, ◌≡◌, refl, sym, ap, ◌∙◌, Bool, true, false, ◌&&◌, ◌||◌, Option, none, some, List, [], ◌∷◌,
  ◌++◌, ◌==◌, ==_refl, arith, map, if◌then◌else◌, append-nil, Bool-cases, inl, inr,
}
use ab_bedd4c0e_tsig_bugfix.Text.{Text, text_eq}
use ab_bedd4c0e_tsig_bugfix.Text.Laws.{text_eq_refl, text_eq→eq}
use ab_bedd4c0e_tsig_bugfix.Storage.Tables.{Database, RecordRow, select, delete}
use ab_bedd4c0e_tsig_bugfix.Storage.Tables.Laws.{select-append, select-delete}
use ab_bedd4c0e_tsig_bugfix.Storage.Changeset.{
  Entry, Rrset, Changed, version_of, rrset_of, is_changed,
}
use ab_bedd4c0e_tsig_bugfix.Storage.Materialize.{
  materialize, rewrite_changed, move, key_of, row_of, new_rows,
}

select-delete_self : {A : Type 0} (p : A → Bool) (rs : List A) → select p (delete p rs) ≡ []
unfolding select delete
select-delete_self p [] = refl
select-delete_self p (r ∷ rs) = elim (Bool-cases (p r)) [
  | inl e ↦ rw e (select-delete_self p rs)
  | inr e ↦ rw (e, e) (select-delete_self p rs)
]

module _ (zone : Text) (v : ℕ) (name rtype : Text) where
  -- Rows that are written for a name and a type are found under these, and under no others.
  select-row_of :
      (n t : Text) (ttl : ℕ) (es : List Entry)
      → select (key_of zone v name rtype) (map (row_of zone v n t ttl) es)
        ≡ (if text_eq n name && text_eq t rtype then map (row_of zone v n t ttl) es else [])
  unfolding select
  select-row_of n t ttl [] = elim (Bool-cases (text_eq n name && text_eq t rtype)) [
    | inl e ↦ rw e refl
    | inr e ↦ rw e refl
  ]
  select-row_of n t ttl ((j, w) ∷ es) =
      let rest = select-row_of n t ttl es in
      let z = text_eq_refl zone in
      let k = ==_refl v in
      elim (Bool-cases (text_eq n name)) [
        | inr e ↦ rw (z, k, e) (rw e at rest)
        | inl e ↦ elim (Bool-cases (text_eq t rtype)) [
          | inr f ↦ rw (z, k, e, f) (rw (e, f) at rest)
          | inl f ↦
              rw (z, k, e, f) (ap (λ rs. row_of zone v n t ttl (j, w) ∷ rs) (rw (e, f) at rest))
        ]
      ]

  select-new_rows :
      (n t : Text) (o : Option Rrset)
      → select (key_of zone v name rtype) (new_rows zone v n t o)
        ≡ (if text_eq n name && text_eq t rtype then new_rows zone v n t o else [])
  unfolding select
  select-new_rows n t none = elim (Bool-cases (text_eq n name && text_eq t rtype)) [
    | inl e ↦ rw e refl
    | inr e ↦ rw e refl
  ]
  select-new_rows n t (some s) = select-row_of n t s.ttl s.entries

  apart-key :
      (n t : Text) (r : RecordRow)
      → (text_eq n name && text_eq t rtype) ≡ false
      → key_of zone v name rtype r ≡ true
      → key_of zone v n t r ≡ false
  apart-key n t r e k =
      let en : text_eq r.name name ≡ true = ground arith in
      let et : text_eq r.rtype rtype ≡ true = ground arith in
      let other : (text_eq n r.name && text_eq t r.rtype) ≡ false =
        rw (text_eq→eq r.name name en, text_eq→eq r.rtype rtype et) e in
      elim (Bool-cases (text_eq r.name n)) [
        | inr a ↦ ground (arith, a)
        | inl a ↦ elim (Bool-cases (text_eq r.rtype t)) [
          | inr b ↦ ground (arith, b)
          | inl b ↦ cc (
              rw
                (
                  sym (text_eq→eq r.name n a),
                  sym (text_eq→eq r.rtype t b),
                  text_eq_refl r.name,
                  text_eq_refl r.rtype,
                )
                at other)
        ]
      ]

  abbrev rewritten : List Rrset → Text → Text → List RecordRow → List RecordRow
  rewritten rrsets n t rs =
      delete (key_of zone v n t) rs ++ new_rows zone v n t (rrset_of rrsets n t)

  select-rewritten :
      (rrsets : List Rrset) (n t : Text) (rs : List RecordRow)
      → select (key_of zone v name rtype) (rewritten rrsets n t rs) ≡ (
          if text_eq n name && text_eq t rtype
          then new_rows zone v name rtype (rrset_of rrsets name rtype)
          else select (key_of zone v name rtype) rs)
  select-rewritten rrsets n t rs =
      select-append (key_of zone v name rtype) (delete (key_of zone v n t) rs) _
      ∙ ap (λ z. select (key_of zone v name rtype) (delete (key_of zone v n t) rs) ++ z)
          (select-new_rows n t (rrset_of rrsets n t))
      ∙ elim (Bool-cases (text_eq n name && text_eq t rtype)) [
        | inl e ↦
            let en : text_eq n name ≡ true = ground (arith, e) in
            let et : text_eq t rtype ≡ true = ground (arith, e) in
            rw e (
              rw (text_eq→eq n name en, text_eq→eq t rtype et)
                (ap (λ z. z ++ new_rows zone v name rtype (rrset_of rrsets name rtype))
                  (select-delete_self (key_of zone v name rtype) rs)))
        | inr e ↦ rw e (
            append-nil (select (key_of zone v name rtype) (delete (key_of zone v n t) rs))
            ∙ select-delete (key_of zone v name rtype) (key_of zone v n t) rs
                (λ r k. apart-key n t r e k))
      ]

  -- After the loop a changed name and type has the rows of its RRset, and another one has the rows
  -- that it had.
  pub select-rewrite_changed :
      (rrsets : List Rrset) (keys : Changed) (rs : List RecordRow)
      → select (key_of zone v name rtype) (rewrite_changed zone v rrsets keys rs) ≡ (
          if is_changed name rtype keys
          then new_rows zone v name rtype (rrset_of rrsets name rtype)
          else select (key_of zone v name rtype) rs)
  unfolding rewrite_changed is_changed
  select-rewrite_changed rrsets [] rs = refl
  select-rewrite_changed rrsets ((n, t) ∷ keys) rs =
      select-rewrite_changed rrsets keys (rewritten rrsets n t rs)
      ∙ ap
          (λ z.
            if is_changed name rtype keys
            then new_rows zone v name rtype (rrset_of rrsets name rtype)
            else z)
          (select-rewritten rrsets n t rs)
      ∙ merge (text_eq n name && text_eq t rtype) (is_changed name rtype keys) _ _
    where
      merge :
          (a b : Bool) (x y : List RecordRow)
          → (if b then x else if a then x else y) ≡ (if a || b then x else y)
      merge true true x y = refl
      merge true false x y = refl
      merge false true x y = refl
      merge false false x y = refl

  select-move :
      (old : ℕ) (rs : List RecordRow)
      → select (key_of zone v name rtype) (map (move v) (select (version_of zone old) rs))
        ≡ map (move v) (select (key_of zone old name rtype) rs)
  unfolding select
  select-move old [] = refl
  select-move old (r ∷ rs) =
      let rest = select-move old rs in
      let k = ==_refl v in
      elim (Bool-cases (text_eq r.zone zone && r.version_id == old)) [
        | inr e ↦ rw e rest
        | inl e ↦
            let z : text_eq r.zone zone ≡ true = ground (arith, e) in
            let o : (r.version_id == old) ≡ true = ground (arith, e) in
            elim (Bool-cases (text_eq r.name name)) [
              | inr f ↦ rw (z, o, k, f) (rw z rest)
              | inl f ↦ elim (Bool-cases (text_eq r.rtype rtype)) [
                | inr g ↦ rw (z, o, k, f, g) (rw z rest)
                | inl g ↦ rw (z, o, k, f, g) (rw z (ap (λ t. move v r ∷ t) rest))
              ]
            ]
      ]

  none_before :
      (rs : List RecordRow)
      → select (version_of zone v) rs ≡ []
      → select (key_of zone v name rtype) rs ≡ []
  unfolding select
  none_before [] h = refl
  none_before (r ∷ rs) h = elim (Bool-cases (text_eq r.zone zone && r.version_id == v)) [
    | inl e ↦ cc (rw e at h)
    | inr e ↦ rw e (none_before rs (rw e at h))
  ]

  -- The rows of a name and a type in a new version that had no rows.
  pub select-materialize :
      (db : Database) (old : ℕ) (rrsets : List Rrset) (changed : Changed)
      → select (version_of zone v) db.records ≡ []
      → select (key_of zone v name rtype) (materialize db zone old v rrsets changed).records ≡ (
          if is_changed name rtype changed
          then new_rows zone v name rtype (rrset_of rrsets name rtype)
          else map (move v) (select (key_of zone old name rtype) db.records))
  unfolding materialize
  select-materialize db old rrsets changed fresh =
      select-rewrite_changed rrsets changed _
      ∙ ap
          (λ z.
            if is_changed name rtype changed
            then new_rows zone v name rtype (rrset_of rrsets name rtype)
            else z)
          (select-append (key_of zone v name rtype) db.records _
            ∙ rw (none_before db.records fresh) (select-move old db.records))
