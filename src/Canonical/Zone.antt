-- ===== src/Canonical/Zone.antt =====
-- Names that `canonical_name` accepts lie in the zone.
use ab_bedd4c0e_tsig_bugfix.Prelude.{
  ◌≡◌, ◌⊎◌, refl, sym, Bool, true, false, not, ◌&&◌, ◌||◌, ltb, [], ◌∷◌, Bool-cases, inl, inr,
}
use ab_bedd4c0e_tsig_bugfix.Errors.{ok, >>=-eq-ok, ok-inj, raise_if->>-eq-ok}
use ab_bedd4c0e_tsig_bugfix.Text.{Text, codes, dot, text_eq, is_empty, ends_with}
use ab_bedd4c0e_tsig_bugfix.Text.Laws.{text_eq→eq}
use ab_bedd4c0e_tsig_bugfix.Canonical.{
  check_name, check_labels, labels_of, max_name_len, tidy, in_zone_name, canonical_name,
}

-- The zone's own name, or a name that ends in a dot and the zone's name.
abbrev pub InZone : Text → Text → Type 0
InZone name zone = (name ≡ zone) ⊎ (ends_with name (dot ∷ zone) ≡ true)

pub check_name-same : (a b : Text) → check_name a ≡ ok b → a ≡ b
unfolding check_name
check_name-same a b h =
    let (n, e, h1) = >>=-eq-ok (check_labels (labels_of a) 1) _ h in
    let (e2, h2) = raise_if->>-eq-ok (ltb max_name_len n) _ _ h1 in ok-inj h2

boundary :
    (name zone : Text)
    → (not (text_eq name zone) && not (ends_with name (dot ∷ zone))) ≡ false
    → InZone name zone
boundary name zone h = elim (Bool-cases (text_eq name zone)) [
  | inl e ↦ inl (text_eq→eq name zone e)
  | inr e ↦ inr (right (ends_with name (dot ∷ zone)) (rw e at h))
]
  where
    right : (b : Bool) → (true && not b) ≡ false → b ≡ true
    right true e = refl
    right false e = cc

in_zone_name-InZone :
    (raw zone name out : Text) → in_zone_name raw zone name ≡ ok out → InZone out zone
in_zone_name-InZone raw zone name out h =
    let (e1, h1) = raise_if->>-eq-ok (not (ends_with name zone)) _ _ h in
    let (e2, h2) =
      raise_if->>-eq-ok (not (text_eq name zone) && not (ends_with name (dot ∷ zone))) _ _ h1 in
    let same = check_name-same name out h2 in rw (sym same) (boundary name zone e2)

-- Whatever owner name is accepted for a zone is the zone's own name or lies under it at a label
-- boundary.
pub canonical_name-InZone :
    (raw zone name : Text) → canonical_name raw zone ≡ ok name → InZone name zone
unfolding canonical_name
canonical_name-InZone raw zone name h =
    let (e1, h1) = raise_if->>-eq-ok (is_empty raw) _ _ h in
    elim (Bool-cases (text_eq (tidy raw) (codes "@"))) [
      | inl i ↦ inl (sym (ok-inj (rw i at h1)))
      | inr i ↦
          let (e2, h2) =
            raise_if->>-eq-ok (is_empty (tidy raw) || text_eq (tidy raw) (dot ∷ [])) _ _
              (rw i at h1) in
          in_zone_name-InZone raw zone _ name h2
    ]
