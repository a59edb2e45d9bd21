-- ===== src/Text/Laws.antt =====
-- Laws of the text operations: equality, and lower case and joining across a split.
use ab_bedd4c0e_tsig_bugfix.Prelude.{
  ℕ, ◌≡◌, ◌≢◌, refl, sym, ap, ◌∙◌, inl, inr, true, List, [], ◌∷◌, ◌++◌, map, arith, ◌==◌,
  Bool-cases, ==_iff, ltb, length, suc,
}
use ab_bedd4c0e_tsig_bugfix.Text.{
  Text, dot, text_eq, lower_char, lower, push, split_dots, join_dots, is_ascii,
}

pub text_eq_refl : (s : Text) → text_eq s s ≡ true
unfolding text_eq
text_eq_refl [] = refl
text_eq_refl (c ∷ s) = ground (arith, text_eq_refl s)

pub text_eq→eq : (s t : Text) → text_eq s t ≡ true → s ≡ t
unfolding text_eq
text_eq→eq [] [] h = refl
text_eq→eq [] (b ∷ t) h = cc
text_eq→eq (a ∷ s) [] h = cc
text_eq→eq (a ∷ s) (b ∷ t) h = ground (arith, text_eq→eq s t)

pub lower-append : (s t : Text) → lower (s ++ t) ≡ lower s ++ lower t
unfolding lower
lower-append [] t = refl
lower-append (c ∷ s) t = rw (lower-append s t)

pub split_dots-ne-nil : (s : Text) → split_dots s ≢ []
unfolding split_dots
split_dots-ne-nil [] h = cc
split_dots-ne-nil (c ∷ s) h = elim (Bool-cases (c == dot)) [
  | inl e ↦ cc (rw e at h)
  | inr e ↦ push-ne-nil (split_dots s) (rw e at h)
]
  where
    push-ne-nil : (ls : List Text) → push c ls ≢ []
    push-ne-nil [] k = cc
    push-ne-nil (l ∷ ls) k = cc

join_dots-push : (c : ℕ) (ls : List Text) → ls ≢ [] → join_dots (push c ls) ≡ c ∷ join_dots ls
unfolding join_dots
join_dots-push c [] h = absurd (h refl)
join_dots-push c (l ∷ []) h = refl
join_dots-push c (l ∷ m ∷ ls) h = refl

join_dots-nil_cons : (ls : List Text) → ls ≢ [] → join_dots ([] ∷ ls) ≡ dot ∷ join_dots ls
unfolding join_dots
join_dots-nil_cons [] h = absurd (h refl)
join_dots-nil_cons (l ∷ ls) h = refl

-- `".".join(s.split("."))` is `s`.
pub join_dots-split_dots : (s : Text) → join_dots (split_dots s) ≡ s
unfolding split_dots
join_dots-split_dots [] = unfold join_dots in refl
join_dots-split_dots (c ∷ s) = elim (Bool-cases (c == dot)) [
  | inl e ↦ rw e (
      join_dots-nil_cons (split_dots s) (split_dots-ne-nil s)
      ∙ cc (join_dots-split_dots s, (==_iff c dot).0 e))
  | inr e ↦ rw e (
      join_dots-push c (split_dots s) (split_dots-ne-nil s)
      ∙ ap (λ t. c ∷ t) (join_dots-split_dots s))
]

-- Lower case of a joined text is the join of the parts' lower case.
pub join_dots-map-lower : (ls : List Text) → join_dots (map lower ls) ≡ lower (join_dots ls)
unfolding join_dots
join_dots-map-lower [] = unfold lower in refl
join_dots-map-lower (l ∷ []) = refl
join_dots-map-lower (l ∷ m ∷ ls) =
    ap (λ t. lower l ++ dot ∷ t) (join_dots-map-lower (m ∷ ls))
    ∙ sym (lower-append l (dot ∷ join_dots (m ∷ ls)) ∙ unfold lower lower_char in refl)

lower_char_idem : (c : ℕ) → lower_char (lower_char c) ≡ lower_char c
unfolding lower_char
lower_char_idem c = ground arith

pub lower_idem : (s : Text) → lower (lower s) ≡ lower s
unfolding lower
lower_idem [] = refl
lower_idem (c ∷ s) = cc (lower_char_idem c, lower_idem s)

lower_char_ascii : (c : ℕ) → ltb c 128 ≡ true → ltb (lower_char c) 128 ≡ true
unfolding lower_char
lower_char_ascii c h = ground arith

pub is_ascii-lower : (s : Text) → is_ascii s ≡ true → is_ascii (lower s) ≡ true
unfolding lower
is_ascii-lower [] h = refl
is_ascii-lower (c ∷ s) h = ground (arith, lower_char_ascii c, is_ascii-lower s)

pub length-lower : (s : Text) → length (lower s) ≡ length s
unfolding lower
length-lower [] = refl
length-lower (c ∷ s) = ap suc (length-lower s)
