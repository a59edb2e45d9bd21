-- ===== src/Wire/Names/Normal.antt =====
-- The normal form of a name is written like the name: a name that a reader gives back can be signed
-- again with the same bytes.
use ab_bedd4c0e_tsig_bugfix.Prelude.{
  ℕ, ◌≡◌, ◌≢◌, refl, true, false, List, [], ◌∷◌, ◌++◌, map, arith, ◌==◌, Bool-cases, inl, inr,
}
use ab_bedd4c0e_tsig_bugfix.Errors.{ok, >>=-eq-ok}
use ab_bedd4c0e_tsig_bugfix.Text.{
  Text, Bytes, dot, lower, lower_char, is_ascii, is_empty, rstrip_dots, split_dots, text_eq, push,
}
use ab_bedd4c0e_tsig_bugfix.Text.Laws.{lower_idem, is_ascii-lower, length-lower}
use ab_bedd4c0e_tsig_bugfix.Wire.Names.{encode_label, encode_labels, encode_name}
use ab_bedd4c0e_tsig_bugfix.Wire.Names.RoundTrip.{normal, is_root, is_root-rstrip}

lower_char-dot : (c : ℕ) → (lower_char c == dot) ≡ (c == dot)
unfolding lower_char
lower_char-dot c = ground arith

is_empty-lower : (s : Text) → is_empty (lower s) ≡ is_empty s
unfolding lower
is_empty-lower [] = refl
is_empty-lower (c ∷ s) = refl

rstrip_dots-lower : (s : Text) → rstrip_dots (lower s) ≡ lower (rstrip_dots s)
unfolding rstrip_dots lower
rstrip_dots-lower [] = refl
rstrip_dots-lower (c ∷ s) =
    ground (arith, rstrip_dots-lower s, lower_char-dot c, is_empty-lower (rstrip_dots s))

rstrip_dots-append_dot : (s : Text) → rstrip_dots (s ++ dot ∷ []) ≡ rstrip_dots s
unfolding rstrip_dots
rstrip_dots-append_dot [] = refl
rstrip_dots-append_dot (c ∷ s) = rw (rstrip_dots-append_dot s)

rstrip_dots_idem : (s : Text) → rstrip_dots (rstrip_dots s) ≡ rstrip_dots s
unfolding rstrip_dots
rstrip_dots_idem [] = refl
rstrip_dots_idem (c ∷ s) = ground (arith, rstrip_dots_idem s)

push-lower : (c : ℕ) (ls : List Text) → push (lower_char c) (map lower ls) ≡ map lower (push c ls)
unfolding lower
push-lower c [] = refl
push-lower c (l ∷ ls) = refl

split_dots-lower : (s : Text) → split_dots (lower s) ≡ map lower (split_dots s)
unfolding split_dots lower
split_dots-lower [] = refl
split_dots-lower (c ∷ s) = elim (Bool-cases (c == dot)) [
  | inl e ↦ rw (lower_char-dot c, e, split_dots-lower s)
  | inr e ↦ rw (lower_char-dot c, e, split_dots-lower s) (push-lower c (split_dots s))
]

encode_label-lower : (l : Text) → is_ascii l ≡ true → encode_label (lower l) ≡ encode_label l
unfolding encode_label
encode_label-lower l a = rw (is_empty-lower l, is_ascii-lower l a, a, length-lower l, lower_idem l)

encode_label-ascii : (l : Text) (w : Bytes) → encode_label l ≡ ok w → is_ascii l ≡ true
unfolding encode_label
encode_label-ascii l w h = ground arith

encode_labels-lower :
    (ls : List Text) (w : Bytes) → encode_labels ls ≡ ok w → encode_labels (map lower ls) ≡ ok w
unfolding encode_labels
encode_labels-lower [] w h = h
encode_labels-lower (l ∷ ls) w h =
    let (lab, e, k) = >>=-eq-ok (encode_label l) _ h in
    let (out, e', k') = >>=-eq-ok (encode_labels ls) _ k in
    rw (encode_label-lower l (encode_label-ascii l lab e), e, encode_labels-lower ls out e') k'

-- A name that is not the root has a part left when its dots are stripped.
stripped-ne-nil : (s : Text) (w : Bytes) → encode_labels (split_dots s) ≡ ok w → s ≢ []
unfolding encode_labels encode_label split_dots
stripped-ne-nil s w h e = cc (rw e at h)

is_root-normal : (s : Text) → s ≢ [] → is_root (lower s ++ dot ∷ []) ≡ false
unfolding lower text_eq
is_root-normal [] h = absurd (h refl)
is_root-normal (c ∷ []) h = ground arith
is_root-normal (c ∷ d ∷ s) h = ground arith

-- If a name is written as some bytes, then so is its normal form.
pub encode_name-normal :
    (name : Text) (w : Bytes) → encode_name name ≡ ok w → encode_name (normal name) ≡ ok w
unfolding encode_name normal
encode_name-normal name w h = elim (Bool-cases (is_root name)) [
  | inl e ↦ rw (is_root-rstrip name e) (unfold lower in (rw e at h))
  | inr e ↦
      let (out, k, k') = >>=-eq-ok (encode_labels (split_dots (rstrip_dots name))) _ (rw e at h) in
      rw
        (
          is_root-normal (rstrip_dots name) (stripped-ne-nil (rstrip_dots name) out k),
          rstrip_dots-append_dot,
          rstrip_dots-lower,
          rstrip_dots_idem,
          split_dots-lower,
          encode_labels-lower (split_dots (rstrip_dots name)) out k,
        )
        k'
]

-- The normal form is a normal form.
pub normal_idem : (name : Text) → normal (normal name) ≡ normal name
unfolding normal
normal_idem name = rw (rstrip_dots-append_dot, rstrip_dots-lower, rstrip_dots_idem, lower_idem)
