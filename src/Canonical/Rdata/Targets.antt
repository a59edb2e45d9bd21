-- ===== src/Canonical/Rdata/Targets.antt =====
-- A canonical target of app/canonical.py is its own canonical form.
use ab_bedd4c0e_tsig_bugfix.Prelude.{
  ℕ, ◌-◌, ◌≡◌, ◌≢◌, refl, sym, ap, ◌∙◌, Bool, true, false, not, ◌&&◌, List, [], ◌∷◌, ◌++◌, arith,
  ◌==◌, length, take, drop, take-append-drop, drop_of_length, length-append, append_assoc, map,
  Bool-cases, inl, inr, if◌then◌else◌,
}
use ab_bedd4c0e_tsig_bugfix.Errors.{ok, >>=-eq-ok, raise_if->>-eq-ok}
use ab_bedd4c0e_tsig_bugfix.Text.{
  Text, dot, text_eq, lower, lower_char, is_empty, ends_with, split_dots, join_dots,
}
use ab_bedd4c0e_tsig_bugfix.Text.Laws.{
  text_eq_refl, text_eq→eq, lower-append, split_dots-ne-nil, join_dots-split_dots,
  join_dots-map-lower,
}
use ab_bedd4c0e_tsig_bugfix.Canonical.{
  is_space, lstrip, rstrip, tidy, is_absolute, label_char, label_rest, label_matches, check_labels,
  labels_of, check_name, canonical_target,
}
use ab_bedd4c0e_tsig_bugfix.Canonical.Zone.{check_name-same}

&&-left : (a b : Bool) → (a && b) ≡ true → a ≡ true
&&-left a b e = ground arith

&&-right : (a b : Bool) → (a && b) ≡ true → b ≡ true
&&-right a b e = ground arith

not-false : (b : Bool) → not b ≡ false → b ≡ true
not-false true e = refl
not-false false e = cc

label_char-lower : (c : ℕ) → label_char c ≡ true → lower_char c ≡ c
unfolding lower_char
label_char-lower c h = ground arith

label_rest-lower : (s : Text) → label_rest s ≡ true → lower s ≡ s
unfolding label_rest lower lower_char
label_rest-lower [] h = refl
label_rest-lower (c ∷ s) h = elim (Bool-cases (label_char c && label_rest s)) [
  | inl e ↦
      let first = label_char-lower c (&&-left (label_char c) (label_rest s) e) in
      let rest = label_rest-lower s (&&-right (label_char c) (label_rest s) e) in cc (first, rest)
  | inr e ↦ line_feed s (rw e at h)
]
  where
    feed : (c == 10 && true) ≡ true → lower_char c ≡ c
    feed k = ground arith

    line_feed : (s : Text) → (c == 10 && is_empty s) ≡ true → lower_char c ∷ lower s ≡ c ∷ s
    line_feed [] k = ap (λ d. d ∷ []) (feed k)
    line_feed (d ∷ s) k = ground arith

-- Every label is matched.
abbrev AllMatch : List Text → Type 0
AllMatch [] = Unit
AllMatch (l ∷ ls) = (label_matches l ≡ true) × AllMatch ls

check_labels-AllMatch : (ls : List Text) (n m : ℕ) → check_labels ls n ≡ ok m → AllMatch ls
unfolding check_labels
check_labels-AllMatch [] n m h = tt
check_labels-AllMatch (l ∷ ls) n m h =
    let (e1, h1) = raise_if->>-eq-ok _ _ _ h in
    let (e2, h2) = raise_if->>-eq-ok (not (label_matches l)) _ _ h1 in
    (not-false (label_matches l) e2, check_labels-AllMatch ls _ m h2)

label-lower : (l : Text) → label_matches l ≡ true → lower l ≡ l
unfolding lower
label-lower [] h = refl
label-lower (c ∷ s) h =
    let k = &&-left (label_char c && label_rest s) _ h in
    let first = label_char-lower c (&&-left (label_char c) (label_rest s) k) in
    let rest = label_rest-lower s (&&-right (label_char c) (label_rest s) k) in cc (first, rest)

AllMatch-lower : (ls : List Text) → AllMatch ls → map lower ls ≡ ls
AllMatch-lower [] h = refl
AllMatch-lower (l ∷ ls) (h, hs) = cc (label-lower l h, AllMatch-lower ls hs)

-- A text of such labels begins with a character that is no white space.
abbrev StartsWell : Text → Type 0
StartsWell s = (c : ℕ) × (rest : Text) × (s ≡ c ∷ rest) × (is_space c ≡ false)

label_char-not_space : (c : ℕ) → label_char c ≡ true → is_space c ≡ false
label_char-not_space c h = ground arith

joined-StartsWell : (ls : List Text) → AllMatch ls → ls ≢ [] → StartsWell (join_dots ls)
unfolding join_dots
joined-StartsWell [] h k = absurd (k refl)
joined-StartsWell ([] ∷ ls) (h, hs) k = cc
joined-StartsWell ((c ∷ s) ∷ []) (h, hs) k =
    (c, s, refl, label_char-not_space c (&&-left _ _ (&&-left _ _ h)))
joined-StartsWell ((c ∷ s) ∷ m ∷ ls) (h, hs) k =
    (c, s ++ dot ∷ join_dots (m ∷ ls), refl, label_char-not_space c (&&-left _ _ (&&-left _ _ h)))

lstrip-StartsWell : (s : Text) → StartsWell s → lstrip s ≡ s
unfolding lstrip
lstrip-StartsWell s (c, rest, e, h) = rw (e, h) refl

rstrip-dot : (s : Text) → rstrip (s ++ dot ∷ []) ≡ s ++ dot ∷ []
unfolding rstrip
rstrip-dot [] = refl
rstrip-dot (c ∷ s) = rw (rstrip-dot s) (not_last s)
  where
    not_last :
        (s : Text)
        → (if is_space c && is_empty (s ++ dot ∷ []) then [] else c ∷ s ++ dot ∷ [])
          ≡ c ∷ s ++ dot ∷ []
    not_last [] = ground arith
    not_last (d ∷ s) = ground arith

-- The parts of an absolute name.
absolute-parts : (u : Text) → is_absolute u ≡ true → u ≡ take (length u - 1) u ++ dot ∷ []
unfolding ends_with
absolute-parts u h =
    let last = text_eq→eq (drop (length u - 1) u) (dot ∷ []) (&&-right _ _ h) in
    sym (take-append-drop (length u - 1) u) ∙ ap (λ t. take (length u - 1) u ++ t) last

tidy-dotted :
    (v : Text) → lower v ≡ v → StartsWell (v ++ dot ∷ []) → tidy (v ++ dot ∷ []) ≡ v ++ dot ∷ []
unfolding lower lower_char
tidy-dotted v low well =
    let lowered : lower (v ++ dot ∷ []) ≡ v ++ dot ∷ [] =
      rw (lower-append v (dot ∷ []), low) refl in
    rw (lowered, lstrip-StartsWell (v ++ dot ∷ []) well) (rstrip-dot v)

split-StartsWell : (v : Text) → AllMatch (split_dots v) → split_dots v ≢ [] → StartsWell v
split-StartsWell v h k = rw (sym (join_dots-split_dots v)) (joined-StartsWell (split_dots v) h k)

dotted-StartsWell : (v : Text) → StartsWell v → StartsWell (v ++ dot ∷ [])
dotted-StartsWell v (c, rest, e, h) = (c, rest ++ dot ∷ [], rw e refl, h)

labels-tidy : (v : Text) → AllMatch (split_dots v) → tidy (v ++ dot ∷ []) ≡ v ++ dot ∷ []
labels-tidy v h =
    let low =
      ap lower (sym (join_dots-split_dots v))
      ∙ sym (join_dots-map-lower (split_dots v))
      ∙ ap join_dots (AllMatch-lower (split_dots v) h)
      ∙ join_dots-split_dots v in
    tidy-dotted v low (dotted-StartsWell v (split-StartsWell v h (split_dots-ne-nil v)))

root-tidy : tidy (dot ∷ []) ≡ dot ∷ []
unfolding lower lower_char lstrip rstrip
root-tidy = refl

not_root :
    (u : Text) (n : ℕ)
    → text_eq u (dot ∷ []) ≡ false
    → check_labels (labels_of u) 1 ≡ ok n
    → check_labels (split_dots (take (length u - 1) u)) 1 ≡ ok n
not_root u n e c = rw e at c

-- A checked absolute name has nothing to tidy.
check_name-tidy : (u w : Text) → check_name u ≡ ok w → is_absolute u ≡ true → tidy u ≡ u
unfolding check_name
check_name-tidy u w h a = elim (Bool-cases (text_eq u (dot ∷ []))) [
  | inl e ↦ let i = text_eq→eq u (dot ∷ []) e in rw i root-tidy
  | inr e ↦
      let (n, c, h1) = >>=-eq-ok (check_labels (labels_of u) 1) _ h in
      let v = take (length u - 1) u in
      let t = labels-tidy v (check_labels-AllMatch (split_dots v) 1 n (not_root u n e c)) in
      let parts = absolute-parts u a in ap tidy parts ∙ t ∙ sym parts
]

dotted-is_absolute : (s : Text) → is_absolute (s ++ dot ∷ []) ≡ true
unfolding ends_with
dotted-is_absolute s =
    let n = length-append s (dot ∷ []) in
    let k : length (s ++ dot ∷ []) - 1 ≡ length s = omega (arith, n) in
    let d = drop_of_length (length (s ++ dot ∷ []) - 1) s (dot ∷ []) k in
    rw (d, text_eq_refl (dot ∷ [])) (ground (arith, n))

append-is_absolute :
    (s zone : Text) → is_absolute zone ≡ true → is_absolute (s ++ dot ∷ zone) ≡ true
unfolding ends_with
append-is_absolute s zone h =
    let last = absolute-parts zone h in
    let v = take (length zone - 1) zone in
    let whole : s ++ dot ∷ zone ≡ (s ++ dot ∷ v) ++ dot ∷ [] =
      ap (λ t. s ++ dot ∷ t) last ∙ sym (append_assoc s (dot ∷ v) (dot ∷ [])) in
    rw whole (dotted-is_absolute (s ++ dot ∷ v))

is_absolute-some : (u : Text) → is_absolute u ≡ true → is_empty u ≡ false
unfolding ends_with
is_absolute-some [] h = cc
is_absolute-some (c ∷ s) h = refl

target-is_absolute :
    (raw zone u : Text)
    → is_absolute zone ≡ true
    → canonical_target raw zone ≡ ok u
    → (is_absolute u ≡ true) × (check_name u ≡ ok u)
unfolding canonical_target
target-is_absolute raw zone u a h =
    let (e, h1) = raise_if->>-eq-ok (is_empty raw) _ _ h in
    elim (Bool-cases (is_absolute (tidy raw))) [
      | inl k ↦ checked (tidy raw) k (rw k at h1)
      | inr k ↦ checked (tidy raw ++ dot ∷ zone) (append-is_absolute (tidy raw) zone a) (rw k at h1)
    ]
  where
    checked :
        (t : Text)
        → is_absolute t ≡ true
        → check_name t ≡ ok u
        → (is_absolute u ≡ true) × (check_name u ≡ ok u)
    checked t k c = let i = check_name-same t u c in (rw i at k, rw i at c)

-- A target that is accepted in a zone is accepted again, in whatever zone, as it is.
pub canonical_target_again :
    (raw zone other u : Text)
    → is_absolute zone ≡ true
    → canonical_target raw zone ≡ ok u
    → canonical_target u other ≡ ok u
unfolding canonical_target
canonical_target_again raw zone other u a h =
    let (k, c) = target-is_absolute raw zone u a h in
    rw (is_absolute-some u k, check_name-tidy u u c k, k) c
