-- ===== src/Wire/Names/RoundTrip.antt =====
-- `decode_name` reads what `encode_name` writes.
use mathlib.Core.Path.{ap₂}
use ab_bedd4c0e_tsig_bugfix.Prelude.{
  drop-drop, drop_of_length, drop-length, Bool, ◌||◌, ℕ, zero, suc, ◌+◌, ◌*◌, ◌≤◌, ◌<◌, ◌≡◌, refl,
  sym, ap, ◌∙◌, true, none, List, [], ◌∷◌, ◌++◌, map, append-nil, append_assoc, arith, length, drop,
  get_elem?, get_elem?-of_drop, slice-of_drop, drop-of_drop, length-of_drop, length-append, inl,
  inr, Bool-cases, slice,
}
use ab_bedd4c0e_tsig_bugfix.Errors.{ok, >>=-eq-ok}
use ab_bedd4c0e_tsig_bugfix.Text.{
  Text, Bytes, dot, text_eq, lower, is_ascii, is_empty, rstrip_dots, split_dots, join_dots,
}
use ab_bedd4c0e_tsig_bugfix.Text.Laws.{
  text_eq→eq, join_dots-split_dots, join_dots-map-lower, lower_idem, is_ascii-lower, length-lower,
}
use ab_bedd4c0e_tsig_bugfix.Wire.Names.{
  NameState, more, or_else, encode_label, encode_labels, encode_name, read_label, decode_byte,
  decode_loop, decode_name, start_at, rounds,
}

-- What the writer accepts, and what it writes.
abbrev pub AreLabels : List Text → Type 0
AreLabels [] = Unit
AreLabels (l ∷ ls) = ((is_ascii l ≡ true) × (0 < length l) × (length l ≤ 63)) × AreLabels ls

abbrev pub labels_wire : List Text → Bytes
labels_wire [] = []
labels_wire (l ∷ ls) = length l ∷ lower l ++ labels_wire ls

encode_label-inv :
    (l : Text) (w : Bytes)
    → encode_label l ≡ ok w
    → (w ≡ length l ∷ lower l) × ((is_ascii l ≡ true) × (0 < length l) × (length l ≤ 63))
unfolding encode_label
encode_label-inv [] w h = cc
encode_label-inv (c ∷ l) w h = ground arith

encode_labels-inv :
    (ls : List Text) (w : Bytes) → encode_labels ls ≡ ok w → (w ≡ labels_wire ls) × AreLabels ls
unfolding encode_labels
encode_labels-inv [] w h = (cc, tt)
encode_labels-inv (l ∷ ls) w h =
    let (lab, e, k) = >>=-eq-ok (encode_label l) _ h in
    let (out, e', k') = >>=-eq-ok (encode_labels ls) _ k in
    let i = encode_label-inv l lab e in let j = encode_labels-inv ls out e' in (cc, (i.1, j.1))

-- One round of the reader on a written label.
decode_byte-label :
    (buf : Bytes) (s : NameState) (l : Text) (rest : Bytes)
    → is_ascii l ≡ true
    → 0 < length l
    → length l ≤ 63
    → drop s.cur buf ≡ length l ∷ lower l ++ rest
    → s.cur < length buf
    → decode_byte buf s (get_elem? buf s.cur)
      ≡ more (record s { cur = s.cur + 1 + length l; labels = s.labels ++ lower l ∷ [] })
unfolding decode_byte read_label
decode_byte-label buf s l rest a pos short at lt =
    rw (get_elem?-of_drop s.cur buf (lower l ++ rest) (length l) at)
      (ground (arith, taken, is_ascii-lower l, lower_idem l, fits))
  where
    behind : drop (s.cur + 1) buf ≡ lower l ++ rest
    behind = drop-of_drop s.cur 1 buf (length l ∷ []) (lower l ++ rest) at refl

    taken : slice buf (s.cur + 1) (s.cur + 1 + length l) ≡ lower l
    taken =
        slice-of_drop buf (lower l) rest (s.cur + 1) (s.cur + 1 + length l) behind
          (omega (arith, length-lower l))

    fits : s.cur + 1 + length l ≤ length buf
    fits = omega (
      arith,
      length-of_drop s.cur buf (length l ∷ lower l ++ rest) at,
      length-append {0} (lower l) rest,
      length-lower l,
    )

-- The reader at the end of a name.
decode_loop-end :
    (fuel : ℕ) (buf : Bytes) (s : NameState) (rest : Bytes)
    → drop s.cur buf ≡ 0 ∷ rest
    → 0 < fuel
    → decode_loop fuel buf s ≡ ok (join_dots s.labels ++ dot ∷ [], or_else s.next_off (s.cur + 1))
unfolding decode_loop decode_byte
decode_loop-end zero buf s rest at h = elim h [ ]
decode_loop-end (suc fuel) buf s rest at h = rw (get_elem?-of_drop s.cur buf rest 0 at, decode_loop)

decode_loop-more :
    (fuel : ℕ) (buf : Bytes) (s s' : NameState)
    → decode_byte buf s (get_elem? buf s.cur) ≡ more s'
    → decode_loop (suc fuel) buf s ≡ decode_loop fuel buf s'
unfolding decode_loop
decode_loop-more fuel buf s s' e = rw (e, decode_loop)

-- The reader on all the labels of a name.
decode_loop-labels :
    (fuel : ℕ) (ls : List Text) (buf : Bytes) (s : NameState) (rest : Bytes)
    → AreLabels ls
    → drop s.cur buf ≡ labels_wire ls ++ 0 ∷ rest
    → s.cur ≤ length buf
    → s.next_off ≡ none
    → length ls < fuel
    → decode_loop fuel buf s
      ≡ ok (join_dots (s.labels ++ map lower ls) ++ dot ∷ [], s.cur + length (labels_wire ls) + 1)
decode_loop-labels fuel [] buf s rest good at le first h =
    rw (decode_loop-end fuel buf s rest at h, first, append-nil)
      (ap (λ (k : ℕ). ok (join_dots s.labels ++ dot ∷ [], k)) (omega arith))
decode_loop-labels zero (l ∷ ls) buf s rest good at le first h = elim h [ ]
decode_loop-labels (suc fuel) (l ∷ ls) buf s rest ((a, pos, short), good) at le first h =
    decode_loop-more fuel buf s s' (
      decode_byte-label buf s l (labels_wire ls ++ 0 ∷ rest) a pos short at' (omega (arith, whole)))
    ∙ decode_loop-labels fuel ls buf s' rest good behind
        (omega
          (arith, whole, length-append {0} (lower l) (labels_wire ls ++ 0 ∷ rest), length-lower l))
        first (omega arith)
    ∙ ap₂ (λ (ms : List Text) (k : ℕ). ok (join_dots ms ++ dot ∷ [], k))
        (append_assoc s.labels (lower l ∷ []) (map lower ls))
        (omega (arith, length-append {0} (lower l) (labels_wire ls), length-lower l))
  where
    s' : NameState
    s' = record s { cur = s.cur + 1 + length l; labels = s.labels ++ lower l ∷ [] }

    at' : drop s.cur buf ≡ length l ∷ lower l ++ (labels_wire ls ++ 0 ∷ rest)
    at' = at ∙ ap (λ (t : Bytes). length l ∷ t) (append_assoc (lower l) (labels_wire ls) (0 ∷ rest))

    whole : length buf ≡ s.cur + length (length l ∷ lower l ++ (labels_wire ls ++ 0 ∷ rest))
    whole = length-of_drop s.cur buf _ at' le

    behind : drop (s.cur + 1 + length l) buf ≡ labels_wire ls ++ 0 ∷ rest
    behind =
        sym (drop-drop (1 + length l) s.cur (s.cur + 1 + length l) buf (omega arith))
        ∙ ap (drop (1 + length l)) at'
        ∙ drop_of_length (1 + length l) (length l ∷ lower l) (labels_wire ls ++ 0 ∷ rest)
            (omega (arith, length-lower l))

length-le_labels_wire : (ls : List Text) → length ls ≤ length (labels_wire ls)
length-le_labels_wire [] = omega arith
length-le_labels_wire (l ∷ ls) =
    omega (arith, length-le_labels_wire ls, length-append {0} (lower l) (labels_wire ls))

enough_rounds : (a b c : ℕ) → a ≤ b → b ≤ c → a < (c + 1) * (c + 1) + 1
enough_rounds a b c h k = grind arith

-- A written name at an offset of a buffer, read back.
decode_name-labels :
    (ls : List Text) (buf rest : Bytes) (off : ℕ)
    → AreLabels ls
    → drop off buf ≡ labels_wire ls ++ 0 ∷ rest
    → off ≤ length buf
    → decode_name buf off ≡ ok (lower (join_dots ls) ++ dot ∷ [], off + length (labels_wire ls) + 1)
unfolding decode_name
decode_name-labels ls buf rest off good at le =
    decode_loop-labels (rounds buf) ls buf (start_at off) rest good at le refl (
      enough_rounds (length ls) (length (labels_wire ls)) (length buf) (length-le_labels_wire ls) (
        omega (
          arith,
          length-of_drop off buf (labels_wire ls ++ 0 ∷ rest) at le,
          length-append {0} (labels_wire ls) (0 ∷ rest),
        )))
    ∙ ap (λ (t : Text). ok (t ++ dot ∷ [], off + length (labels_wire ls) + 1))
        (join_dots-map-lower ls)

-- The one form in which the program keeps a name: lower case, absolute, one dot at its end.
unfoldable pub normal : Text → Text
normal name = lower (rstrip_dots name) ++ dot ∷ []

abbrev pub is_root : Text → Bool
is_root name = is_empty name || text_eq name (dot ∷ [])

pub is_root-rstrip : (name : Text) → is_root name ≡ true → rstrip_dots name ≡ []
unfolding rstrip_dots
is_root-rstrip [] h = refl
is_root-rstrip (c ∷ name) h = ap rstrip_dots (text_eq→eq (c ∷ name) (dot ∷ []) h)

-- What `encode_name` accepts, and what it writes.
pub record IsEncoded (name : Text) (w : Bytes) : Type 0 where
  pub parts : List Text
  pub good : AreLabels parts
  pub wire : w ≡ labels_wire parts ++ 0 ∷ []
  pub name_eq : normal name ≡ lower (join_dots parts) ++ dot ∷ []

pub encode_name-IsEncoded : (name : Text) (w : Bytes) → encode_name name ≡ ok w → IsEncoded name w
unfolding encode_name normal
encode_name-IsEncoded name w h = elim (Bool-cases (is_root name)) [
  | inl e ↦ record {
    parts = [];
    good = tt;
    wire = cc (rw e at h);
    name_eq = rw (is_root-rstrip name e) (unfold join_dots in refl);
  }
  | inr e ↦
      let (out, k, k') = >>=-eq-ok (encode_labels (split_dots (rstrip_dots name))) _ (rw e at h) in
      let (i, j) = encode_labels-inv (split_dots (rstrip_dots name)) out k in
      record {
        parts = split_dots (rstrip_dots name);
        good = j;
        wire = cc;
        name_eq = rw join_dots-split_dots;
      }
]

-- Wherever an encoded name stands in a buffer, reading it there gives the name in normal form and
-- the offset just behind it.
pub decode_name-at :
    (name : Text) (w buf rest : Bytes) (off : ℕ)
    → encode_name name ≡ ok w
    → drop off buf ≡ w ++ rest
    → off ≤ length buf
    → decode_name buf off ≡ ok (normal name, off + length w)
decode_name-at name w buf rest off h at le =
    decode_name-labels e.parts buf rest off e.good
      (at ∙ ap (λ t. t ++ rest) e.wire ∙ append_assoc (labels_wire e.parts) (0 ∷ []) rest) le
    ∙ cc (e.name_eq, size)
  where
    e : IsEncoded name w
    e = encode_name-IsEncoded name w h

    size : off + length (labels_wire e.parts) + 1 ≡ off + length w
    size =
        omega (arith, ap (length {A = ℕ}) e.wire, length-append {0} (labels_wire e.parts) (0 ∷ []))

-- Whatever surrounds an encoded name, decoding at its offset gives its normal form (lower case, one
-- dot at the end) and the offset just behind it.
pub decode_name-encode_name :
    (name : Text) (w pre rest : Bytes)
    → encode_name name ≡ ok w
    → decode_name (pre ++ w ++ rest) (length pre) ≡ ok (normal name, length pre + length w)
decode_name-encode_name name w pre rest h =
    decode_name-at name w (pre ++ w ++ rest) rest (length pre) h
      (ap (drop (length pre)) (append_assoc pre w rest) ∙ drop-length pre (w ++ rest))
      (omega (arith, length-append {0} (pre ++ w) rest, length-append {0} pre w))
