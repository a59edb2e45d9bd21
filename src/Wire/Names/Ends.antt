-- ===== src/Wire/Names/Ends.antt =====
-- The loop of `decode_name` ends on every buffer, and what it returns lies inside the buffer.
use ab_bedd4c0e_tsig_bugfix.Prelude.{
  ℕ, zero, suc, ◌+◌, ◌-◌, ◌*◌, ◌%◌, ◌≤◌, ◌<◌, ◌≡◌, ◌≢◌, refl, false, Option, none, some, List, [],
  ◌∷◌, ◌++◌, arith, if◌then◌else◌, length, get_elem?, lt-of_get_elem?, Bool-cases, inl, inr, ◌==◌,
}
use ab_bedd4c0e_tsig_bugfix.Errors.{Result, ok, err, out_of_fuel}
use ab_bedd4c0e_tsig_bugfix.Text.{Text, Bytes, dot, join_dots}
use ab_bedd4c0e_tsig_bugfix.Wire.Names.{
  NameState, NameStep, more, done, contains, or_else, follow_pointer, read_label, decode_byte,
  decode_loop, decode_name, start_at, rounds,
}

-- How many positions below `k` have not been jumped to.
unseen : ℕ → List ℕ → ℕ
unseen zero qs = 0
unseen (suc k) qs = if contains k qs then unseen k qs else suc (unseen k qs)

unseen-le : (k : ℕ) (qs : List ℕ) → unseen k qs ≤ k
unfolding unseen
unseen-le zero qs = omega arith
unseen-le (suc k) qs = ground (arith, unseen-le k qs)

unseen-cons_above : (k p : ℕ) (qs : List ℕ) → k ≤ p → unseen k (p ∷ qs) ≡ unseen k qs
unfolding unseen
unseen-cons_above zero p qs h = refl
unseen-cons_above (suc k) p qs h = ground (arith, unseen-cons_above k p qs (omega arith))

unseen-cons :
    (k p : ℕ) (qs : List ℕ) → p < k → contains p qs ≡ false → suc (unseen k (p ∷ qs)) ≡ unseen k qs
unfolding unseen
unseen-cons zero p qs h new = elim h [ ]
unseen-cons (suc k) p qs h new = ground (arith, unseen-cons k p qs, unseen-cons_above k p qs)

-- What falls with every round: a jump uses up a position, a label moves forward.
measure : Bytes → NameState → ℕ
measure buf s = unseen (length buf) s.seen * (length buf + 1) + (length buf - s.cur)

abbrev Falls : Bytes → NameState → NameStep → Type 0
Falls buf s (more s') = measure buf s' < measure buf s
Falls buf s (done r) = r ≢ err out_of_fuel

jump_falls : (u v l p c : ℕ) → suc u ≡ v → u * (l + 1) + (l - p) < v * (l + 1) + (l - c)
jump_falls u v l p c e = rw (← e) (grind arith)

follow_pointer-Falls :
    (buf : Bytes) (s : NameState) (n : ℕ) (b : Option ℕ)
    → s.cur < length buf
    → Falls buf s (follow_pointer s n b)
unfolding follow_pointer measure
follow_pointer-Falls buf s n none h = λ e. cc
follow_pointer-Falls buf s n (some b) h = ground (
  arith,
  unseen-cons (length buf) (n % 64 * 256 + b) s.seen,
  jump_falls (unseen (length buf) ((n % 64 * 256 + b) ∷ s.seen)) (unseen (length buf) s.seen)
      (length buf) (n % 64 * 256 + b) s.cur,
)

read_label-Falls :
    (buf : Bytes) (s : NameState) (n : ℕ) → s.cur < length buf → Falls buf s (read_label buf s n)
unfolding read_label measure
read_label-Falls buf s n h = ground arith

decode_byte-Falls :
    (buf : Bytes) (s : NameState) (o : Option ℕ)
    → get_elem? buf s.cur ≡ o
    → Falls buf s (decode_byte buf s o)
unfolding decode_byte
decode_byte-Falls buf s none e = λ k. cc
decode_byte-Falls buf s (some n) e = ground (
  arith,
  lt-of_get_elem? s.cur buf e,
  follow_pointer-Falls buf s n (get_elem? buf (s.cur + 1)),
  read_label-Falls buf s n,
)

abbrev Ends : ℕ → Bytes → NameState → Type 0
Ends fuel buf s = decode_loop fuel buf s ≢ err out_of_fuel

round-Ends :
    (fuel : ℕ) (buf : Bytes) (s : NameState) (st : NameStep)
    → ((s' : NameState) → measure buf s' < fuel → Ends fuel buf s')
    → decode_byte buf s (get_elem? buf s.cur) ≡ st
    → Falls buf s st
    → measure buf s < suc fuel
    → Ends (suc fuel) buf s
unfolding decode_loop
round-Ends fuel buf s (more s') rest e falls h = rw (e, decode_loop) (rest s' (omega arith))
round-Ends fuel buf s (done r) rest e falls h = rw (e, decode_loop) falls

decode_loop-Ends : (fuel : ℕ) (buf : Bytes) (s : NameState) → measure buf s < fuel → Ends fuel buf s
decode_loop-Ends zero buf s h = elim h [ ]
decode_loop-Ends (suc fuel) buf s h =
    round-Ends fuel buf s (decode_byte buf s (get_elem? buf s.cur)) (decode_loop-Ends fuel buf) refl
      (decode_byte-Falls buf s (get_elem? buf s.cur) refl) h

-- On every buffer and offset the loop ends by itself: a name, or an error of the program.
pub decode_name_ends : (buf : Bytes) (off : ℕ) → decode_name buf off ≢ err out_of_fuel
unfolding decode_name measure
decode_name_ends buf off =
    decode_loop-Ends (rounds buf) buf (start_at off) (grind (arith, unseen-le (length buf) []))

-- Where the caller goes on reading: behind its own offset, and inside the buffer.
abbrev Within : Bytes → ℕ → Option ℕ → ℕ → Type 0
Within buf off none cur = off ≤ cur
Within buf off (some k) cur = (off < k) × (k ≤ length buf)

abbrev pub IsRead : Bytes → ℕ → Result (Text × ℕ) → Type 0
IsRead buf off (ok (name, k)) = (off < k) × (k ≤ length buf) × ((t : Text) × (name ≡ t ++ dot ∷ []))
IsRead buf off (err e) = Unit

abbrev StepIsRead : Bytes → ℕ → NameStep → Type 0
StepIsRead buf off (more s) = Within buf off s.next_off s.cur
StepIsRead buf off (done r) = IsRead buf off r

or_else-Within :
    (buf : Bytes) (off cur k : ℕ) (o : Option ℕ)
    → Within buf off o cur
    → cur < k
    → k ≤ length buf
    → (off < or_else o k) × (or_else o k ≤ length buf)
or_else-Within buf off cur k none w h i = (omega arith, i)
or_else-Within buf off cur k (some j) w h i = w

follow_pointer-IsRead :
    (buf : Bytes) (off : ℕ) (s : NameState) (n : ℕ) (b : Option ℕ)
    → Within buf off s.next_off s.cur
    → get_elem? buf (s.cur + 1) ≡ b
    → StepIsRead buf off (follow_pointer s n b)
unfolding follow_pointer
follow_pointer-IsRead buf off s n none w e = tt
follow_pointer-IsRead buf off s n (some b) w e = ground (
  arith,
  or_else-Within buf off s.cur (s.cur + 2) s.next_off w (omega arith)
      (omega (arith, lt-of_get_elem? (s.cur + 1) buf e)),
)

Within-mono :
    (buf : Bytes) (off cur cur' : ℕ) (o : Option ℕ)
    → Within buf off o cur
    → cur ≤ cur'
    → Within buf off o cur'
Within-mono buf off cur cur' none w h = omega arith
Within-mono buf off cur cur' (some k) w h = w

read_label-IsRead :
    (buf : Bytes) (off : ℕ) (s : NameState) (n : ℕ)
    → Within buf off s.next_off s.cur
    → StepIsRead buf off (read_label buf s n)
unfolding read_label
read_label-IsRead buf off s n w =
    ground (arith, Within-mono buf off s.cur (s.cur + 1 + n) s.next_off w (omega arith))

decode_byte-IsRead :
    (buf : Bytes) (off : ℕ) (s : NameState) (o : Option ℕ)
    → Within buf off s.next_off s.cur
    → get_elem? buf s.cur ≡ o
    → StepIsRead buf off (decode_byte buf s o)
unfolding decode_byte
decode_byte-IsRead buf off s none w e = tt
decode_byte-IsRead buf off s (some n) w e =
    let r : (off < or_else s.next_off (s.cur + 1)) × (or_else s.next_off (s.cur + 1) ≤ length buf) =
      or_else-Within buf off s.cur (s.cur + 1) s.next_off w (omega arith)
        (omega (arith, lt-of_get_elem? s.cur buf e)) in
    elim (Bool-cases (n == 0)) [
      | inl z ↦ rw z (r.0, r.1, (join_dots s.labels, refl))
      | inr nz ↦ rw nz (
          ground (
            arith,
            follow_pointer-IsRead buf off s n (get_elem? buf (s.cur + 1)) w refl,
            read_label-IsRead buf off s n w,
          ))
    ]

round-IsRead :
    (fuel : ℕ) (buf : Bytes) (off : ℕ) (s : NameState) (st : NameStep)
    → ((s' : NameState)
        → Within buf off s'.next_off s'.cur
        → IsRead buf off (decode_loop fuel buf s'))
    → decode_byte buf s (get_elem? buf s.cur) ≡ st
    → StepIsRead buf off st
    → IsRead buf off (decode_loop (suc fuel) buf s)
unfolding decode_loop
round-IsRead fuel buf off s (more s') rest e h = rw (e, decode_loop) (rest s' h)
round-IsRead fuel buf off s (done r) rest e h = rw (e, decode_loop) h

decode_loop-IsRead :
    (fuel : ℕ) (buf : Bytes) (off : ℕ) (s : NameState)
    → Within buf off s.next_off s.cur
    → IsRead buf off (decode_loop fuel buf s)
decode_loop-IsRead zero buf off s w = unfold decode_loop in tt
decode_loop-IsRead (suc fuel) buf off s w =
    round-IsRead fuel buf off s (decode_byte buf s (get_elem? buf s.cur))
      (decode_loop-IsRead fuel buf off) refl
      (decode_byte-IsRead buf off s (get_elem? buf s.cur) w refl)

-- A name that is read ends in a dot, and the caller goes on behind its offset and inside the
-- buffer.
pub decode_name_bounds : (buf : Bytes) (off : ℕ) → IsRead buf off (decode_name buf off)
unfolding decode_name
decode_name_bounds buf off = decode_loop-IsRead (rounds buf) buf off (start_at off) (omega arith)
