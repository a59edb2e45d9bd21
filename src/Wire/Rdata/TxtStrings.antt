-- ===== src/Wire/Rdata/TxtStrings.antt =====
-- The character strings of a TXT record hold its text.
use ab_bedd4c0e_tsig_bugfix.Prelude.{
  ℕ, zero, suc, ◌≤◌, ◌≡◌, refl, [], ◌∷◌, ◌++◌, arith, length, take, drop, length-append,
  length-take, length-drop, take-append-drop,
}
use ab_bedd4c0e_tsig_bugfix.Errors.{Result, ok}
use ab_bedd4c0e_tsig_bugfix.Text.{Bytes}
use ab_bedd4c0e_tsig_bugfix.Wire.Rdata.{or_zero, txt_from, txt_strings}

-- Character strings, each behind its length in one byte, and the text that they make up.
pub data AreStrings : Bytes → Bytes → Type 0 where
  no_more : AreStrings [] []
  string :
      (s : Bytes) {wire text : Bytes}
      → length s ≤ 255
      → AreStrings wire text
      → AreStrings (length s ∷ s ++ wire) (s ++ text)

-- There is at least one string.
abbrev pub Holds : Bytes → Result Bytes → Type 0
Holds text r = (out : Bytes) × (r ≡ ok out) × (1 ≤ length out) × AreStrings out text

strings_of :
    (rounds : ℕ) (text : Bytes)
    → length text ≤ rounds
    → (out : Bytes) × (txt_from rounds text ≡ ok out)
      × (length text ≤ length out)
      × AreStrings out text
unfolding txt_from
strings_of rounds [] le = ([], refl, omega arith, no_more)
strings_of zero (b ∷ bs) le = absurd (omega (arith, le))
strings_of (suc rounds) (b ∷ bs) le =
    let left = length-drop 255 (b ∷ bs) in
    let (out, e, l, more) = strings_of rounds (drop 255 (b ∷ bs)) (omega (arith, le, left)) in
    let chunk = take 255 (b ∷ bs) in
    let short = length-take 255 (b ∷ bs) in
    (
      length chunk ∷ chunk ++ out,
      rw e refl,
      omega (arith, left, l, short, length-append chunk out),
      rw (take-append-drop 255 (b ∷ bs)) at (string chunk (omega (arith, short)) more),
    )

some_string :
    (text out : Bytes)
    → 1 ≤ length text
    → length text ≤ length out
    → AreStrings out text
    → Holds text (ok (or_zero out))
some_string text [] one le more = absurd (omega (arith, one, le))
some_string text (c ∷ cs) one le more = (c ∷ cs, refl, omega arith, more)

-- Every text is encoded, as one or more character strings of at most 255 bytes that make it up.
pub txt_strings-Holds : (text : Bytes) → Holds text (txt_strings text)
unfolding txt_strings
txt_strings-Holds [] = (0 ∷ [], refl, omega arith, string [] (omega arith) no_more)
txt_strings-Holds (b ∷ bs) =
    let (out, e, l, more) = strings_of (length (b ∷ bs)) (b ∷ bs) (omega arith) in
    rw e (some_string (b ∷ bs) out (omega arith) l more)
