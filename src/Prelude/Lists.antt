-- ===== src/Prelude/Lists.antt =====
-- Lists measured and indexed by native numbers, under the library's names, and the facts that
-- readers of a buffer at an offset share.
use Prim.Native.Nat.{ℕ, zero, suc, ◌+◌, ◌-◌, ◌≤◌, ◌<◌, min}
use mathlib.Core.Path.{◌≡◌, refl, ap, sym, ◌∙◌}
use mathlib.Core.List.{List, [], ◌∷◌, ◌++◌}
use mathlib.Core.Option.{Option, none, some}
use native.Mathlib.Omega.{arith}

module _ {ℓ} {A : Type ℓ} where
  abbrev pub length : List A → ℕ
  length [] = 0
  length (x ∷ xs) = suc (length xs)

  abbrev pub get_elem? : List A → ℕ → Option A
  get_elem? [] i = none
  get_elem? (x ∷ xs) zero = some x
  get_elem? (x ∷ xs) (suc i) = get_elem? xs i

  abbrev pub take : ℕ → List A → List A
  take zero xs = []
  take (suc n) [] = []
  take (suc n) (x ∷ xs) = x ∷ take n xs

  abbrev pub drop : ℕ → List A → List A
  drop zero xs = xs
  drop (suc n) [] = []
  drop (suc n) (x ∷ xs) = drop n xs

module _ {ℓ} {A : Type ℓ} where
  -- `xs[a:b]` of the source, for `a ≤ b`.
  abbrev pub slice : List A → ℕ → ℕ → List A
  slice xs a b = take (b - a) (drop a xs)

  pub length-append : (xs ys : List A) → length (xs ++ ys) ≡ length xs + length ys
  length-append [] ys = omega arith
  length-append (x ∷ xs) ys = omega (arith, length-append xs ys)

  pub length-take : (n : ℕ) (xs : List A) → length (take n xs) ≡ min n (length xs)
  length-take zero xs = omega arith
  length-take (suc n) [] = omega arith
  length-take (suc n) (x ∷ xs) = omega (arith, length-take n xs)

  pub length-drop : (n : ℕ) (xs : List A) → length (drop n xs) ≡ length xs - n
  length-drop zero xs = omega arith
  length-drop (suc n) [] = omega arith
  length-drop (suc n) (x ∷ xs) = omega (arith, length-drop n xs)

  pub take-append-drop : (n : ℕ) (xs : List A) → take n xs ++ drop n xs ≡ xs
  take-append-drop zero xs = refl
  take-append-drop (suc n) [] = refl
  take-append-drop (suc n) (x ∷ xs) = rw (take-append-drop n xs)

  pub take-length : (xs ys : List A) → take (length xs) (xs ++ ys) ≡ xs
  take-length [] ys = refl
  take-length (x ∷ xs) ys = rw (take-length xs ys)

  pub drop-length : (xs ys : List A) → drop (length xs) (xs ++ ys) ≡ ys
  drop-length [] ys = refl
  drop-length (x ∷ xs) ys = drop-length xs ys

  -- With the count as a variable: the form in which a reader's offset appears.
  pub take_of_length : (n : ℕ) (xs ys : List A) → n ≡ length xs → take n (xs ++ ys) ≡ xs
  take_of_length n xs ys e = rw e (take-length xs ys)

  pub drop_of_length : (n : ℕ) (xs ys : List A) → n ≡ length xs → drop n (xs ++ ys) ≡ ys
  drop_of_length n xs ys e = rw e (drop-length xs ys)

  drop-nil : (n : ℕ) → drop {A = A} n [] ≡ []
  drop-nil zero = refl
  drop-nil (suc n) = refl

  pub drop-drop : (m n k : ℕ) (xs : List A) → k ≡ n + m → drop m (drop n xs) ≡ drop k xs
  drop-drop m zero k xs e = let e' : k ≡ m = omega arith in rw e'
  drop-drop m (suc n) k [] e = drop-nil m ∙ sym (drop-nil k)
  drop-drop m (suc n) zero (x ∷ xs) e = absurd (omega arith)
  drop-drop m (suc n) (suc k) (x ∷ xs) e = drop-drop m n k xs (omega arith)

  -- What a buffer holds at an offset, read by its remainder there.
  pub get_elem?-of_drop :
      (n : ℕ) (xs ys : List A) (y : A) → drop n xs ≡ y ∷ ys → get_elem? xs n ≡ some y
  get_elem?-of_drop zero [] ys y h = cc
  get_elem?-of_drop zero (x ∷ xs) ys y h = cc
  get_elem?-of_drop (suc n) [] ys y h = cc
  get_elem?-of_drop (suc n) (x ∷ xs) ys y h = get_elem?-of_drop n xs ys y h

  -- A remainder gives the length of the whole, from an offset inside the buffer.
  pub length-of_drop :
      (n : ℕ) (xs ys : List A) → drop n xs ≡ ys → n ≤ length xs → length xs ≡ n + length ys
  length-of_drop n xs ys h le = omega (arith, length-drop n xs, ap (length {A = A}) h)

  pub drop-of_drop :
      (n m : ℕ) (xs ys zs : List A) → drop n xs ≡ ys ++ zs → m ≡ length ys → drop (n + m) xs ≡ zs
  drop-of_drop n m xs ys zs h e =
      sym (drop-drop m n (n + m) xs refl) ∙ ap (drop m) h ∙ drop_of_length m ys zs e

  pub lt-of_get_elem? : (n : ℕ) (xs : List A) {y : A} → get_elem? xs n ≡ some y → n < length xs
  lt-of_get_elem? n [] h = cc
  lt-of_get_elem? zero (x ∷ xs) h = omega arith
  lt-of_get_elem? (suc n) (x ∷ xs) h = omega (arith, lt-of_get_elem? n xs h)

  pub slice-of_drop :
      (xs ys zs : List A) (a b : ℕ) → drop a xs ≡ ys ++ zs → b ≡ a + length ys → slice xs a b ≡ ys
  slice-of_drop xs ys zs a b h e = rw h (take_of_length (b - a) ys zs (omega arith))
