-- ===== src/Serial/Order.antt =====
-- What the comparison of app/serial.py decides.
use ab_bedd4c0e_tsig_bugfix.Prelude.{ℕ, ◌+◌, ◌-◌, ◌%◌, ◌<◌, ◌≡◌, ◌↔◌, true, arith}
use ab_bedd4c0e_tsig_bugfix.Serial.{
  modulus, half, SerialRelation, equal, greater, less, undecidable, compare, is_forward,
}

-- The distance from one serial forward to another, going round the 32-bit circle.
abbrev pub distance : ℕ → ℕ → ℕ
distance a b = (b % modulus + modulus - a % modulus) % modulus

-- The four answers divide the distances: zero, below half, above half, exactly half.
abbrev pub Means : SerialRelation → ℕ → Type 0
Means equal d = d ≡ 0
Means greater d = (0 < d) × (d < half)
Means less d = (half < d) × (d < modulus)
Means undecidable d = d ≡ half

-- The relation of two serials is what the distance from the first forward to the second on the
-- 32-bit circle says: equal at zero, greater below half, less above half, undecidable at exactly
-- half.
pub compare-Means : (a b : ℕ) → Means (compare a b) (distance a b)
unfolding compare
compare-Means a b = ground arith

-- Turning the arguments round exchanges greater and less, and keeps the rest.
abbrev pub opposite : SerialRelation → SerialRelation
opposite equal = equal
opposite greater = less
opposite less = greater
opposite undecidable = undecidable

-- For any two serials, comparing them the other way round gives the opposite relation.
pub compare_antisym : (a b : ℕ) → compare b a ≡ opposite (compare a b)
unfolding compare
compare_antisym a b = ground arith

-- From a base, an update by a step below 2^32, wrap-around included, is accepted exactly when the
-- step is from 1 below 2^31.
pub is_forward_iff :
    (base step : ℕ)
    → step < modulus
    → ((is_forward base ((base + step) % modulus)).0 ≡ true) ↔ ((0 < step) × (step < half))
unfolding is_forward compare
is_forward_iff base step h = (λ e. ground arith, λ e. ground arith)

-- Two serials are equal for the comparison exactly when they agree modulo 2^32.
pub compare-equal_iff : (a b : ℕ) → (compare a b ≡ equal) ↔ (a % modulus ≡ b % modulus)
unfolding compare
compare-equal_iff a b = (λ e. ground arith, λ e. ground arith)
