-- ===== src/Wire/Bytes.antt =====
-- `struct.pack` and `struct.unpack` of app/dnswire.py: big-endian fields, with the error that Python
-- raises on a value or a buffer that does not fit.
use ab_bedd4c0e_tsig_bugfix.Prelude.{
  ℕ, ◌+◌, ◌*◌, ◌/◌, ◌%◌, ◌^◌, ◌<◌, ◌≡◌, [], ◌∷◌, ◌++◌, arith, ltb, if◌then◌else◌, lt→ltb, ap, take,
  drop,
}
use ab_bedd4c0e_tsig_bugfix.Errors.{Result, ok, err, struct_error, ◌>>=◌}
use ab_bedd4c0e_tsig_bugfix.Text.{Bytes}

abbrev pub be16 : ℕ → Bytes
be16 v = (v / 256) ∷ (v % 256) ∷ []

abbrev pub be32 : ℕ → Bytes
be32 v = (v / 2 ^ 24) ∷ (v / 2 ^ 16 % 256) ∷ (v / 256 % 256) ∷ (v % 256) ∷ []

-- `struct.pack(">H", v)`
unfoldable pub pack_h : ℕ → Result Bytes
pack_h v = if ltb v (2 ^ 16) then ok (be16 v) else err struct_error

-- `struct.pack(">I", v)`
unfoldable pub pack_i : ℕ → Result Bytes
pack_i v = if ltb v (2 ^ 32) then ok (be32 v) else err struct_error

-- `struct.pack(">HHIH", …)`
unfoldable pub pack_hhih : ℕ → ℕ → ℕ → ℕ → Result Bytes
unfolding pack_h pack_i
pack_hhih a b c d = do x ← pack_h a; y ← pack_h b; z ← pack_i c; w ← pack_h d; ok (x ++ y ++ z ++ w)

-- `struct.pack(">HIH", …)`
unfoldable pub pack_hih : ℕ → ℕ → ℕ → Result Bytes
unfolding pack_h pack_i
pack_hih a b c = do x ← pack_h a; y ← pack_i b; z ← pack_h c; ok (x ++ y ++ z)

-- `struct.pack(">HHH", …)`
unfoldable pub pack_hhh : ℕ → ℕ → ℕ → Result Bytes
unfolding pack_h
pack_hhh a b c = do x ← pack_h a; y ← pack_h b; z ← pack_h c; ok (x ++ y ++ z)

-- `struct.unpack(">H", b)`, and so on: an error unless the length is exact.
unfoldable pub unpack_h : Bytes → Result ℕ
unpack_h (a ∷ b ∷ []) = ok (a * 256 + b)
unpack_h _ = err struct_error

abbrev u32 : ℕ → ℕ → ℕ → ℕ → ℕ
u32 a b c d = a * 2 ^ 24 + b * 2 ^ 16 + c * 256 + d

unfoldable pub unpack_i : Bytes → Result ℕ
unpack_i (a ∷ b ∷ c ∷ d ∷ []) = ok (u32 a b c d)
unpack_i _ = err struct_error

unfoldable pub unpack_hh : Bytes → Result (ℕ × ℕ)
unpack_hh (a ∷ b ∷ c ∷ d ∷ []) = ok (a * 256 + b, c * 256 + d)
unpack_hh _ = err struct_error

unfoldable pub unpack_hih : Bytes → Result (ℕ × ℕ × ℕ)
unpack_hih (a ∷ b ∷ c ∷ d ∷ e ∷ f ∷ g ∷ h ∷ []) = ok (a * 256 + b, u32 c d e f, g * 256 + h)
unpack_hih _ = err struct_error

unfoldable pub unpack_hhh : Bytes → Result (ℕ × ℕ × ℕ)
unpack_hhh (a ∷ b ∷ c ∷ d ∷ e ∷ f ∷ []) = ok (a * 256 + b, c * 256 + d, e * 256 + f)
unpack_hhh _ = err struct_error

unfoldable pub unpack_hhih : Bytes → Result (ℕ × ℕ × ℕ × ℕ)
unpack_hhih (a ∷ b ∷ c ∷ d ∷ e ∷ f ∷ g ∷ h ∷ i ∷ j ∷ []) =
    ok (a * 256 + b, c * 256 + d, u32 e f g h, i * 256 + j)
unpack_hhih _ = err struct_error

-- `struct.unpack(">HHHHHH", b)`: the message header
unfoldable pub unpack_header : Bytes → Result (ℕ × ℕ × ℕ × ℕ × ℕ × ℕ)
unfolding unpack_hhh
unpack_header b = do
  (qid, flags, qd) ← unpack_hhh (take 6 b)
  (an, ns, ar) ← unpack_hhh (drop 6 b)
  ok (qid, flags, qd, an, ns, ar)

pub pack_h-eq : (v : ℕ) → v < 2 ^ 16 → pack_h v ≡ ok (be16 v)
unfolding pack_h
pack_h-eq v h = rw (lt→ltb v (2 ^ 16) h)

pub pack_i-eq : (v : ℕ) → v < 2 ^ 32 → pack_i v ≡ ok (be32 v)
unfolding pack_i
pack_i-eq v h = rw (lt→ltb v (2 ^ 32) h)

pub pack_hhih-eq :
    (a b c d : ℕ)
    → a < 2 ^ 16
    → b < 2 ^ 16
    → c < 2 ^ 32
    → d < 2 ^ 16
    → pack_hhih a b c d ≡ ok (be16 a ++ be16 b ++ be32 c ++ be16 d)
unfolding pack_hhih
pack_hhih-eq a b c d ha hb hc hd =
    rw (lt→ltb a (2 ^ 16) ha, lt→ltb b (2 ^ 16) hb, lt→ltb c (2 ^ 32) hc, lt→ltb d (2 ^ 16) hd)

pub pack_hih-eq :
    (a b c : ℕ)
    → a < 2 ^ 16
    → b < 2 ^ 32
    → c < 2 ^ 16
    → pack_hih a b c ≡ ok (be16 a ++ be32 b ++ be16 c)
unfolding pack_hih
pack_hih-eq a b c ha hb hc = rw (lt→ltb a (2 ^ 16) ha, lt→ltb b (2 ^ 32) hb, lt→ltb c (2 ^ 16) hc)

pub pack_hhh-eq :
    (a b c : ℕ)
    → a < 2 ^ 16
    → b < 2 ^ 16
    → c < 2 ^ 16
    → pack_hhh a b c ≡ ok (be16 a ++ be16 b ++ be16 c)
unfolding pack_hhh
pack_hhh-eq a b c ha hb hc = rw (lt→ltb a (2 ^ 16) ha, lt→ltb b (2 ^ 16) hb, lt→ltb c (2 ^ 16) hc)

-- What a successful `struct.pack` has written.
pub pack_h-inv : (v : ℕ) (b : Bytes) → pack_h v ≡ ok b → b ≡ be16 v
unfolding pack_h
pack_h-inv v b h = ground arith

pub pack_i-inv : (v : ℕ) (b : Bytes) → pack_i v ≡ ok b → b ≡ be32 v
unfolding pack_i
pack_i-inv v b h = ground arith

pub pack_hhih-inv :
    (a b c d : ℕ) (w : Bytes) → pack_hhih a b c d ≡ ok w → w ≡ be16 a ++ be16 b ++ be32 c ++ be16 d
unfolding pack_hhih
pack_hhih-inv a b c d w h = ground arith

pub pack_hih-inv : (a b c : ℕ) (w : Bytes) → pack_hih a b c ≡ ok w → w ≡ be16 a ++ be32 b ++ be16 c
unfolding pack_hih
pack_hih-inv a b c w h = ground arith

pub pack_hhh-inv : (a b c : ℕ) (w : Bytes) → pack_hhh a b c ≡ ok w → w ≡ be16 a ++ be16 b ++ be16 c
unfolding pack_hhh
pack_hhh-inv a b c w h = ground arith

be16_value : (v : ℕ) → v / 256 * 256 + v % 256 ≡ v
be16_value v = omega arith

be32_value : (v : ℕ) → u32 (v / 2 ^ 24) (v / 2 ^ 16 % 256) (v / 256 % 256) (v % 256) ≡ v
be32_value v = omega arith

pub unpack_h-be16 : (v : ℕ) → unpack_h (be16 v) ≡ ok v
unfolding unpack_h
unpack_h-be16 v = ap ok (be16_value v)

pub unpack_i-be32 : (v : ℕ) → unpack_i (be32 v) ≡ ok v
unfolding unpack_i
unpack_i-be32 v = ap ok (be32_value v)

pub unpack_hh-be : (a b : ℕ) → unpack_hh (be16 a ++ be16 b) ≡ ok (a, b)
unfolding unpack_hh
unpack_hh-be a b = cc (be16_value a, be16_value b)

pub unpack_hih-be : (a b c : ℕ) → unpack_hih (be16 a ++ be32 b ++ be16 c) ≡ ok (a, b, c)
unfolding unpack_hih
unpack_hih-be a b c = cc (be16_value a, be32_value b, be16_value c)

pub unpack_hhh-be : (a b c : ℕ) → unpack_hhh (be16 a ++ be16 b ++ be16 c) ≡ ok (a, b, c)
unfolding unpack_hhh
unpack_hhh-be a b c = cc (be16_value a, be16_value b, be16_value c)

pub unpack_hhih-be :
    (a b c d : ℕ) → unpack_hhih (be16 a ++ be16 b ++ be32 c ++ be16 d) ≡ ok (a, b, c, d)
unfolding unpack_hhih
unpack_hhih-be a b c d = cc (be16_value a, be16_value b, be32_value c, be16_value d)

-- A message header, field by field.
abbrev pub header_layout : ℕ → ℕ → ℕ → ℕ → ℕ → ℕ → Bytes
header_layout qid flags qd an ns ar =
    (be16 qid ++ be16 flags ++ be16 qd) ++ (be16 an ++ be16 ns ++ be16 ar)

pub unpack_header-layout :
    (qid flags qd an ns ar : ℕ)
    → unpack_header (header_layout qid flags qd an ns ar) ≡ ok (qid, flags, qd, an, ns, ar)
unfolding unpack_header
unpack_header-layout qid flags qd an ns ar =
    cc
      (be16_value qid, be16_value flags, be16_value qd, be16_value an, be16_value ns, be16_value ar)
