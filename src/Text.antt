-- ===== src/Text.antt =====
-- Python's `str` and `bytes` as lists of code points and of octets, with the methods that the
-- program calls: `lower`, `split`, `join`, `rstrip`, `endswith`, `==`.
pub mod Laws
use Prim.Native.Char.{code}
use Prim.Native.String
use ab_bedd4c0e_tsig_bugfix.Prelude.{
  ℕ, ◌+◌, ◌-◌, Bool, true, false, ◌&&◌, ◌||◌, List, [], ◌∷◌, ◌++◌, String, ltb, leb, ◌==◌,
  if◌then◌else◌, length, drop,
}

abbrev pub Text : Type 0
Text = List ℕ

abbrev pub Bytes : Type 0
Bytes = List ℕ

-- A literal's code points.
abbrev pub codes : String → Text
codes String.[] = []
codes (String.◌∷◌ c s) = code c ∷ codes s

abbrev pub dot : ℕ
dot = b'.'

-- `==` of two texts or byte strings
unfoldable pub text_eq : Text → Text → Bool
text_eq [] [] = true
text_eq (a ∷ s) (b ∷ t) = a == b && text_eq s t
text_eq _ _ = false

-- The order of SQLite's TEXT columns, by code points.
unfoldable pub text_leb : Text → Text → Bool
text_leb [] t = true
text_leb (a ∷ s) [] = false
text_leb (a ∷ s) (b ∷ t) = let rest = text_leb s t in ltb a b || a == b && rest

-- Lower case of one ASCII character; others are left alone.
unfoldable pub lower_char : ℕ → ℕ
lower_char c = if leb b'A' c && leb c b'Z' then c + 32 else c

unfoldable pub lower : Text → Text
lower [] = []
lower (c ∷ s) = lower_char c ∷ lower s

abbrev pub is_ascii : Text → Bool
is_ascii [] = true
is_ascii (c ∷ s) = ltb c 128 && is_ascii s

abbrev pub is_empty : Text → Bool
is_empty [] = true
is_empty (_ ∷ _) = false

-- `s.rstrip(".")`
abbrev strip_step : ℕ → Text → Text
strip_step c s = if c == dot && is_empty s then [] else c ∷ s

unfoldable pub rstrip_dots : Text → Text
rstrip_dots [] = []
rstrip_dots (c ∷ s) = strip_step c (rstrip_dots s)

-- `s.split(".")`
abbrev pub push : ℕ → List Text → List Text
push c [] = (c ∷ []) ∷ []
push c (l ∷ ls) = (c ∷ l) ∷ ls

abbrev split_step : ℕ → List Text → List Text
split_step c ls = if c == dot then [] ∷ ls else push c ls

unfoldable pub split_dots : Text → List Text
split_dots [] = [] ∷ []
split_dots (c ∷ s) = split_step c (split_dots s)

-- `".".join(ls)`
unfoldable pub join_dots : List Text → Text
join_dots [] = []
join_dots (l ∷ []) = l
join_dots (l ∷ m ∷ ls) = l ++ dot ∷ join_dots (m ∷ ls)

-- `s.endswith(t)`
unfoldable pub ends_with : Text → Text → Bool
unfolding text_eq
ends_with s t = leb (length t) (length s) && text_eq (drop (length s - length t) s) t

-- Upper case of one ASCII character.
unfoldable pub upper_char : ℕ → ℕ
upper_char c = if leb b'a' c && leb c b'z' then c - 32 else c

unfoldable pub upper : Text → Text
upper [] = []
upper (c ∷ s) = upper_char c ∷ upper s

unfoldable pub starts_with : Text → Text → Bool
starts_with s [] = true
starts_with [] (d ∷ t) = false
starts_with (c ∷ s) (d ∷ t) = let rest = starts_with s t in c == d && rest

-- `t in s`
unfoldable pub has_part : Text → Text → Bool
unfolding starts_with
has_part t [] = is_empty t
has_part t (c ∷ s) = let rest = has_part t s in starts_with (c ∷ s) t || rest
