-- ===== src/Server/Answer/Zones.antt =====
-- `find_zone_by_name` finds the longest zone that encloses the name.
use ab_bedd4c0e_tsig_bugfix.Prelude.{
  ℕ, ◌≤◌, ◌≡◌, refl, ap, Bool, true, false, ◌&&◌, Option, none, some, List, [], ◌∷◌, arith, length,
  Bool-cases, inl, inr, ◌⊎◌,
}
use ab_bedd4c0e_tsig_bugfix.Text.{Text, lower}
use ab_bedd4c0e_tsig_bugfix.Storage.Tables.{Database, ZoneRow}
use ab_bedd4c0e_tsig_bugfix.Storage.Tables.Laws.{IsIn, here, there}
use ab_bedd4c0e_tsig_bugfix.Server.Answer.{encloses, longer, best_zone, find_zone_by_name}

&&-left : (a b : Bool) → (a && b) ≡ true → a ≡ true
&&-left a b e = ground arith

&&-right : (a b : Bool) → (a && b) ≡ true → b ≡ true
&&-right a b e = ground arith

-- What the answer to a search is: a zone that encloses the name, with no longer one, or nothing
-- where no zone encloses it.
abbrev pub IsLongest : Text → List ZoneRow → Option ZoneRow → Type 0
IsLongest name zs none = (z : ZoneRow) → IsIn z zs → encloses name z.name ≡ false
IsLongest name zs (some best) =
    IsIn best zs
    × (encloses name best.name ≡ true)
    × ((z : ZoneRow) → IsIn z zs → encloses name z.name ≡ true → length z.name ≤ length best.name)

-- The same of the loop from a given `best`.
abbrev IsBest : Text → Option ZoneRow → List ZoneRow → Option ZoneRow → Type 0
IsBest name best zs none =
    (best ≡ none) × ((z : ZoneRow) → IsIn z zs → encloses name z.name ≡ false)
IsBest name best zs (some r) =
    ((best ≡ some r) ⊎ (IsIn r zs × (encloses name r.name ≡ true)))
    × ((b : ZoneRow) → best ≡ some b → length b.name ≤ length r.name)
    × ((z : ZoneRow) → IsIn z zs → encloses name z.name ≡ true → length z.name ≤ length r.name)

from_head :
    (name : Text) (z r : ZoneRow) (zs : List ZoneRow)
    → encloses name z.name ≡ true
    → (some z ≡ some r) ⊎ (IsIn r zs × (encloses name r.name ≡ true))
    → IsIn r (z ∷ zs) × (encloses name r.name ≡ true)
from_head name z r zs e (inl i) = let k : r ≡ z = cc in (here k, rw k e)
from_head name z r zs e (inr (m, k)) = (there m, k)

above :
    (z : ZoneRow) (best : Option ZoneRow) (b : ZoneRow)
    → longer z best ≡ true
    → best ≡ some b
    → length b.name ≤ length z.name
above z none b l i = cc
above z (some c) b l i = let k : c ≡ b = cc in ground (arith, ap (λ (w : ZoneRow). length w.name) k)

not_above :
    (name : Text) (z : ZoneRow) (best : Option ZoneRow) (n : ℕ)
    → (encloses name z.name && longer z best) ≡ false
    → ((b : ZoneRow) → best ≡ some b → length b.name ≤ n)
    → encloses name z.name ≡ true
    → length z.name ≤ n
not_above name z none n e up i = cc (rw i at e)
not_above name z (some b) n e up i = let u = up b refl in let e' = rw i at e in ground (arith, u)

taken-IsBest :
    (name : Text) (best : Option ZoneRow) (z : ZoneRow) (zs : List ZoneRow) (o : Option ZoneRow)
    → encloses name z.name ≡ true
    → longer z best ≡ true
    → IsBest name (some z) zs o
    → IsBest name best (z ∷ zs) o
taken-IsBest name best z zs none e l (k, _) = cc
taken-IsBest name best z zs (some r) e l (from, up, all) = (
  inr (from_head name z r zs e from),
  λ b i. (let a = above z best b l i in let u = up z refl in omega (arith, a, u)),
  λ z' m k. elim m [ here i ↦ rw i (up z refl) | there n ↦ all z' n k ],
)

passed-IsBest :
    (name : Text) (best : Option ZoneRow) (z : ZoneRow) (zs : List ZoneRow) (o : Option ZoneRow)
    → (encloses name z.name && longer z best) ≡ false
    → IsBest name best zs o
    → IsBest name best (z ∷ zs) o
passed-IsBest name best z zs none e (k, all) = (
  k,
  λ z' m. elim m [
    | here i ↦ rw i (not_enclosed (encloses name z.name) (rw k at e))
    | there n ↦ all z' n
  ],
)
  where
    not_enclosed : (b : Bool) → (b && true) ≡ false → b ≡ false
    not_enclosed b e = ground arith
passed-IsBest name best z zs (some r) e (from, up, all) = (
  elim from [ inl i ↦ inl i | inr (m, k) ↦ inr (there m, k) ],
  up,
  λ z' m k. elim m [
    | here i ↦ rw i (not_above name z best (length r.name) e up (rw i at k))
    | there n ↦ all z' n k
  ],
)

best_zone-IsBest :
    (name : Text) (best : Option ZoneRow) (zs : List ZoneRow)
    → IsBest name best zs (best_zone name best zs)
unfolding best_zone
best_zone-IsBest name none [] = (refl, λ z m. elim m [ ])
best_zone-IsBest name (some b) [] =
    (inl refl, λ c i. (let k : b ≡ c = cc in rw k (omega arith)), λ z m. elim m [ ])
best_zone-IsBest name best (z ∷ zs) = elim (Bool-cases (encloses name z.name && longer z best)) [
  | inl e ↦
      rw (e, best_zone)
        (taken-IsBest name best z zs (best_zone name (some z) zs) (&&-left _ _ e) (&&-right _ _ e)
          (best_zone-IsBest name (some z) zs))
  | inr e ↦
      rw (e, best_zone)
        (passed-IsBest name best z zs (best_zone name best zs) e (best_zone-IsBest name best zs))
]

from_none :
    (name : Text) (zs : List ZoneRow) (o : Option ZoneRow)
    → IsBest name none zs o
    → IsLongest name zs o
from_none name zs none (k, all) = all
from_none name zs (some r) (inl i, up, all) = cc
from_none name zs (some r) (inr (m, k), up, all) = (m, k, all)

-- The zone found for a name encloses it, at a label boundary, and no longer zone does; where none is
-- found, no zone encloses the name.
pub find_zone_by_name-IsLongest :
    (db : Database) (name : Text) → IsLongest (lower name) db.zones (find_zone_by_name db name)
unfolding find_zone_by_name
find_zone_by_name-IsLongest db name =
    from_none (lower name) db.zones (best_zone (lower name) none db.zones)
      (best_zone-IsBest (lower name) none db.zones)
