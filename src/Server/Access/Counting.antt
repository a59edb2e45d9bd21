-- ===== src/Server/Access/Counting.antt =====
-- The count of the versions in a range, as `_decide_ixfr` of app/dns_server.py takes it: in a zone
-- that has each version in one row at most it is full exactly when no version is missing.
use ab_bedd4c0e_tsig_bugfix.Prelude.{
  ℕ, zero, suc, ◌+◌, ◌≤◌, ◌<◌, ◌≡◌, refl, sym, arith, Bool, true, ◌&&◌, List, [], ◌∷◌, ◌==◌,
  if◌then◌else◌, ltb, leb, length, Bool-cases, inl, inr, ==_iff,
}
use ab_bedd4c0e_tsig_bugfix.Text.{Text, text_eq}
use ab_bedd4c0e_tsig_bugfix.Storage.Tables.{Database, VersionRow, select}
use ab_bedd4c0e_tsig_bugfix.Storage.Tables.Laws.{IsIn, here, there, select-IsIn}
use ab_bedd4c0e_tsig_bugfix.Server.Access.{in_range}

abbrev pub is_version : Text → ℕ → VersionRow → Bool
is_version zone v r = text_eq r.zone zone && r.version_id == v

-- The key of the table of versions: a zone has each version in one row at most.
abbrev pub HasUniqueVersions : Database → Text → Type 0
HasUniqueVersions db zone = (v : ℕ) → length (select (is_version zone v) db.versions) ≤ 1

-- The row of a version of the zone.
pub record HasVersion (db : Database) (zone : Text) (v : ℕ) : Type 0 where
  pub row : VersionRow
  pub in_table : IsIn row db.versions
  pub is_row : is_version zone v row ≡ true

abbrev hits : (VersionRow → Bool) → VersionRow → ℕ
hits p r = if p r then 1 else 0

length-select :
    (p : VersionRow → Bool) (r : VersionRow) (rs : List VersionRow)
    → length (select p (r ∷ rs)) ≡ hits p r + length (select p rs)
unfolding select
length-select p r rs = elim (Bool-cases (p r)) [
  | inl e ↦ rw e (omega arith)
  | inr e ↦ rw e (omega arith)
]

hits-split :
    (same : Bool) (id low n : ℕ)
    → (if same && ltb low id && leb id (low + suc n) then 1 else 0)
      ≡ (if same && ltb low id && leb id (low + n) then 1 else 0)
        + (if same && id == low + suc n then 1 else 0)
hits-split same id low n = ground arith

-- The versions up to one more are the versions before and that one.
select-split :
    (zone : Text) (low n : ℕ) (rs : List VersionRow)
    → length (select (in_range zone low (low + suc n)) rs)
      ≡ length (select (in_range zone low (low + n)) rs)
        + length (select (is_version zone (low + suc n)) rs)
unfolding select
select-split zone low n [] = refl
select-split zone low n (r ∷ rs) =
    let a = length-select (in_range zone low (low + suc n)) r rs in
    let b = length-select (in_range zone low (low + n)) r rs in
    let c = length-select (is_version zone (low + suc n)) r rs in
    let h = hits-split (text_eq r.zone zone) r.version_id low n in
    let rest = select-split zone low n rs in omega (arith, a, b, c, h, rest)

in_range-empty :
    (zone : Text) (low : ℕ) (rs : List VersionRow)
    → length (select (in_range zone low (low + 0)) rs) ≡ 0
unfolding select
in_range-empty zone low [] = refl
in_range-empty zone low (r ∷ rs) =
    let a = length-select (in_range zone low (low + 0)) r rs in
    let h = no_hit (text_eq r.zone zone) r.version_id in
    let rest = in_range-empty zone low rs in omega (arith, a, h, rest)
  where
    no_hit :
        (same : Bool) (id : ℕ)
        → ◌≡◌ {A = ℕ} (if same && ltb low id && leb id (low + 0) then 1 else 0) 0
    no_hit same id = ground arith

-- No more versions than numbers.
in_range_bound :
    (db : Database) (zone : Text) (low n : ℕ)
    → HasUniqueVersions db zone
    → length (select (in_range zone low (low + n)) db.versions) ≤ n
in_range_bound db zone low zero u = let e = in_range-empty zone low db.versions in omega (arith, e)
in_range_bound db zone low (suc n) u =
    let e = select-split zone low n db.versions in
    let one = u (low + suc n) in
    let rest = in_range_bound db zone low n u in omega (arith, e, one, rest)

-- Where there are as many, none is missing.
pub in_range_full :
    (db : Database) (zone : Text) (low n v : ℕ)
    → HasUniqueVersions db zone
    → length (select (in_range zone low (low + n)) db.versions) ≡ n
    → low < v
    → v ≤ low + n
    → 0 < length (select (is_version zone v) db.versions)
in_range_full db zone low zero v u full l h = omega arith
in_range_full db zone low (suc n) v u full l h =
    let e = select-split zone low n db.versions in
    let one = u (low + suc n) in
    let bound = in_range_bound db zone low n u in
    elim (Bool-cases (v == low + suc n)) [
      | inl k ↦
          let top : v ≡ low + suc n = (==_iff v (low + suc n)).0 k in
          rw top (omega (arith, e, one, bound, full))
      | inr k ↦
          in_range_full db zone low n v u (omega (arith, e, one, bound, full)) l
            (ground (arith, k, h))
    ]

first_row :
    (p : VersionRow → Bool) (rs : List VersionRow)
    → 0 < length (select p rs)
    → (r : VersionRow) × IsIn r (select p rs)
first_row p rs h = go (select p rs) h
  where
    go : (ss : List VersionRow) → 0 < length ss → (r : VersionRow) × IsIn r ss
    go [] k = absurd (omega (arith, k))
    go (s ∷ ss) k = (s, here refl)

pub has_version :
    (db : Database) (zone : Text) (v : ℕ)
    → 0 < length (select (is_version zone v) db.versions)
    → HasVersion db zone v
has_version db zone v h =
    let (r, m) = first_row (is_version zone v) db.versions h in
    let (i, e) = select-IsIn (is_version zone v) r db.versions m in
    record { row = r; in_table = i; is_row = e }

row-counted :
    (p : VersionRow → Bool) (r : VersionRow) (rs : List VersionRow)
    → IsIn r rs
    → p r ≡ true
    → 0 < length (select p rs)
row-counted p r [] m e = elim m [ ]
row-counted p r (s ∷ rs) (here i) e =
    let a = length-select p s rs in
    let b : p s ≡ true = rw (sym i) e in let c : hits p s ≡ 1 = rw b refl in omega (arith, a, c)
row-counted p r (s ∷ rs) (there m) e =
    let a = length-select p s rs in let rest = row-counted p r rs m e in omega (arith, a, rest)

-- Where none is missing, there are as many.
pub in_range_complete :
    (db : Database) (zone : Text) (low n : ℕ)
    → HasUniqueVersions db zone
    → ((v : ℕ) → low < v → v ≤ low + n → HasVersion db zone v)
    → length (select (in_range zone low (low + n)) db.versions) ≡ n
in_range_complete db zone low zero u all = in_range-empty zone low db.versions
in_range_complete db zone low (suc n) u all =
    let e = select-split zone low n db.versions in
    let one = u (low + suc n) in
    let top = all (low + suc n) (omega arith) (omega arith) in
    let some_row =
      row-counted (is_version zone (low + suc n)) top.row db.versions top.in_table top.is_row in
    let rest = in_range_complete db zone low n u (λ v l h. all v l (omega (arith, h))) in
    omega (arith, e, one, some_row, rest)
