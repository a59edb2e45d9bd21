-- ===== src/Storage/Tables/Laws.antt =====
-- What SELECT sees after an INSERT, a DELETE and an UPDATE.
use ab_bedd4c0e_tsig_bugfix.Prelude.{
  ◌≡◌, none, some, refl, sym, ap, ◌∙◌, Bool, true, false, not, List, [], ◌∷◌, ◌++◌, Bool-cases, inl,
  inr,
}
use ab_bedd4c0e_tsig_bugfix.Storage.Tables.{select, delete, update, fetchone, found}

pub select-append {ℓ} :
    {A : Type ℓ} (p : A → Bool) (rs ss : List A) → select p (rs ++ ss) ≡ select p rs ++ select p ss
unfolding select
select-append p [] ss = refl
select-append p (r ∷ rs) ss = elim (Bool-cases (p r)) [
  | inl e ↦ rw e (ap (λ t. r ∷ t) (select-append p rs ss))
  | inr e ↦ rw e (select-append p rs ss)
]

-- Rows that are looked for are not deleted.
pub select-delete {ℓ} :
    {A : Type ℓ} (p q : A → Bool) (rs : List A)
    → ((r : A) → p r ≡ true → q r ≡ false)
    → select p (delete q rs) ≡ select p rs
unfolding select delete
select-delete p q [] h = refl
select-delete p q (r ∷ rs) h = elim (Bool-cases (q r)) [
  | inl e ↦ elim (Bool-cases (p r)) [
    | inl k ↦ cc (h r k, e)
    | inr k ↦ rw (e, k) (select-delete p q rs h)
  ]
  | inr e ↦ elim (Bool-cases (p r)) [
    | inl k ↦ rw (e, k) (ap (λ t. r ∷ t) (select-delete p q rs h))
    | inr k ↦ rw (e, k) (select-delete p q rs h)
  ]
]

-- An update of other rows, that makes none of them one that is looked for, is not seen.
pub select-update {ℓ} :
    {A : Type ℓ} (p q : A → Bool) (f : A → A) (rs : List A)
    → ((r : A) → q r ≡ true → (p r ≡ false) × (p (f r) ≡ false))
    → select p (update q f rs) ≡ select p rs
unfolding select update
select-update p q f [] h = refl
select-update p q f (r ∷ rs) h = elim (Bool-cases (q r)) [
  | inl e ↦ let (before, after) = h r e in rw (e, after, before) (select-update p q f rs h)
  | inr e ↦ elim (Bool-cases (p r)) [
    | inl k ↦ rw (e, k) (ap (λ t. r ∷ t) (select-update p q f rs h))
    | inr k ↦ rw (e, k) (select-update p q f rs h)
  ]
]

-- Updated rows that are no longer looked for, where all that are looked for are updated.
pub select-update_all {ℓ} :
    {A : Type ℓ} (p q : A → Bool) (f : A → A) (rs : List A)
    → ((r : A) → q r ≡ false → p r ≡ false)
    → ((r : A) → q r ≡ true → p (f r) ≡ false)
    → select p (update q f rs) ≡ []
unfolding select update
select-update_all p q f [] h k = refl
select-update_all p q f (r ∷ rs) h k = elim (Bool-cases (q r)) [
  | inl e ↦ rw (e, k r e) (select-update_all p q f rs h k)
  | inr e ↦ rw (e, h r e) (select-update_all p q f rs h k)
]

-- A row of a table.
pub data IsIn {A : Type 0} (a : A) : List A → Type 0 where
  here : {r : A} {rs : List A} → a ≡ r → IsIn a (r ∷ rs)
  there : {r : A} {rs : List A} → IsIn a rs → IsIn a (r ∷ rs)

-- A selected row is a row of the table and passes the test.
pub select-IsIn :
    {A : Type 0} (p : A → Bool) (a : A) (rs : List A)
    → IsIn a (select p rs)
    → IsIn a rs × (p a ≡ true)
unfolding select
select-IsIn p a [] m = elim m [ ]
select-IsIn p a (r ∷ rs) m = elim (Bool-cases (p r)) [
  | inl e ↦ head_or p a r rs e (select-IsIn p a rs) (rw e at m)
  | inr e ↦ let (n, k) = select-IsIn p a rs (rw e at m) in (there n, k)
]
  where
    head_or :
        {A : Type 0} (p : A → Bool) (a r : A) (rs : List A)
        → p r ≡ true
        → (IsIn a (select p rs) → IsIn a rs × (p a ≡ true))
        → IsIn a (r ∷ select p rs)
        → IsIn a (r ∷ rs) × (p a ≡ true)
    head_or p a r rs e rest (here i) = (here i, ap p i ∙ e)
    head_or p a r rs e rest (there m) = let (n, k) = rest m in (there n, k)

-- A row of the table that passes the test is selected.
pub IsIn-select :
    {A : Type 0} (p : A → Bool) (a : A) (rs : List A)
    → IsIn a rs
    → p a ≡ true
    → IsIn a (select p rs)
unfolding select
IsIn-select p a [] m e = elim m [ ]
IsIn-select p a (r ∷ rs) (here i) e = rw (sym (ap p i) ∙ e) (here i)
IsIn-select p a (r ∷ rs) (there m) e = elim (Bool-cases (p r)) [
  | inl k ↦ rw k (there (IsIn-select p a rs m e))
  | inr k ↦ rw k (IsIn-select p a rs m e)
]

-- A DELETE is the SELECT of the other rows.
pub delete-select :
    {A : Type 0} (p : A → Bool) (rs : List A) → delete p rs ≡ select (λ r. not (p r)) rs
unfolding delete select
delete-select p [] = refl
delete-select p (r ∷ rs) = elim (Bool-cases (p r)) [
  | inl e ↦ rw e (delete-select p rs)
  | inr e ↦ rw e (ap (λ t. r ∷ t) (delete-select p rs))
]

pub fetchone-IsIn : {A : Type 0} (a : A) (rs : List A) → fetchone rs ≡ some a → IsIn a rs
fetchone-IsIn a [] h = cc
fetchone-IsIn a (r ∷ rs) h = let e : a ≡ r = cc in here e

-- The row found by a test passes it.
pub fetchone-select :
    {A : Type 0} (p : A → Bool) (a : A) (rs : List A) → fetchone (select p rs) ≡ some a → p a ≡ true
fetchone-select p a rs h = (select-IsIn p a rs (fetchone-IsIn a (select p rs) h)).1

-- The row found after an update of the rows that are looked for.
pub fetchone-update :
    {A : Type 0} (p q : A → Bool) (f : A → A) (a : A) (rs : List A)
    → ((r : A) → p (f r) ≡ p r)
    → q a ≡ true
    → fetchone (select p rs) ≡ some a
    → fetchone (select p (update q f rs)) ≡ some (f a)
unfolding select update
fetchone-update p q f a [] k e h = cc
fetchone-update p q f a (r ∷ rs) k e h = elim (Bool-cases (p r)) [
  | inl i ↦ let same : r ≡ a = cc (rw i at h) in rw (same, e, k a) (rw (sym (ap p same) ∙ i) refl)
  | inr i ↦ elim (Bool-cases (q r)) [
    | inl j ↦ rw (j, k r, i) (fetchone-update p q f a rs k e (rw i at h))
    | inr j ↦ rw (j, i) (fetchone-update p q f a rs k e (rw i at h))
  ]
]

-- A row that is added is found where none was before.
pub fetchone-append :
    {A : Type 0} (p : A → Bool) (a : A) (rs : List A)
    → fetchone (select p rs) ≡ none
    → p a ≡ true
    → fetchone (select p (rs ++ a ∷ [])) ≡ some a
unfolding select
fetchone-append p a [] h e = rw e refl
fetchone-append p a (r ∷ rs) h e = elim (Bool-cases (p r)) [
  | inl i ↦ cc (rw i at h)
  | inr i ↦ rw i (fetchone-append p a rs (rw i at h) e)
]

-- No row is selected where none is fetched.
pub found-none {ℓ} :
    {A : Type ℓ} (p : A → Bool) (rs : List A)
    → fetchone (select p rs) ≡ none
    → found (select p rs) ≡ false
unfolding select
found-none p [] h = refl
found-none p (r ∷ rs) h = elim (Bool-cases (p r)) [
  | inl e ↦ cc (rw e at h)
  | inr e ↦ rw e (found-none p rs (rw e at h))
]
