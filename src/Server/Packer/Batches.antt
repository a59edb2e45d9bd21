-- ===== src/Server/Packer/Batches.antt =====
-- What `_rr_batches` does with the records of a transfer.
use ab_bedd4c0e_tsig_bugfix.Prelude.{
  ℕ, ◌+◌, ◌-◌, ◌≤◌, ◌≡◌, ◌≢◌, refl, ap, ◌∙◌, true, false, ◌&&◌, List, [], ◌∷◌, ◌++◌, append_assoc,
  arith, ltb, length, Bool-cases, inl, inr, ◌⊎◌,
}
use ab_bedd4c0e_tsig_bugfix.Text.{Bytes}
use ab_bedd4c0e_tsig_bugfix.Server.Packer.{has_some, pack_from, rr_batches}

abbrev pub flatten : List (List Bytes) → List Bytes
flatten [] = []
flatten (b ∷ bs) = b ++ flatten bs

pack_from-flatten :
    (room base : ℕ) (cur : List Bytes) (cur_len : ℕ) (rrs : List Bytes)
    → flatten (pack_from room base cur cur_len rrs) ≡ cur ++ rrs
unfolding pack_from
pack_from-flatten room base cur cur_len [] = refl
pack_from-flatten room base cur cur_len (rr ∷ rrs) =
    elim (Bool-cases (has_some cur && ltb room (cur_len + length rr))) [
      | inl e ↦
          rw (e, pack_from)
            (ap (λ t. cur ++ t) (pack_from-flatten room base (rr ∷ []) (base + length rr) rrs))
      | inr e ↦
          rw (e, pack_from)
            (pack_from-flatten room base (cur ++ rr ∷ []) (cur_len + length rr) rrs
              ∙ append_assoc cur (rr ∷ []) rrs)
    ]

-- The size of a message with these answers.
abbrev message_size : ℕ → List Bytes → ℕ
message_size base [] = base
message_size base (r ∷ rs) = length r + message_size base rs

-- A batch fits the room, unless it is one record alone.
abbrev pub Fits : ℕ → ℕ → List Bytes → Type 0
Fits room base b = (message_size base b ≤ room) ⊎ (length b ≤ 1)

abbrev pub AllFit : ℕ → ℕ → List (List Bytes) → Type 0
AllFit room base [] = Unit
AllFit room base (b ∷ bs) = Fits room base b × AllFit room base bs

message_size-append_one :
    (base : ℕ) (b : List Bytes) (r : Bytes)
    → message_size base (b ++ r ∷ []) ≡ message_size base b + length r
message_size-append_one base [] r = omega arith
message_size-append_one base (x ∷ b) r = omega (arith, message_size-append_one base b r)

pack_from-AllFit :
    (room base : ℕ) (cur : List Bytes) (cur_len : ℕ) (rrs : List Bytes)
    → cur_len ≡ message_size base cur
    → Fits room base cur
    → AllFit room base (pack_from room base cur cur_len rrs)
unfolding pack_from
pack_from-AllFit room base cur cur_len [] size fits = (fits, tt)
pack_from-AllFit room base cur cur_len (rr ∷ rrs) size fits =
    elim (Bool-cases (has_some cur && ltb room (cur_len + length rr))) [
      | inl e ↦
          rw (e, pack_from)
            (
              fits,
              pack_from-AllFit room base (rr ∷ []) (base + length rr) rrs (omega arith)
                  (inr (omega arith)),
            )
      | inr e ↦
          rw (e, pack_from)
            (pack_from-AllFit room base (cur ++ rr ∷ []) (cur_len + length rr) rrs
              (omega (arith, message_size-append_one base cur rr)) (grows cur size e))
    ]
  where
    grows :
        (cur : List Bytes)
        → cur_len ≡ message_size base cur
        → (has_some cur && ltb room (cur_len + length rr)) ≡ false
        → Fits room base (cur ++ rr ∷ [])
    grows [] size e = inr (omega arith)
    grows (x ∷ b) size e = ground (arith, message_size-append_one base b rr)

abbrev pub AllFilled : List (List Bytes) → Type 0
AllFilled [] = Unit
AllFilled (b ∷ bs) = (b ≢ []) × AllFilled bs

pack_from-AllFilled :
    (room base : ℕ) (cur : List Bytes) (cur_len : ℕ) (rrs : List Bytes)
    → (cur ≢ []) ⊎ (rrs ≢ [])
    → AllFilled (pack_from room base cur cur_len rrs)
unfolding pack_from
pack_from-AllFilled room base cur cur_len [] (inl h) = (h, tt)
pack_from-AllFilled room base cur cur_len [] (inr h) = absurd (h refl)
pack_from-AllFilled room base cur cur_len (rr ∷ rrs) h =
    elim (Bool-cases (has_some cur && ltb room (cur_len + length rr))) [
      | inl e ↦
          rw (e, pack_from)
            (
              filled cur e,
              pack_from-AllFilled room base (rr ∷ []) (base + length rr) rrs (inl (λ k. cc)),
            )
      | inr e ↦
          rw (e, pack_from)
            (pack_from-AllFilled room base (cur ++ rr ∷ []) (cur_len + length rr) rrs
              (inl (append-ne-nil cur)))
    ]
  where
    filled : (b : List Bytes) → (has_some b && ltb room (cur_len + length rr)) ≡ true → b ≢ []
    filled [] e k = cc
    filled (x ∷ b) e k = cc

    append-ne-nil : (b : List Bytes) → b ++ rr ∷ [] ≢ []
    append-ne-nil [] k = cc
    append-ne-nil (x ∷ b) k = cc

-- For every list of records that is not empty, whatever the budget: the batches in their order hold
-- exactly the records in their order, no batch is empty, and each batch either makes a message within
-- the budget less the room kept for the TSIG record or is a single record.
pub rr_batches_lem :
    (question : Bytes) (rr : Bytes) (rrs : List Bytes) (budget tsig_space : ℕ)
    → let bs = rr_batches question (rr ∷ rrs) budget tsig_space in
      (flatten bs ≡ rr ∷ rrs)
      × AllFilled bs
      × AllFit (budget - tsig_space) (12 + length question) bs
unfolding rr_batches
rr_batches_lem question rr rrs budget tsig_space = (
  pack_from-flatten (budget - tsig_space) (12 + length question) [] (12 + length question)
      (rr ∷ rrs),
  pack_from-AllFilled (budget - tsig_space) (12 + length question) [] (12 + length question)
      (rr ∷ rrs) (inr (λ k. cc)),
  pack_from-AllFit (budget - tsig_space) (12 + length question) [] (12 + length question) (rr ∷ rrs)
      refl (inr (omega arith)),
)
