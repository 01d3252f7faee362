-- ===== src/Protocol/Distinct.antt =====
-- Lists of texts of which none occurs twice, as the loops over a set of seen texts find them.
use relayward_sdk.Base.{
  ◌≡◌, ◌∙◌, refl, sym, false, List, [], ◌∷◌, Bytes, arith, beq, beq_iff, Bool-cases, inl, inr, All,
}
use relayward_sdk.Protocol.{is_one_of}

-- No text occurs twice.
abbrev pub NoRepeats : List Bytes → Type 0
NoRepeats [] = Unit
NoRepeats (x ∷ xs) = (is_one_of xs x ≡ false) × NoRepeats xs

-- None of the texts is among those seen.
abbrev pub Fresh : List Bytes → List Bytes → Type 0
Fresh seen xs = All (λ x. is_one_of seen x ≡ false) xs

beq_sym : (s t : Bytes) → beq s t ≡ beq t s
beq_sym s t = elim (Bool-cases (beq s t)) [
  | inl b ↦ b ∙ sym ((beq_iff t s).1 (sym ((beq_iff s t).0 b)))
  | inr b ↦ elim (Bool-cases (beq t s)) [
    | inl c ↦ (beq_iff s t).1 (sym ((beq_iff t s).0 c)) ∙ sym c
    | inr c ↦ cc (b, c)
  ]
]

pub Fresh-cons :
    (x : Bytes) (seen xs : List Bytes)
    → Fresh (x ∷ seen) xs
    → (is_one_of xs x ≡ false) × Fresh seen xs
unfolding is_one_of
Fresh-cons x seen [] h = (refl, tt)
Fresh-cons x seen (y ∷ ys) (h, t) =
    let (a, b) = Fresh-cons x seen ys t in (ground (arith, beq_sym x y), (ground arith, b))
