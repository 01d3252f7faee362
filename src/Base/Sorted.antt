-- ===== src/Base/Sorted.antt =====
-- Strictly increasing lists of texts.
use relayward_sdk.Base.Text.{Bytes, lt_bytes, le_bytes, le_bytes_iff, lt_bytes_trans}
use relayward_sdk.Base.Lists.{All}
use mathlib.Core.Path.{◌≡◌}
use mathlib.Core.Bool.{true, false}
use mathlib.Core.List.{List, [], ◌∷◌}

-- Every text is below all that follow it.
abbrev pub Increasing : List Bytes → Type 0
Increasing [] = Unit
Increasing (x ∷ xs) = All (λ y. lt_bytes x y ≡ true) xs × Increasing xs

pub All-below :
    (p x : Bytes) (xs : List Bytes)
    → lt_bytes p x ≡ true
    → All (λ y. lt_bytes x y ≡ true) xs
    → All (λ y. lt_bytes p y ≡ true) xs
All-below p x [] h a = tt
All-below p x (y ∷ ys) h a = (lt_bytes_trans p x y h a.0, All-below p x ys h a.1)

-- Every text is above the one before it, the first above `p`; this is how the loops compare them.
abbrev pub Follows : Bytes → List Bytes → Type 0
Follows p [] = Unit
Follows p (x ∷ xs) = (le_bytes x p ≡ false) × Follows x xs

pub Follows-Increasing :
    (p : Bytes) (xs : List Bytes) → Follows p xs → All (λ y. lt_bytes p y ≡ true) xs × Increasing xs
Follows-Increasing p [] h = (tt, tt)
Follows-Increasing p (x ∷ xs) (h, f) =
    let (a, i) = Follows-Increasing x xs f in
    let lt = (le_bytes_iff p x).0 h in ((lt, All-below p x xs lt a), (a, i))

pub Increasing-Follows :
    (p : Bytes) (xs : List Bytes) → All (λ y. lt_bytes p y ≡ true) xs → Increasing xs → Follows p xs
Increasing-Follows p [] a i = tt
Increasing-Follows p (x ∷ xs) (lt, _) (a, i) =
    ((le_bytes_iff p x).1 lt, Increasing-Follows x xs a i)
