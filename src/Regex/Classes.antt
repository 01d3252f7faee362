-- ===== src/Regex/Classes.antt =====
-- Repetitions of a class of bytes, read as a length and a test of every byte.
use mathlib.Core.Path.{subst}
use relayward_sdk.Base.{
  ℕ, zero, suc, ◌≤◌, ◌≡◌, refl, sym, ap, ◌∙◌, ◌↔◌, true, List, [], ◌∷◌, ◌++◌, Bytes, arith, length,
  All,
}
use relayward_sdk.Regex.{
  Class, in_class, class, seq, star, times, up_to, Matches, m_class, m_seq, m_stop, m_more, m_zero,
  m_times, m_none, m_up_to, match_string,
}
use relayward_sdk.Regex.Laws.{match_string_iff}

-- Every byte is in the class.
abbrev pub AllIn : Class → Bytes → Type 0
AllIn k s = All (λ c. in_class k c ≡ true) s

pub All-append {ℓ κ} :
    {A : Type ℓ} (P : A → Type κ) (xs ys : List A) → All P xs → All P ys → All P (xs ++ ys)
All-append P [] ys h k = k
All-append P (x ∷ xs) ys h k = (h.0, All-append P xs ys h.1 k)

pub All-append_inv {ℓ κ} :
    {A : Type ℓ} (P : A → Type κ) (xs ys : List A) → All P (xs ++ ys) → All P xs × All P ys
All-append_inv P [] ys h = (tt, h)
All-append_inv P (x ∷ xs) ys h = let (a, b) = All-append_inv P xs ys h.1 in ((h.0, a), b)

-- One byte of the class, and what follows it.
class_inv :
    {k : Class} {s : Bytes} → Matches (class k) s → (c : ℕ) × (s ≡ c ∷ []) × (in_class k c ≡ true)
class_inv (m_class {c} h) = (c, refl, h)

uncons :
    {k : Class} {s t u : Bytes}
    → Matches (class k) s
    → s ++ t ≡ u
    → (c : ℕ) × (u ≡ c ∷ t) × (in_class k c ≡ true)
uncons {t} m e = let (c, p, h) = class_inv m in (c, sym e ∙ ap (λ a. a ++ t) p, h)

module _ (k : Class) where
  pub star_class : {s : Bytes} → Matches (star (class k)) s → AllIn k s
  star_class m_stop = tt
  star_class (m_more m n e) =
      let (c, p, h) = uncons m e in subst (AllIn k) (sym p) (h, star_class n)

  pub of_star_class : (s : Bytes) → AllIn k s → Matches (star (class k)) s
  of_star_class [] h = m_stop
  of_star_class (c ∷ s) h = m_more (m_class h.0) (of_star_class s h.1) refl

  pub times_class : {n : ℕ} {s : Bytes} → Matches (times n (class k)) s → (length s ≡ n) × AllIn k s
  times_class m_zero = (refl, tt)
  times_class (m_times {n} m t e) =
      let (c, p, h) = uncons m e in
      let (l, a) = times_class t in
      subst (λ u. (length u ≡ suc n) × AllIn k u) (sym p) (ap suc l, (h, a))

  pub of_times_class : (s : Bytes) → AllIn k s → Matches (times (length s) (class k)) s
  of_times_class [] h = m_zero
  of_times_class (c ∷ s) h = m_times (m_class h.0) (of_times_class s h.1) refl

  pub up_to_class : {n : ℕ} {s : Bytes} → Matches (up_to n (class k)) s → (length s ≤ n) × AllIn k s
  up_to_class m_none = (omega arith, tt)
  up_to_class (m_up_to {n} m t e) =
      let (c, p, h) = uncons m e in
      let (l, a) = up_to_class t in
      subst (λ u. (length u ≤ suc n) × AllIn k u) (sym p) (omega arith, (h, a))

  pub of_up_to_class :
      (n : ℕ) (s : Bytes) → length s ≤ n → AllIn k s → Matches (up_to n (class k)) s
  of_up_to_class n [] l h = m_none
  of_up_to_class zero (c ∷ s) l h = absurd (omega arith)
  of_up_to_class (suc n) (c ∷ s) l h =
      m_up_to (m_class h.0) (of_up_to_class n s (omega arith) h.1) refl

  -- A text of `n` bytes of the class, as the program's `^[…]{n}$` tests it.
  pub match_times_iff :
      (n : ℕ) (s : Bytes)
      → (match_string (times n (class k)) s ≡ true) ↔ ((length s ≡ n) × AllIn k s)
  match_times_iff n s =
      let (sound, complete) = match_string_iff (times n (class k)) s in
      (
        λ h. times_class (sound h),
        λ (l, a). complete (subst (λ m. Matches (times m (class k)) s) l (of_times_class s a)),
      )

-- One byte of a class and at most `n` of another.
pub match_head_iff :
    (k j : Class) (n : ℕ) (c : ℕ) (s : Bytes)
    → (match_string (seq (class k) (up_to n (class j))) (c ∷ s) ≡ true)
      ↔ ((in_class k c ≡ true) × (length s ≤ n) × AllIn j s)
match_head_iff k j n c s =
    let (sound, complete) = match_string_iff (seq (class k) (up_to n (class j))) (c ∷ s) in
    (
      λ h. head_of (sound h),
      λ (h, l, a). complete (m_seq (m_class h) (of_up_to_class j n s l a) refl),
    )
  where
    head_of :
        Matches (seq (class k) (up_to n (class j))) (c ∷ s)
        → (in_class k c ≡ true) × (length s ≤ n) × AllIn j s
    head_of (m_seq {t = rest} m t e) =
        let (d, p, h) = uncons m e in
        let same : c ≡ d = cc in
        let tail : rest ≡ s = cc in
        let (l, a) = subst (λ u. (length u ≤ n) × AllIn j u) tail (up_to_class j t) in
        (rw same h, l, a)
