-- ===== src/Regex/Laws.antt =====
-- `match_string` decides `Matches`.
use mathlib.Core.Path.{subst}
use relayward_sdk.Base.{
  ℕ, zero, suc, ◌≡◌, refl, sym, ap, ◌∙◌, ◌↔◌, ◌⊎◌, inl, inr, Bool, true, false, [], ◌∷◌, ◌++◌,
  Bytes, arith, Bool-cases, if◌then◌else◌,
}
use relayward_sdk.Regex.{
  in_class, Regex, never, eps, class, seq, alt, star, times, up_to, Matches, m_eps, m_class, m_seq,
  m_left, m_right, m_stop, m_more, m_zero, m_times, m_none, m_up_to, nullable, join, either, deriv,
  match_string,
}

append-eq-nil : (s t : Bytes) → s ++ t ≡ [] → (s ≡ []) × (t ≡ [])
append-eq-nil [] t e = (refl, e)
append-eq-nil (c ∷ s) t e = cc

times_empty : (r : Regex) (n : ℕ) → Matches r [] → Matches (times n r) []
times_empty r zero m = m_zero
times_empty r (suc n) m = m_times m (times_empty r n m) refl

nullable_sound : (r : Regex) → nullable r ≡ true → Matches r []
unfolding nullable
nullable_sound never h = cc
nullable_sound eps h = m_eps
nullable_sound (class k) h = cc
nullable_sound (seq r q) h =
    m_seq (nullable_sound r (ground arith)) (nullable_sound q (ground arith)) refl
nullable_sound (alt r q) h = elim (Bool-cases (nullable r)) [
  | inl e ↦ m_left (nullable_sound r e)
  | inr e ↦ m_right (nullable_sound q (ground arith))
]
nullable_sound (star r) h = m_stop
nullable_sound (times zero r) h = m_zero
nullable_sound (times (suc n) r) h = times_empty r (suc n) (nullable_sound r h)
nullable_sound (up_to n r) h = m_none

nullable_complete : (r : Regex) {s : Bytes} → s ≡ [] → Matches r s → nullable r ≡ true
unfolding nullable
nullable_complete never z m = elim m [ ]
nullable_complete eps z m = refl
nullable_complete (class k) z (m_class h) = cc
nullable_complete (seq r q) z (m_seq {s} {t} a b e) =
    let (x, y) = append-eq-nil s t (e ∙ z) in rw (nullable_complete r x a) (nullable_complete q y b)
nullable_complete (alt r q) z (m_left a) = rw (nullable_complete r z a)
nullable_complete (alt r q) z (m_right a) = ground (arith, nullable_complete q z a)
nullable_complete (star r) z m = refl
nullable_complete (times zero r) z m = refl
nullable_complete (times (suc n) r) z (m_times {s} {t} a b e) =
    nullable_complete r (append-eq-nil s t (e ∙ z)).0 a
nullable_complete (up_to n r) z m = refl

join_iff : (r q : Regex) (s : Bytes) → Matches (join r q) s ↔ Matches (seq r q) s
unfolding join
join_iff never q s = (λ m. elim m [ ], λ m. never_first m)
  where
    never_first : Matches (seq never q) s → Matches never s
    never_first (m_seq a b e) = elim a [ ]
join_iff eps q s = (λ m. m_seq m_eps m refl, eps_first)
  where
    eps_first : Matches (seq eps q) s → Matches q s
    eps_first (m_seq m_eps b e) = subst (Matches q) e b
join_iff (class k) q s = (λ m. m, λ m. m)
join_iff _ q s = (λ m. m, λ m. m)

either_iff : (r q : Regex) (s : Bytes) → Matches (either r q) s ↔ Matches (alt r q) s
unfolding either
either_iff never q s = (m_right, right_only)
  where
    right_only : Matches (alt never q) s → Matches q s
    right_only (m_left a) = elim a [ ]
    right_only (m_right b) = b
either_iff r never s = (m_left, left_only)
  where
    left_only : Matches (alt r never) s → Matches r s
    left_only (m_left a) = a
    left_only (m_right b) = elim b [ ]
either_iff r q s = (λ m. m, λ m. m)

-- A derivation for the first part after `c` is one for the whole from `c` on.
module _ {c : ℕ} {r' r : Regex} (first : (s : Bytes) → Matches r' s → Matches r (c ∷ s)) where
  cons_seq : (q : Regex) (s : Bytes) → Matches (seq r' q) s → Matches (seq r q) (c ∷ s)
  cons_seq q s (m_seq {s = a} m n e) = m_seq (first a m) n (ap (λ u. c ∷ u) e)

  cons_star : (s : Bytes) → Matches (seq r' (star r)) s → Matches (star r) (c ∷ s)
  cons_star s (m_seq {s = a} m n e) = m_more (first a m) n (ap (λ u. c ∷ u) e)

  cons_times :
      (n : ℕ) (s : Bytes) → Matches (seq r' (times n r)) s → Matches (times (suc n) r) (c ∷ s)
  cons_times n s (m_seq {s = a} m k e) = m_times (first a m) k (ap (λ u. c ∷ u) e)

  cons_up_to :
      (n : ℕ) (s : Bytes) → Matches (seq r' (up_to n r)) s → Matches (up_to (suc n) r) (c ∷ s)
  cons_up_to n s (m_seq {s = a} m k e) = m_up_to (first a m) k (ap (λ u. c ∷ u) e)

eps_only : {s : Bytes} → Matches eps s → s ≡ []
eps_only m_eps = refl

never-Matches : {s : Bytes} → ¬ Matches never s
never-Matches m = elim m [ ]

either_of :
    {c : ℕ} {r' q' r q : Regex} {s : Bytes}
    → (Matches r' s → Matches r (c ∷ s))
    → (Matches q' s → Matches q (c ∷ s))
    → Matches (alt r' q') s
    → Matches (alt r q) (c ∷ s)
either_of f g (m_left m) = m_left (f m)
either_of f g (m_right m) = m_right (g m)

-- The two shapes of a derivative: the first part goes on, or is skipped where it may be empty.
step_sound :
    (b : Bool) (after skipped : Regex) (s : Bytes)
    → Matches (if b then either after skipped else after) s
    → Matches after s ⊎ ((b ≡ true) × Matches skipped s)
step_sound true after skipped s m = alternatives ((either_iff after skipped s).0 m)
  where
    alternatives :
        Matches (alt after skipped) s
        → Matches after s ⊎ (◌≡◌ {A = Bool} true true × Matches skipped s)
    alternatives (m_left a) = inl a
    alternatives (m_right b) = inr (refl, b)
step_sound false after skipped s m = inl m

deriv_sound : (c : ℕ) (r : Regex) (s : Bytes) → Matches (deriv c r) s → Matches r (c ∷ s)
unfolding deriv
deriv_sound c never s m = elim m [ ]
deriv_sound c eps s m = elim m [ ]
deriv_sound c (class k) s m = elim (Bool-cases (in_class k c)) [
  | inl e ↦ subst (λ u. Matches (class k) (c ∷ u)) (sym (eps_only (rw e at m))) (m_class e)
  | inr e ↦ absurd (never-Matches (rw e at m))
]
deriv_sound c (seq r q) s m = elim (step_sound (nullable r) _ _ s m) [
  | inl a ↦ cons_seq (deriv_sound c r) q s ((join_iff _ _ s).0 a)
  | inr (e, b) ↦ m_seq (nullable_sound r e) (deriv_sound c q s b) refl
]
deriv_sound c (alt r q) s m =
    either_of (deriv_sound c r s) (deriv_sound c q s) ((either_iff _ _ s).0 m)
deriv_sound c (star r) s m = cons_star (deriv_sound c r) s ((join_iff _ _ s).0 m)
deriv_sound c (times zero r) s m = elim m [ ]
deriv_sound c (times (suc n) r) s m = elim (step_sound (nullable r) _ _ s m) [
  | inl a ↦ cons_times (deriv_sound c r) n s ((join_iff _ _ s).0 a)
  | inr (e, b) ↦ m_times (nullable_sound r e) (deriv_sound c (times n r) s b) refl
]
deriv_sound c (up_to zero r) s m = elim m [ ]
deriv_sound c (up_to (suc n) r) s m = elim (step_sound (nullable r) _ _ s m) [
  | inl a ↦ cons_up_to (deriv_sound c r) n s ((join_iff _ _ s).0 a)
  | inr (e, b) ↦ m_up_to (nullable_sound r e) (deriv_sound c (up_to n r) s b) refl
]

step_complete :
    (b : Bool) (after skipped : Regex) (s : Bytes)
    → Matches after s ⊎ ((b ≡ true) × Matches skipped s)
    → Matches (if b then either after skipped else after) s
step_complete true after skipped s (inl m) = (either_iff _ _ s).1 (m_left m)
step_complete true after skipped s (inr (_, m)) = (either_iff _ _ s).1 (m_right m)
step_complete false after skipped s (inl m) = m
step_complete false after skipped s (inr (e, m)) = cc

-- Where a text that begins with `c` is cut in two, the first part is empty or begins with `c`.
append-eq-cons :
    (a b : Bytes) (c : ℕ) (s : Bytes)
    → a ++ b ≡ c ∷ s
    → ((a ≡ []) × (b ≡ c ∷ s)) ⊎ ((a' : Bytes) × (a ≡ c ∷ a') × (a' ++ b ≡ s))
append-eq-cons [] b c s e = inl (refl, e)
append-eq-cons (x ∷ a) b c s e = inr (a, cc, cc)

deriv_complete :
    {r : Regex} {u : Bytes} (c : ℕ) (s : Bytes) → Matches r u → u ≡ c ∷ s → Matches (deriv c r) s
unfolding deriv
deriv_complete c s m_eps z = cc
deriv_complete c s (m_class {k} {c = d} h) z =
    let inside : in_class k c ≡ true = cc in
    let rest : [] ≡ s = cc in rw inside (subst (Matches eps) rest m_eps)
deriv_complete c s (m_seq {r} {s = a} {t = b} m n e) z =
    step_complete (nullable r) _ _ s (elim (append-eq-cons a b c s (e ∙ z)) [
      | inl (x, y) ↦ inr (nullable_complete r x m, deriv_complete c s n y)
      | inr (a', x, y) ↦ inl ((join_iff _ _ s).1 (m_seq (deriv_complete c a' m x) n y))
    ])
deriv_complete c s (m_left m) z = (either_iff _ _ s).1 (m_left (deriv_complete c s m z))
deriv_complete c s (m_right m) z = (either_iff _ _ s).1 (m_right (deriv_complete c s m z))
deriv_complete c s m_stop z = cc
deriv_complete c s (m_more {s = a} {t = b} m n e) z = elim (append-eq-cons a b c s (e ∙ z)) [
  | inl (x, y) ↦ deriv_complete c s n y
  | inr (a', x, y) ↦ (join_iff _ _ s).1 (m_seq (deriv_complete c a' m x) n y)
]
deriv_complete c s m_zero z = cc
deriv_complete c s (m_times {r} {s = a} {t = b} m n e) z =
    step_complete (nullable r) _ _ s (elim (append-eq-cons a b c s (e ∙ z)) [
      | inl (x, y) ↦ inr (nullable_complete r x m, deriv_complete c s n y)
      | inr (a', x, y) ↦ inl ((join_iff _ _ s).1 (m_seq (deriv_complete c a' m x) n y))
    ])
deriv_complete c s m_none z = cc
deriv_complete c s (m_up_to {r} {s = a} {t = b} m n e) z =
    step_complete (nullable r) _ _ s (elim (append-eq-cons a b c s (e ∙ z)) [
      | inl (x, y) ↦ inr (nullable_complete r x m, deriv_complete c s n y)
      | inr (a', x, y) ↦ inl ((join_iff _ _ s).1 (m_seq (deriv_complete c a' m x) n y))
    ])

-- `match_string` answers true exactly on the texts that match.
pub match_string_iff : (r : Regex) (s : Bytes) → (match_string r s ≡ true) ↔ Matches r s
unfolding match_string
match_string_iff r [] = (nullable_sound r, nullable_complete r refl)
match_string_iff r (c ∷ s) =
    let (sound, complete) = match_string_iff (deriv c r) s in
    (λ h. deriv_sound c r s (sound h), λ m. complete (deriv_complete c s m refl))
