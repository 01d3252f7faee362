-- ===== src/NodePlugin/Info/Search.antt =====
-- The binary search of `HasCapability` against a search from the front.
use mathlib.Core.Path.{subst}
use relayward_sdk.Base.{
  ℕ, zero, suc, Increasing, All, All-below, ◌+◌, ◌/◌, ◌≤◌, ◌<◌, ◌≡◌, ◌≢◌, refl, sym, ◌∙◌, ◌⊎◌, inl,
  inr, Bool, true, false, ◌&&◌, ◌||◌, List, [], ◌∷◌, none, some, Bytes, arith, beq, beq_iff,
  Bool-cases, length, get_elem?, pass, lt_bytes, le_bytes, lt_bytes_irrefl, lt_bytes_trans,
  le_bytes_iff, ltb,
}
use relayward_sdk.NodePlugin.Info.{
  search_between, at_least, is_value, search_strings, has_capability, check_capabilities,
  check_info, validate_info_response, GetInfoResponse,
}

le_or_lt : (m n : ℕ) → (m ≤ n) ⊎ (n < m)
le_or_lt m n = omega arith

-- A test that once it holds goes on to hold.
abbrev pub Ascending : (ℕ → Bool) → Type 0
Ascending test = (m n : ℕ) → m ≤ n → test m ≡ true → test n ≡ true

-- `k` is the least place from `i` to `j` where the test holds, or `j`.
pub record IsLeast (test : ℕ → Bool) (i j k : ℕ) : Type 0 where
  pub above : i ≤ k
  pub below : k ≤ j
  pub fails : (m : ℕ) → i ≤ m → m < k → test m ≡ false
  pub holds : k < j → test k ≡ true

module _ (test : ℕ → Bool) (fuel i j : ℕ) where
  search_between-empty : j ≤ i → search_between (suc fuel) test i j ≡ i
  unfolding search_between
  search_between-empty h = ground arith

  search_between-lower :
      i < j
      → test ((i + j) / 2) ≡ true
      → search_between (suc fuel) test i j ≡ search_between fuel test i ((i + j) / 2)
  unfolding search_between
  search_between-lower h e = ground arith

  search_between-upper :
      i < j
      → test ((i + j) / 2) ≡ false
      → search_between (suc fuel) test i j ≡ search_between fuel test ((i + j) / 2 + 1) j
  unfolding search_between
  search_between-upper h e = ground arith

module _ (test : ℕ → Bool) (law : Ascending test) where
  fails_before : (m n : ℕ) → m ≤ n → test n ≡ false → test m ≡ false
  fails_before m n h e = elim (Bool-cases (test m)) [ inl t ↦ cc (law m n h t, e) | inr f ↦ f ]

  law_at : {i m k : ℕ} → IsLeast test i m k → test m ≡ true → test k ≡ true
  law_at {i} {m} {k} l e = elim (le_or_lt m k) [ inl le ↦ law m k le e | inr lt ↦ l.holds lt ]

  fails_upto :
      {m j k : ℕ} → IsLeast test (m + 1) j k → test m ≡ false → (n : ℕ) → n < k → test n ≡ false
  fails_upto {m} l e n hi = elim (le_or_lt n m) [
    | inl le ↦ fails_before n m le e
    | inr lt ↦ l.fails n (omega arith) hi
  ]

  from_lower : (i j m k : ℕ) → m < j → test m ≡ true → IsLeast test i m k → IsLeast test i j k
  from_lower i j m k h e l = record {
    above = l.above;
    below = omega (arith, l.below);
    fails = l.fails;
    holds = λ lt. law_at l e;
  }

  from_upper :
      (i j m k : ℕ) → i ≤ m → test m ≡ false → IsLeast test (m + 1) j k → IsLeast test i j k
  from_upper i j m k h e l = record {
    above = omega (arith, l.above);
    below = l.below;
    fails = λ n lo hi. fails_upto l e n hi;
    holds = l.holds;
  }

  search_between-IsLeast :
      (fuel i j : ℕ) → i ≤ j → j ≤ i + fuel → IsLeast test i j (search_between fuel test i j)
  unfolding search_between
  search_between-IsLeast zero i j h b = record {
    above = omega arith;
    below = omega arith;
    fails = λ m lo hi. absurd (omega arith);
    holds = λ lt. absurd (omega arith);
  }
  search_between-IsLeast (suc fuel) i j h b =
      let m = (i + j) / 2 in
      elim (le_or_lt j i) [
        | inl le ↦ subst (IsLeast test i j) (sym (search_between-empty test fuel i j le)) (record {
          above = omega arith;
          below = omega arith;
          fails = λ n lo hi. absurd (omega arith);
          holds = λ lt. absurd (omega arith);
        })
        | inr lt ↦ elim (Bool-cases (test m)) [
          | inl e ↦ subst (IsLeast test i j) (sym (search_between-lower test fuel i j lt e)) (
              from_lower i j m _ (omega arith) e
                (search_between-IsLeast fuel i m (omega arith) (omega arith)))
          | inr e ↦ subst (IsLeast test i j) (sym (search_between-upper test fuel i j lt e)) (
              from_upper i j m _ (omega arith) e
                (search_between-IsLeast fuel (m + 1) j (omega arith) (omega arith)))
        ]
      ]

-- A search from the front.
abbrev pub contains : Bytes → List Bytes → Bool
contains expected [] = false
contains expected (x ∷ xs) = beq x expected || contains expected xs

module _ (e : Bytes) where
  above_is_not_least : (x y : Bytes) → le_bytes e x ≡ true → lt_bytes x y ≡ true → y ≢ e
  above_is_not_least x y h k p = let q : lt_bytes x e ≡ true = cc in cc (h, (le_bytes_iff x e).1 q)

  le-below :
      (x y : Bytes)
      → le_bytes e x ≡ true
      → lt_bytes x y ≡ true
      → (le_bytes e y ≡ true) × (beq y e ≡ false)
  le-below x y h k = (
    elim (Bool-cases (le_bytes e y)) [
      | inl b ↦ b
      | inr b ↦ cc (h, (le_bytes_iff x e).1 (lt_bytes_trans x y e k ((le_bytes_iff y e).0 b)))
    ],
    elim (Bool-cases (beq y e)) [
      | inl b ↦ absurd (above_is_not_least x y h k ((beq_iff y e).0 b))
      | inr b ↦ b
    ],
  )

  le-differs : (x : Bytes) → le_bytes e x ≡ false → beq x e ≡ false
  le-differs x h = elim (Bool-cases (beq x e)) [
    | inl b ↦ cc (lt_bytes_irrefl x, (le_bytes_iff x e).0 h, (beq_iff x e).0 b)
    | inr b ↦ b
  ]

  after_at_least :
      (x : Bytes) (xs : List Bytes) (n : ℕ)
      → le_bytes e x ≡ true
      → All (λ y. lt_bytes x y ≡ true) xs
      → at_least e (get_elem? xs n) ≡ true
  after_at_least x [] n h a = refl
  after_at_least x (y ∷ ys) zero h a = (le-below x y h a.0).0
  after_at_least x (y ∷ ys) (suc n) h a = after_at_least x ys n h a.1

  Increasing-Ascending :
      (xs : List Bytes) → Increasing xs → Ascending (λ n. at_least e (get_elem? xs n))
  Increasing-Ascending [] s m n le h = refl
  Increasing-Ascending (x ∷ xs) s zero zero le h = h
  Increasing-Ascending (x ∷ xs) s zero (suc n) le h = after_at_least x xs n h s.0
  Increasing-Ascending (x ∷ xs) s (suc m) zero le h = absurd (omega arith)
  Increasing-Ascending (x ∷ xs) s (suc m) (suc n) le h =
      Increasing-Ascending xs s.1 m n (omega arith) h

  contains-after :
      (x : Bytes) (xs : List Bytes)
      → le_bytes e x ≡ true
      → All (λ y. lt_bytes x y ≡ true) xs
      → contains e xs ≡ false
  contains-after x [] h a = refl
  contains-after x (y ∷ ys) h a = ground (arith, (le-below x y h a.0).1, contains-after x ys h a.1)

  contains-least :
      (xs : List Bytes) (k : ℕ)
      → Increasing xs
      → ((m : ℕ) → m < k → at_least e (get_elem? xs m) ≡ false)
      → (k < length xs → at_least e (get_elem? xs k) ≡ true)
      → contains e xs ≡ is_value e (get_elem? xs k)
  contains-least [] k s f h = refl
  contains-least (x ∷ xs) zero s f h = ground (arith, contains-after x xs (h (omega arith)) s.0)
  contains-least (x ∷ xs) (suc k) s f h = ground (
    arith,
    le-differs x (f 0 (omega arith)),
    contains-least xs k s.1 (λ m lt. f (suc m) (omega arith)) (λ lt. h (omega arith)),
  )

  is_value-length :
      (xs : List Bytes) (k : ℕ)
      → (ltb k (length xs) && is_value e (get_elem? xs k)) ≡ is_value e (get_elem? xs k)
  is_value-length [] k = ground arith
  is_value-length (x ∷ xs) zero = ground arith
  is_value-length (x ∷ xs) (suc k) = ground (arith, is_value-length xs k)

check_capabilities-Increasing :
    (index : ℕ) (x : Bytes) (xs : List Bytes)
    → check_capabilities index (some x) xs ≡ pass
    → All (λ y. lt_bytes x y ≡ true) xs × Increasing xs
unfolding check_capabilities
check_capabilities-Increasing index x [] h = (tt, tt)
check_capabilities-Increasing index x (y ∷ ys) h =
    let (a, s) = check_capabilities-Increasing (index + 1) y ys (ground arith) in
    let b : le_bytes y x ≡ false = ground arith in
    let lt = (le_bytes_iff x y).0 b in ((lt, All-below x y ys lt a), (a, s))

Increasing-capabilities : (xs : List Bytes) → check_capabilities 0 none xs ≡ pass → Increasing xs
unfolding check_capabilities
Increasing-capabilities [] h = tt
Increasing-capabilities (x ∷ xs) h = check_capabilities-Increasing 1 x xs (ground arith)

has_capability-contains :
    (values : List Bytes) (expected : Bytes)
    → Increasing values
    → has_capability values expected ≡ contains expected values
unfolding has_capability search_strings
has_capability-contains values expected s =
    let test : ℕ → Bool = λ n. at_least expected (get_elem? values n) in
    let k = search_between (length values) test 0 (length values) in
    let l =
      search_between-IsLeast test (Increasing-Ascending expected values s) (length values) 0
        (length values) (omega arith) (omega arith) in
    is_value-length expected values k
    ∙ sym (contains-least expected values k s (λ m lt. l.fails m (omega arith) lt) l.holds)

accepted_capabilities :
    (value : GetInfoResponse) (plugin_id version : Bytes)
    → validate_info_response (some value) plugin_id version ≡ pass
    → check_capabilities 0 none value.capabilities ≡ pass
unfolding validate_info_response check_info
accepted_capabilities value plugin_id version h = ground arith

-- In an info response that is accepted, the binary search of `HasCapability` finds a capability
-- exactly if a search from the front does.
pub has_capability-accepted :
    (value : GetInfoResponse) (plugin_id version expected : Bytes)
    → validate_info_response (some value) plugin_id version ≡ pass
    → has_capability value.capabilities expected ≡ contains expected value.capabilities
has_capability-accepted value plugin_id version expected h =
    has_capability-contains value.capabilities expected
      (Increasing-capabilities value.capabilities (accepted_capabilities value plugin_id version h))
