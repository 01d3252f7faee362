-- ===== src/CenterPlugin/Info/Permissions.antt =====
-- The permissions that are accepted, and the answer to an activation.
use relayward_sdk.Base.{
  ℕ, ◌+◌, ◌≤◌, ◌≡◌, refl, sym, ap, ◌∙◌, ◌↔◌, inl, inr, true, false, List, [], ◌∷◌, some, Bytes,
  arith, length, beq, beq_iff, lt_bytes, lt_bytes_total, le_bytes_iff, lt_bytes_irrefl,
  lt_bytes_trans, le_bytes, All, Increasing, Follows, Follows-Increasing, Increasing-Follows,
  All-below, Bool-cases, pass,
}
use relayward_sdk.Protocol.{is_one_of}
use relayward_sdk.CenterPlugin.Info.{
  ActivateRequest, Activated, permission_nodes_read, permission_events_read,
  permission_events_write, permission_node_configure, permission_services_write, strings_are_sorted,
  is_known_permission, check_permissions, validate_permissions, same_permissions,
  validate_activate_request, check_activated, check_activation, validate_activated,
}

-- The five permissions in the order of their names.
abbrev pub all_permissions : List Bytes
all_permissions =
    permission_events_read ∷ permission_events_write ∷ permission_node_configure
    ∷ permission_nodes_read ∷ permission_services_write ∷ []

-- The first list is the second with some of its texts left out.
pub data Selection : List Bytes → List Bytes → Type 0 where
  nothing : Selection [] []
  leave : {xs ys : List Bytes} {y : Bytes} → Selection xs ys → Selection xs (y ∷ ys)
  keep : {xs ys : List Bytes} {y : Bytes} → Selection xs ys → Selection (y ∷ xs) (y ∷ ys)

Selection-length : {xs ys : List Bytes} → Selection xs ys → length xs ≤ length ys
Selection-length nothing = omega arith
Selection-length (leave s) = omega (arith, Selection-length s)
Selection-length (keep s) = omega (arith, Selection-length s)

Selection-All : (P : Bytes → Type 0) {xs ys : List Bytes} → Selection xs ys → All P ys → All P xs
Selection-All P nothing a = tt
Selection-All P (leave s) (_, a) = Selection-All P s a
Selection-All P (keep s) (p, a) = (p, Selection-All P s a)

Selection-Increasing : {xs ys : List Bytes} → Selection xs ys → Increasing ys → Increasing xs
Selection-Increasing nothing i = tt
Selection-Increasing (leave s) (_, i) = Selection-Increasing s i
Selection-Increasing (keep {y = y} s) (a, i) =
    (Selection-All (λ z. lt_bytes y z ≡ true) s a, Selection-Increasing s i)

-- Texts above `y` that are among `y` and others are among the others.
members-above :
    (y : Bytes) (xs ys : List Bytes)
    → All (λ z. lt_bytes y z ≡ true) xs
    → All (λ z. is_one_of (y ∷ ys) z ≡ true) xs
    → All (λ z. is_one_of ys z ≡ true) xs
unfolding is_one_of
members-above y [] ys a m = tt
members-above y (z ∷ xs) ys (lt, a) (h, m) = (
  elim (Bool-cases (beq z y)) [
    | inl e ↦ absurd (cc (lt, ap (lt_bytes y) ((beq_iff z y).0 e), lt_bytes_irrefl y))
    | inr e ↦ ground arith
  ],
  members-above y xs ys a m,
)

below-member :
    (y z : Bytes) (ys : List Bytes)
    → All (λ w. lt_bytes y w ≡ true) ys
    → is_one_of ys z ≡ true
    → lt_bytes y z ≡ true
unfolding is_one_of
below-member y z [] a m = cc m
below-member y z (w ∷ ys) (lt, a) m = elim (Bool-cases (beq z w)) [
  | inl e ↦ rw ((beq_iff z w).0 e) lt
  | inr e ↦ below-member y z ys a (ground arith)
]

Increasing-Selection :
    (xs ys : List Bytes)
    → Increasing xs
    → Increasing ys
    → All (λ x. is_one_of ys x ≡ true) xs
    → Selection xs ys
unfolding is_one_of
Increasing-Selection [] [] i j m = nothing
Increasing-Selection (x ∷ xs) [] i j m = cc m.0
Increasing-Selection [] (y ∷ ys) i j m = leave (Increasing-Selection [] ys tt j.1 tt)
Increasing-Selection (x ∷ xs) (y ∷ ys) (above, i) (a, j) (h, m) = elim (Bool-cases (beq x y)) [
  | inl e ↦
      let same = (beq_iff x y).0 e in
      let above_y : All (λ z. lt_bytes y z ≡ true) xs = rw (sym same) above in
      rw same (keep (Increasing-Selection xs ys i j (members-above y xs ys above_y m)))
  | inr e ↦
      let member : is_one_of ys x ≡ true = ground arith in
      let lt = below-member y x ys a member in
      let above_y = All-below y x xs lt above in
      leave
        (Increasing-Selection (x ∷ xs) ys (above, i) j (member, members-above y xs ys above_y m))
]

known-member : (x : Bytes) → is_known_permission x ≡ is_one_of all_permissions x
unfolding is_known_permission is_one_of
known-member x = ground arith

-- At least and not the same is above; what is above is not the same.
above-differ : (p x : Bytes) → lt_bytes x p ≡ false → beq x p ≡ false → lt_bytes p x ≡ true
above-differ p x le ne = elim (Bool-cases (lt_bytes p x)) [
  | inl lt ↦ lt
  | inr ge ↦ absurd (cc (ne, (beq_iff x p).1 (lt_bytes_total x p le ge)))
]

below-differ : (p x : Bytes) → lt_bytes p x ≡ true → (lt_bytes x p ≡ false) × (beq x p ≡ false)
below-differ p x lt = (
  elim (Bool-cases (lt_bytes x p)) [
    | inl gt ↦ absurd (cc (lt_bytes_trans p x p lt gt, lt_bytes_irrefl p))
    | inr le ↦ le
  ],
  elim (Bool-cases (beq x p)) [
    | inl e ↦ absurd (cc (lt, ap (lt_bytes p) ((beq_iff x p).0 e), lt_bytes_irrefl p))
    | inr ne ↦ ne
  ],
)

-- What the two loops check: each text is at least, and none the same as, the one before it.
sorted-Follows :
    (index : ℕ) (p : Bytes) (xs : List Bytes)
    → strings_are_sorted (p ∷ xs) ≡ true
    → check_permissions index (some p) xs ≡ pass
    → Follows p xs × All (λ x. is_one_of all_permissions x ≡ true) xs
unfolding strings_are_sorted check_permissions le_bytes
sorted-Follows index p [] s h = (tt, tt)
sorted-Follows index p (x ∷ xs) s h =
    let (f, a) = sorted-Follows (index + 1) x xs (ground arith) (ground arith) in
    let lt : lt_bytes p x ≡ true = above-differ p x (ground arith) (ground arith) in
    ((ground arith, f), (sym (known-member x) ∙ ground arith, a))

Follows-sorted :
    (index : ℕ) (p : Bytes) (xs : List Bytes)
    → Follows p xs
    → All (λ x. is_one_of all_permissions x ≡ true) xs
    → (strings_are_sorted (p ∷ xs) ≡ true) × (check_permissions index (some p) xs ≡ pass)
unfolding strings_are_sorted check_permissions
Follows-sorted index p [] f a = (refl, refl)
Follows-sorted index p (x ∷ xs) (le, f) (k, a) =
    let (s, c) = Follows-sorted (index + 1) x xs f a in
    let (ge, ne) = below-differ p x ((le_bytes_iff p x).0 le) in
    let known : is_known_permission x ≡ true = known-member x ∙ k in (ground arith, ground arith)

abbrev Known : List Bytes → Type 0
Known xs = All (λ x. is_one_of all_permissions x ≡ true) xs

accepted-Known : (xs : List Bytes) → validate_permissions xs ≡ pass → Increasing xs × Known xs
unfolding validate_permissions check_permissions
accepted-Known [] h = (tt, tt)
accepted-Known (x ∷ xs) h =
    let (f, a) = sorted-Follows 1 x xs (ground arith) (ground arith) in
    (Follows-Increasing x xs f, (sym (known-member x) ∙ ground arith, a))

Known-accepted : (xs : List Bytes) → Increasing xs → Known xs → validate_permissions xs ≡ pass
unfolding validate_permissions check_permissions strings_are_sorted
Known-accepted [] i a = refl
Known-accepted (x ∷ xs) (above, i) (k, a) =
    let (s, c) = Follows-sorted 1 x xs (Increasing-Follows x xs above i) a in
    let known : is_known_permission x ≡ true = known-member x ∙ k in ground arith

all_permissions-Increasing : Increasing all_permissions
unfolding lt_bytes
all_permissions-Increasing = (
  (refl, (refl, (refl, (refl, tt)))),
  ((refl, (refl, (refl, tt))), ((refl, (refl, tt)), ((refl, tt), (tt, tt)))),
)

all_permissions-Known : Known all_permissions
unfolding is_one_of beq
all_permissions-Known = (refl, (refl, (refl, (refl, (refl, tt)))))

-- A list of permissions is accepted exactly if it is the list of all five in the order of their
-- names with some left out: 32 lists of at most five permissions, none of them twice.
pub accepted_permissions_iff :
    (xs : List Bytes) → (validate_permissions xs ≡ pass) ↔ Selection xs all_permissions
accepted_permissions_iff xs = (
  λ h.
      let (i, a) = accepted-Known xs h in
      Increasing-Selection xs all_permissions i all_permissions-Increasing a,
  λ s.
      Known-accepted xs (Selection-Increasing s all_permissions-Increasing)
        (Selection-All (λ x. is_one_of all_permissions x ≡ true) s all_permissions-Known),
)

same_permissions_lem :
    (xs ys : List Bytes) → length xs ≡ length ys → (same_permissions xs ys ≡ true) ↔ (xs ≡ ys)
unfolding same_permissions
same_permissions_lem [] [] e = (λ _. refl, λ _. refl)
same_permissions_lem [] (y ∷ ys) e = absurd (omega (arith, e))
same_permissions_lem (x ∷ xs) [] e = absurd (omega (arith, e))
same_permissions_lem (x ∷ xs) (y ∷ ys) e = ground (arith, same_permissions_lem xs ys, beq_iff x y)

-- The answer to an activation is accepted exactly if the request is and both name the same
-- permissions in the same order.
pub accepted_activation_iff :
    (request : ActivateRequest) (response : Activated)
    → (validate_activated (some request) (some response) ≡ pass) ↔ (
        (validate_permissions request.permissions ≡ pass)
        × (request.permissions ≡ response.permissions))
unfolding validate_activated validate_activate_request check_activation check_activated
accepted_activation_iff request response = (
  λ h. (
    ground arith,
    (same_permissions_lem request.permissions response.permissions (ground arith)).0 (ground arith),
  ),
  λ (h, e).
      let long : length request.permissions ≡ length response.permissions = ap length e in
      let same = (same_permissions_lem request.permissions response.permissions long).1 e in
      let valid : validate_permissions response.permissions ≡ pass = rw (sym e) h in ground arith,
)
