-- ===== src/NodePlugin/Services/Distinct.antt =====
-- The order of the blocks of an accepted request.
use relayward_sdk.Base.{
  ℕ, zero, suc, ◌+◌, ◌<◌, ◌≡◌, true, false, List, [], ◌∷◌, Option, some, none, Bytes, arith,
  get_elem?, lt_bytes, lt_bytes_irrefl, lt_bytes_trans, le_bytes, le_bytes_iff, pass,
}
use relayward_sdk.Agent.Telemetry.{ParseIp}
use relayward_sdk.NodePlugin.Services.{
  DynamicBlock, ReplaceDynamicBlocksRequest, block_key, check_blocks,
  validate_replace_dynamic_blocks_request,
}

-- Every block is present, and its key is above a key.
abbrev pub Above : Bytes → List (Option DynamicBlock) → Type 0
Above p [] = Unit
Above p (none ∷ rest) = ⊥
Above p (some b ∷ rest) = (lt_bytes p (block_key b) ≡ true) × Above p rest

-- Every block is present, and the keys increase.
abbrev pub Ordered : List (Option DynamicBlock) → Type 0
Ordered [] = Unit
Ordered (none ∷ rest) = ⊥
Ordered (some b ∷ rest) = Above (block_key b) rest × Ordered rest

Above-trans :
    (p q : Bytes) (blocks : List (Option DynamicBlock))
    → lt_bytes p q ≡ true
    → Above q blocks
    → Above p blocks
Above-trans p q [] h a = tt
Above-trans p q (none ∷ rest) h a = a
Above-trans p q (some b ∷ rest) h (a, r) =
    (lt_bytes_trans p q (block_key b) h a, Above-trans p q rest h r)

Above-get :
    (p : Bytes) (blocks : List (Option DynamicBlock)) (i : ℕ) {b : DynamicBlock}
    → Above p blocks
    → get_elem? blocks i ≡ some (some b)
    → lt_bytes p (block_key b) ≡ true
Above-get p [] i a e = cc e
Above-get p (none ∷ rest) i a e = absurd a
Above-get p (some c ∷ rest) zero {b} a e = cc (a.0, e)
Above-get p (some c ∷ rest) (suc i) a e = Above-get p rest i a.1 e

Ordered-get :
    (blocks : List (Option DynamicBlock)) (i j : ℕ) {b c : DynamicBlock}
    → Ordered blocks
    → i < j
    → get_elem? blocks i ≡ some (some b)
    → get_elem? blocks j ≡ some (some c)
    → lt_bytes (block_key b) (block_key c) ≡ true
Ordered-get [] i j o h e f = cc e
Ordered-get (none ∷ rest) i j o h e f = absurd o
Ordered-get (some x ∷ rest) i zero o h e f = absurd (omega arith)
Ordered-get (some x ∷ rest) zero (suc j) {b} {c} o h e f =
    let above : lt_bytes (block_key x) (block_key c) ≡ true =
      Above-get (block_key x) rest j o.0 f in
    cc (above, e)
Ordered-get (some x ∷ rest) (suc i) (suc j) o h e f = Ordered-get rest i j o.1 (omega arith) e f

module _ (parse_ip : ParseIp) where
  check_blocks-Ordered :
      (index : ℕ) (p : Bytes) (blocks : List (Option DynamicBlock))
      → check_blocks parse_ip index (some p) blocks ≡ pass
      → Above p blocks × Ordered blocks
  unfolding check_blocks
  check_blocks-Ordered index p [] h = (tt, tt)
  check_blocks-Ordered index p (none ∷ rest) h = absurd (ground arith)
  check_blocks-Ordered index p (some b ∷ rest) h =
      let (a, o) = check_blocks-Ordered (index + 1) (block_key b) rest (ground arith) in
      let le : le_bytes (block_key b) p ≡ false = ground arith in
      let lt = (le_bytes_iff p (block_key b)).0 le in
      ((lt, Above-trans p (block_key b) rest lt a), (a, o))

  check_blocks-start :
      (blocks : List (Option DynamicBlock))
      → check_blocks parse_ip 0 none blocks ≡ pass
      → Ordered blocks
  unfolding check_blocks
  check_blocks-start [] h = tt
  check_blocks-start (none ∷ rest) h = absurd (ground arith)
  check_blocks-start (some b ∷ rest) h = check_blocks-Ordered 1 (block_key b) rest (ground arith)

  blocks-Ordered :
      (request : ReplaceDynamicBlocksRequest)
      → validate_replace_dynamic_blocks_request parse_ip (some request) ≡ pass
      → Ordered request.blocks
  unfolding validate_replace_dynamic_blocks_request
  blocks-Ordered request h = check_blocks-start request.blocks (ground arith)

  -- No two blocks of an accepted request are for one authorization, service and address.
  pub accepted_blocks_differ :
      (request : ReplaceDynamicBlocksRequest) (i j : ℕ) (b c : DynamicBlock)
      → validate_replace_dynamic_blocks_request parse_ip (some request) ≡ pass
      → i < j
      → get_elem? request.blocks i ≡ some (some b)
      → get_elem? request.blocks j ≡ some (some c)
      → ¬ (
          (b.authorization_id ≡ c.authorization_id)
          × (b.service_id ≡ c.service_id)
          × (b.source_ip ≡ c.source_ip))
  unfolding block_key
  accepted_blocks_differ request i j b c h lt e f (p, q, r) =
      let keys : block_key b ≡ block_key c = cc (p, q, r) in
      cc (
        Ordered-get request.blocks i j (blocks-Ordered request h) lt e f,
        lt_bytes_irrefl (block_key b),
        keys,
      )
