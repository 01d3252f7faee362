-- ===== src/Hash/Samples.antt =====
-- A concrete function with digests of 32 bytes, for the examples.
use relayward_sdk.Base.{ℕ, zero, suc, ◌%◌, ◌<◌, ◌≡◌, refl, ap, [], ◌∷◌, Bytes, arith, length}
use relayward_sdk.Encoding.Laws.{AreBytes}
use relayward_sdk.Hash.{IsDigest}

abbrev pub copies : ℕ → ℕ → Bytes
copies zero c = []
copies (suc n) c = c ∷ copies n c

pub length-copies : (n c : ℕ) → length (copies n c) ≡ n
length-copies zero c = refl
length-copies (suc n) c = ap suc (length-copies n c)

pub copies-AreBytes : (n c : ℕ) → c < 256 → AreBytes (copies n c)
copies-AreBytes zero c h = tt
copies-AreBytes (suc n) c h = (h, copies-AreBytes n c h)

-- The length of the input, 32 times.
abbrev pub sample_hash : Bytes → Bytes
sample_hash s = copies 32 (length s % 256)

pub sample_hash-IsDigest : IsDigest sample_hash
sample_hash-IsDigest = record {
  length-sha256 = λ s. length-copies 32 (length s % 256);
  sha256-AreBytes = λ s. copies-AreBytes 32 (length s % 256) (omega arith);
}
