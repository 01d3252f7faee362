-- ===== src/Hash.antt =====
-- What the proofs rely on of SHA-256, which is a parameter of the model: 32 bytes for every input.
pub mod Samples
use relayward_sdk.Base.{ℕ, ◌≡◌, ◌≢◌, Bytes, length}
use relayward_sdk.Encoding.Laws.{AreBytes}

pub record IsDigest (sha256 : Bytes → Bytes) : Type 0 where
  pub length-sha256 : (s : Bytes) → length (sha256 s) ≡ 32
  pub sha256-AreBytes : (s : Bytes) → AreBytes (sha256 s)

-- Two inputs that differ and have one digest.
abbrev pub Collide : (Bytes → Bytes) → Bytes → Bytes → Type 0
Collide sha256 s t = (s ≢ t) × (sha256 s ≡ sha256 t)
