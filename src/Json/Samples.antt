-- ===== src/Json/Samples.antt =====
-- A concrete codec of one value, for the examples.
use relayward_sdk.Base.{refl, codes, ok, []}
use relayward_sdk.Json.{Codec, RoundTrips, valid, value, end_of_input}

abbrev pub fixed_codec {ℓ} : {A : Type ℓ} → A → Codec A
fixed_codec a = record {
  marshal = λ _. ok (codes "{}");
  next = λ raw. value a [];
  trailing = λ raw. end_of_input;
}

pub fixed_codec-RoundTrips {ℓ} : {A : Type ℓ} (a : A) → RoundTrips (fixed_codec a) a (codes "{}")
unfolding valid
fixed_codec-RoundTrips a = record { encodes = refl; is_valid = refl; decodes = refl; ends = refl }
