-- ===== src/Core/Types.antt =====
-- crates/blockchain-core/src/types.rs, and the hashes, addresses and byte strings of
-- crates/blockchain-crypto/src. A 32-byte hash and a 20-byte address are the numbers that their
-- bytes spell, the first byte the most significant: the program compares them, sorts them in that
-- order, and concatenates their bytes.
use kainotes.Prelude.{
  ℕ, zero, suc, ◌-◌, ◌+◌, ◌*◌, ◌/◌, ◌%◌, ◌^◌, Bool, Option, none, some, List, [], ◌∷◌, ◌++◌, ltb,
  ◌==◌, if◌then◌else◌, u64_mod,
}

abbrev pub Bytes : Type 0
Bytes = List ℕ

abbrev pub Hash : Type 0
Hash = ℕ

abbrev pub Address : Type 0
Address = ℕ

-- `Hash::zero`, `Address::zero`
abbrev pub zero_hash : Hash
zero_hash = 0

abbrev pub zero_address : Address
zero_address = 0

-- The last `n` bytes of a number.
pub be_bytes : ℕ → ℕ → Bytes
be_bytes zero h = []
be_bytes (suc n) h = be_bytes n (h / 256) ++ (h % 256) ∷ []

-- `Hash::as_bytes`, `Address::as_bytes`
unfoldable pub hash_bytes : Hash → Bytes
unfolding be_bytes
hash_bytes h = be_bytes 32 h

unfoldable pub address_bytes : Address → Bytes
unfolding be_bytes
address_bytes a = be_bytes 20 a

-- A `BigUint` has no bound.
abbrev pub Amount : Type 0
Amount = ℕ

abbrev pub is_zero : Amount → Bool
is_zero a = a == 0

abbrev pub checked_add : Amount → Amount → Option Amount
checked_add a b = some (a + b)

abbrev pub checked_sub : Amount → Amount → Option Amount
checked_sub a b = if ltb a b then none else some (a - b)

-- `Amount::from_tokens`: one token is 10^18 base units.
unfoldable pub from_tokens : ℕ → Amount
from_tokens tokens = tokens * 10 ^ 18

-- `inner().to_u64_digits().first().copied().unwrap_or(d)`: zero has no digits.
abbrev pub first_digit_or : ℕ → Amount → ℕ
first_digit_or d a = if a == 0 then d else a % u64_mod

abbrev pub first_digit : Amount → ℕ
first_digit a = first_digit_or 0 a
