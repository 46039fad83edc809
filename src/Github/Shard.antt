-- ===== src/Github/Shard.antt =====
-- `ownsShard` of packages/github/src/index.ts: FNV-1a on 32 bits over a text's code units.
use keco.Prelude.{
  ℕ, zero, suc, ◌+◌, ◌-◌, ◌*◌, ◌/◌, ◌%◌, Bool, true, [], ◌∷◌, leb, ◌==◌, if◌then◌else◌,
}
use keco.Prelude.Text.{Text}

-- `^` on the lowest bits, as many as the first argument says.
xor : ℕ → ℕ → ℕ → ℕ
xor zero a b = 0
xor (suc bits) a b = 2 * xor bits (a / 2) (b / 2) + (a % 2 + b % 2) % 2

-- `Math.imul(hash, 16777619)`, by its 32 bits.
abbrev imul_prime : ℕ → ℕ
imul_prime hash = (hash * 16777619) % 4294967296

-- The loop, on the 32 bits of `hash`.
hash_bits : ℕ → Text → ℕ
hash_bits hash [] = hash
hash_bits hash (c ∷ cs) = hash_bits (imul_prime (xor 32 hash c)) cs

-- `Math.abs`: after a round the bits are those of a signed number; before the first they are not.
abs_hash : Text → ℕ
abs_hash [] = 2166136261
abs_hash (c ∷ cs) =
    let bits = hash_bits 2166136261 (c ∷ cs) in
    if leb 2147483648 bits then 4294967296 - bits else bits

unfoldable pub owns_shard : Text → ℕ → ℕ → Bool
unfolding abs_hash hash_bits xor
owns_shard repo shard_count shard_index =
    if leb shard_count 1 then true else abs_hash repo % shard_count == shard_index
