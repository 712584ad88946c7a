-- ===== src/Tiangan/Hash.antt =====
-- tiangan/mpath.h and c_api.cc: the hashes, and `parse_mpath`. MurmurHash3 is a parameter.
use tgproxy.Common.{ℕ, [], Option, Text}
use tgproxy.Common.Int.{ℤ, pos}

pub record Murmur : Type 0 where
  -- `MurmurHash3_x86_32` and `MurmurHash3_x64_128`: the key, the seed, and what is written to `out`.
  pub x86_32 : Text → ℕ → ℕ
  pub x64_128 : Text → ℕ → ℕ × ℕ

module _ (murmur : Murmur) where
  open murmur use {x86_32, x64_128}

  -- `hash_u32(key, len, seed)`.
  unfoldable pub hash_u32 : Text → ℕ → ℕ
  hash_u32 key seed = x86_32 key seed

  -- `hash_u64(key, len, seed)`: the first half.
  unfoldable pub hash_u64 : Text → ℕ → ℕ
  hash_u64 key seed = (x64_128 key seed).0

  -- `hash_feature(key, len)`.
  unfoldable pub hash_feature : Text → ℕ
  unfolding hash_u64
  hash_feature key = hash_u64 key 141652681

  -- `tiangan_hash_feature(key, len)`.
  unfoldable pub tiangan_hash_feature : Text → ℕ
  unfolding hash_feature
  tiangan_hash_feature key = hash_feature key

-- `parse_mpath(mpath, delim)`: a stub.
unfoldable pub parse_mpath : Text → Option Text → Text × Text × ℤ × ℤ
parse_mpath mpath delim = ([], [], pos 0, pos 0)
