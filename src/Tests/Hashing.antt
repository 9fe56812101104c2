-- ===== src/Tests/Hashing.antt =====
-- The theorems on BLAKE3, hex text and comparison.
use shardingsim.Prelude.{
  ℕ, ◌*◌, ◌≡◌, refl, true, some, List, [], ◌∷◌, map, length, All, IsByte, arith, replicate,
}
use shardingsim.Common.Hex.{hex_to_bytes, bytes_to_hex, bytes_to_hex_buf}
use shardingsim.Common.Hex.Laws.{to_lower, hex_to_bytes-bytes_to_hex, bytes_to_hex-hex_to_bytes}
use shardingsim.Blake3.Hasher.{
  blake3_hasher_init_keyed, blake3_hasher_update, blake3_hasher_finalize,
}
use shardingsim.Blake3.Hasher.Stream.{IsValid}
use shardingsim.Blake3.Hasher.Keyed.{blake3_hasher_init_keyed_ignored}
use shardingsim.Tests.Values.{memory}

memory-IsValid : IsValid memory
memory-IsValid = omega arith

blake3_hasher_init_keyed_ignored_example :
    blake3_hasher_finalize
      (blake3_hasher_update (blake3_hasher_init_keyed memory (replicate 32 1)) (5 ∷ []))
      32
    ≡ blake3_hasher_finalize
        (blake3_hasher_update (blake3_hasher_init_keyed memory (replicate 32 2)) (5 ∷ []))
        32
blake3_hasher_init_keyed_ignored_example =
    blake3_hasher_init_keyed_ignored memory (replicate 32 1) (replicate 32 2) (5 ∷ []) 32

abbrev text_bytes : List ℕ
text_bytes = 0 ∷ 255 ∷ []

-- "00ff"
abbrev text : List ℕ
text = 48 ∷ 48 ∷ 102 ∷ 102 ∷ []

text-bytes_to_hex : bytes_to_hex true text_bytes ≡ some text
unfolding bytes_to_hex bytes_to_hex_buf
text-bytes_to_hex = refl

hex_to_bytes-text : hex_to_bytes true text ≡ some text_bytes
hex_to_bytes-text = hex_to_bytes-bytes_to_hex text_bytes text (omega arith) text-bytes_to_hex

bytes_to_hex-hex_to_bytes_example :
    (2 * length text_bytes ≡ length text)
    × All IsByte text_bytes
    × (bytes_to_hex true text_bytes ≡ some (map to_lower text))
bytes_to_hex-hex_to_bytes_example = bytes_to_hex-hex_to_bytes true text text_bytes hex_to_bytes-text

abbrev two_zeros : List ℕ
two_zeros = 0 ∷ 0 ∷ []
