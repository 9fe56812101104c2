-- ===== src/Common/Hash.antt =====
-- The hash wrappers of src/common.c. SHA-256 and RIPEMD-160 are OpenSSL's, and stand for functions
-- from a message to a digest; BLAKE3 is the program's own.
use shardingsim.Prelude.{ℕ, List, [], ◌∷◌, ◌++◌, take, IsBytes}
use shardingsim.Blake3.Hasher.{Hasher}
use shardingsim.Blake3.Hasher
use shardingsim.Blake3.Hasher.Output.{blake3_truncated-blake3}
use shardingsim.Prelude.{arith}

-- The two digests of OpenSSL, with the lengths that its documentation gives.
pub record OpenSsl : Type 0 where
  pub sha256 : List ℕ → List ℕ
  pub ripemd160 : List ℕ → List ℕ

pub record IsOpenSsl (o : OpenSsl) : Type 0 where
  pub sha256-IsBytes : (message : List ℕ) → IsBytes 32 (o.sha256 message)
  pub ripemd160-IsBytes : (message : List ℕ) → IsBytes 20 (o.ripemd160 message)

-- RIPEMD160(SHA256(data))
pub hash160 : OpenSsl → List ℕ → List ℕ
hash160 o message = o.ripemd160 (o.sha256 message)

pub sha256_truncated : OpenSsl → List ℕ → List ℕ
sha256_truncated o message = take 28 (o.sha256 message)

-- `SHA256_Update` for each input in turn.
concat_all : List (List ℕ) → List ℕ
concat_all [] = []
concat_all (x ∷ inputs) = x ++ concat_all inputs

pub sha256_multi : OpenSsl → List (List ℕ) → List ℕ
unfolding concat_all
sha256_multi o inputs = o.sha256 (concat_all inputs)

-- `memory` is the stack frame in which the hasher is made.
pub blake3_hash : Hasher → List ℕ → List ℕ
blake3_hash memory message = Hasher.blake3 memory message

pub blake3_hash_truncated : Hasher → List ℕ → ℕ → List ℕ
blake3_hash_truncated memory message hash_len = Hasher.blake3_truncated memory message hash_len

pub hash160-IsBytes :
    {o : OpenSsl} → IsOpenSsl o → (message : List ℕ) → IsBytes 20 (hash160 o message)
unfolding hash160
hash160-IsBytes {o} laws message = laws.ripemd160-IsBytes (o.sha256 message)

pub blake3_hash-IsBytes :
    (memory : Hasher) (message : List ℕ) → IsBytes 32 (blake3_hash memory message)
unfolding blake3_hash
blake3_hash-IsBytes memory message = (blake3_truncated-blake3 memory message 32 (omega arith)).0
