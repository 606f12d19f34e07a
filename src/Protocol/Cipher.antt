-- ===== src/Protocol/Cipher.antt =====
-- site/wchisp-protocol.js, `deriveXorKey` and `xorChunk`: the key and the cipher that it drives.
use frogalert.Prelude.Bits.{bit_xor_cancel, bit_xor-lt}
use frogalert.Protocol.Packets.{low_byte}
use frogalert.Prelude.Bytes.{IsBytes, byte_at}
use frogalert.Prelude.{
  ℕ, suc, ◌+◌, ◌%◌, ◌<◌, ◌≡◌, refl, ap, bit_xor, List, [], ◌∷◌, ◌++◌, arith, length, ok, replicate,
  ◌∙◌, ◌↔◌, ap₂, zero,
}
use frogalert.Protocol.Framing.{low_byte_lem}
use frogalert.Protocol.Responses.{checksum_from, derive_xor_key, xor_from, xor_chunk, validate_uid}

abbrev pub sum : List ℕ → ℕ
sum [] = 0
sum (b ∷ bs) = b + sum bs

pub checksum_from_lem : (s : ℕ) (bs : List ℕ) → s < 256 → checksum_from s bs ≡ (s + sum bs) % 256
unfolding checksum_from
checksum_from_lem s [] h = omega arith
checksum_from_lem s (b ∷ bs) h =
    omega (arith, low_byte_lem (s + b), checksum_from_lem (low_byte (s + b)) bs)

-- The key of a valid UID: seven times the sum of its bytes and, last, that sum plus the chip id, all
-- modulo 256. An invalid UID has no key.
pub derive_xor_key_iff :
    (uid : List ℕ) (chip_id : ℕ) (key : List ℕ)
    → (derive_xor_key uid chip_id ≡ ok key) ↔ (
        (validate_uid uid ≡ ok tt)
        × (key ≡ replicate 7 (sum uid % 256) ++ ((sum uid + chip_id) % 256 ∷ [])))
unfolding derive_xor_key
derive_xor_key_iff uid chip_id key =
    ground (arith, checksum_from_lem 0 uid, low_byte_lem (checksum_from 0 uid + chip_id))

pub xor_from_twice : (key : List ℕ) (i : ℕ) (d : List ℕ) → xor_from key i (xor_from key i d) ≡ d
unfolding xor_from
xor_from_twice key i [] = refl
xor_from_twice key i (b ∷ d) =
    cc (bit_xor_cancel b (byte_at key (i % length key)), xor_from_twice key (i + 1) d)

pub length-xor_from : (key : List ℕ) (i : ℕ) (d : List ℕ) → length (xor_from key i d) ≡ length d
unfolding xor_from
length-xor_from key i [] = refl
length-xor_from key i (b ∷ d) = ap suc (length-xor_from key (i + 1) d)

-- The cipher is its own inverse: whatever a key of eight bytes makes of a chunk, the same key makes
-- the chunk of it again.
pub xor_chunk_twice :
    (chunk out key : List ℕ) → xor_chunk chunk key ≡ ok out → xor_chunk out key ≡ ok chunk
unfolding xor_chunk
xor_chunk_twice chunk out key h = ground (arith, xor_from_twice key 0 chunk)

IsByte_at : (bs : List ℕ) (i : ℕ) → IsBytes bs → byte_at bs i < 256
IsByte_at [] i h = omega arith
IsByte_at (b ∷ bs) zero h = h.0
IsByte_at (b ∷ bs) (suc i) h = IsByte_at bs i h.1

xor_from-IsBytes :
    (key : List ℕ) (i : ℕ) (d : List ℕ) → IsBytes key → IsBytes d → IsBytes (xor_from key i d)
unfolding xor_from
xor_from-IsBytes key i [] k h = tt
xor_from-IsBytes key i (b ∷ d) k h =
    (bit_xor-lt 8 _ _ h.0 (IsByte_at key (i % length key) k), xor_from-IsBytes key (i + 1) d k h.1)

xor_from-at :
    (key : List ℕ) (i : ℕ) (d : List ℕ) (j : ℕ)
    → j < length d
    → byte_at (xor_from key i d) j ≡ bit_xor (byte_at d j) (byte_at key ((i + j) % length key))
unfolding xor_from
xor_from-at key i [] j h = absurd (omega arith)
xor_from-at key i (b ∷ d) zero h = ap (λ k. bit_xor b (byte_at key (k % length key))) (omega arith)
xor_from-at key i (b ∷ d) (suc j) h =
    xor_from-at key (i + 1) d j (omega arith)
    ∙ ap (λ k. bit_xor (byte_at d j) (byte_at key (k % length key))) (omega arith)

-- The cipher keeps the length of a chunk and its bytes in range, and each byte is combined with the
-- byte of the key at its index modulo eight.
pub xor_chunk_lem :
    (chunk key : List ℕ)
    → length key ≡ 8
    → IsBytes key
    → IsBytes chunk
    → (out : List ℕ) × (xor_chunk chunk key ≡ ok out)
      × (length out ≡ length chunk)
      × IsBytes out
      × ((j : ℕ)
          → j < length chunk
          → byte_at out j ≡ bit_xor (byte_at chunk j) (byte_at key (j % 8)))
unfolding xor_chunk
xor_chunk_lem chunk key l k c = (
  xor_from key 0 chunk,
  ground arith,
  length-xor_from key 0 chunk,
  xor_from-IsBytes key 0 chunk k c,
  λ j h.
      xor_from-at key 0 chunk j h
      ∙ ap₂ (λ a b. bit_xor (byte_at chunk j) (byte_at key (a % b))) (omega arith) l,
)

pub xor_chunk-eq :
    (chunk key out : List ℕ) → xor_chunk chunk key ≡ ok out → out ≡ xor_from key 0 chunk
unfolding xor_chunk
xor_chunk-eq chunk key out h = ground arith
