-- ===== src/Common/Words/Bytes.antt =====
-- The byte order conversions undo themselves, and `int` arithmetic without overflow is exact.
use jansan.Common.{ℕ, ◌^◌, ◌<◌, ◌≡◌, arith, ℤ, pos, negsuc, ◌+ℤ◌, ◌-ℤ◌, ◌*ℤ◌}
use jansan.Common.Words.{
  word, signed, swap32, swap16, ntohl, ntohs, htonl, htons, IsInt, IsShort, to_int_id, ◌+i◌, ◌-i◌,
  ◌*i◌,
}

word32-lt : (z : ℤ) → word 32 z < 2 ^ 32
unfolding word
word32-lt (pos n) = omega arith
word32-lt (negsuc n) = omega arith

word16-lt : (z : ℤ) → word 16 z < 2 ^ 16
unfolding word
word16-lt (pos n) = omega arith
word16-lt (negsuc n) = omega arith

word-signed32 : (n : ℕ) → n < 2 ^ 32 → word 32 (signed (2 ^ 31) n) ≡ n
unfolding word signed
word-signed32 n h = ground arith

word-signed16 : (n : ℕ) → n < 2 ^ 16 → word 16 (signed (2 ^ 15) n) ≡ n
unfolding word signed
word-signed16 n h = ground arith

signed-word32 : (z : ℤ) → IsInt z → signed (2 ^ 31) (word 32 z) ≡ z
unfolding word signed
signed-word32 z h = ground arith

signed-word16 : (z : ℤ) → IsShort z → signed (2 ^ 15) (word 16 z) ≡ z
unfolding word signed
signed-word16 z h = ground arith

swap32-lt : (n : ℕ) → swap32 n < 2 ^ 32
unfolding swap32
swap32-lt n = omega arith

swap16-lt : (n : ℕ) → swap16 n < 2 ^ 16
unfolding swap16
swap16-lt n = omega arith

swap16-swap16 : (n : ℕ) → n < 2 ^ 16 → swap16 (swap16 n) ≡ n
unfolding swap16
swap16-swap16 n h = omega arith

swap32-swap32 : (n : ℕ) → n < 2 ^ 32 → swap32 (swap32 n) ≡ n
unfolding swap32
swap32-swap32 n h = omega arith

pub ntohl-htonl : (z : ℤ) → IsInt z → ntohl (htonl z) ≡ z
unfolding ntohl
ntohl-htonl z h =
    rw (word-signed32 (swap32 (word 32 z)) (swap32-lt (word 32 z)))
      (rw (swap32-swap32 (word 32 z) (word32-lt z)) (signed-word32 z h))

pub ntohs-htons : (z : ℤ) → IsShort z → ntohs (htons z) ≡ z
unfolding ntohs
ntohs-htons z h =
    rw (word-signed16 (swap16 (word 16 z)) (swap16-lt (word 16 z)))
      (rw (swap16-swap16 (word 16 z) (word16-lt z)) (signed-word16 z h))

pub +i_exact : (a b : ℤ) → IsInt (a +ℤ b) → a +i b ≡ a +ℤ b
unfolding ◌+i◌
+i_exact a b h = to_int_id (a +ℤ b) h

pub -i_exact : (a b : ℤ) → IsInt (a -ℤ b) → a -i b ≡ a -ℤ b
unfolding ◌-i◌
-i_exact a b h = to_int_id (a -ℤ b) h

pub *i_exact : (a b : ℤ) → IsInt (a *ℤ b) → a *i b ≡ a *ℤ b
unfolding ◌*i◌
*i_exact a b h = to_int_id (a *ℤ b) h
