-- ===== src/Common/Words.antt =====
-- The machine's integers. A C++ `int`, `short` or `unsigned` is the integer that it stands for; the
-- conversions below write the wrap-around out. The host is little-endian, so that `ntohl`, `htonl`,
-- `ntohs` and `htons` reverse the bytes.
pub mod Bytes
use jansan.Common.{
  ℕ, ◌+◌, ◌-◌, ◌*◌, ◌/◌, ◌%◌, ◌^◌, ◌≤◌, ◌<◌, ◌≡◌, arith, ltb, if◌then◌else◌, ℤ, pos, negsuc,
  pos_part, neg_part, ◌+ℤ◌, ◌-ℤ◌, ◌*ℤ◌, ltb_ℤ,
}

-- The bit pattern of an integer at the width w: its residue modulo 2 ^ w.
unfoldable pub word : ℕ → ℤ → ℕ
word w (pos n) = n % 2 ^ w
word w (negsuc n) = 2 ^ w - 1 - n % 2 ^ w

-- The signed integer that a bit pattern stands for; `half` is 2 ^ (w - 1).
unfoldable pub signed : ℕ → ℕ → ℤ
signed half n = if ltb n half then pos n else negsuc (half + half - n - 1)

unfoldable pub to_int : ℤ → ℤ
unfolding word signed
to_int z = signed (2 ^ 31) (word 32 z)

unfoldable pub to_short : ℤ → ℤ
unfolding word signed
to_short z = signed (2 ^ 15) (word 16 z)

abbrev pub IsInt : ℤ → Type 0
IsInt z = (pos_part z < 2 ^ 31) × (neg_part z ≤ 2 ^ 31)

abbrev pub IsShort : ℤ → Type 0
IsShort z = (pos_part z < 2 ^ 15) × (neg_part z ≤ 2 ^ 15)

pub to_int_id : (z : ℤ) → IsInt z → to_int z ≡ z
unfolding to_int
to_int_id z h = ground arith

pub to_short_id : (z : ℤ) → IsShort z → to_short z ≡ z
unfolding to_short
to_short_id z h = ground arith

-- Arithmetic on `int`.
infixl 65 ◌+i◌ ◌-i◌
infixl 70 ◌*i◌
unfoldable pub ◌+i◌ : ℤ → ℤ → ℤ
unfolding to_int ◌+ℤ◌
a +i b = to_int (a +ℤ b)

unfoldable pub ◌-i◌ : ℤ → ℤ → ℤ
unfolding to_int ◌-ℤ◌
a -i b = to_int (a -ℤ b)

unfoldable pub ◌*i◌ : ℤ → ℤ → ℤ
unfolding to_int ◌*ℤ◌
a *i b = to_int (a *ℤ b)

-- `abs` on `int`.
unfoldable pub abs : ℤ → ℤ
unfolding to_int
abs (pos n) = pos n
abs (negsuc n) = to_int (pos (n + 1))

unfoldable pub min : ℤ → ℤ → ℤ
min a b = if ltb_ℤ b a then b else a

-- The bytes of a 32-bit and of a 16-bit word in the other order.
unfoldable pub swap32 : ℕ → ℕ
swap32 n = n % 256 * 2 ^ 24 + n / 256 % 256 * 2 ^ 16 + n / 2 ^ 16 % 256 * 256 + n / 2 ^ 24 % 256

unfoldable pub swap16 : ℕ → ℕ
swap16 n = n % 256 * 256 + n / 256 % 256

unfoldable pub ntohl : ℤ → ℤ
unfolding word signed swap32
ntohl z = signed (2 ^ 31) (swap32 (word 32 z))

unfoldable pub ntohs : ℤ → ℤ
unfolding word signed swap16
ntohs z = signed (2 ^ 15) (swap16 (word 16 z))

-- `htonl` and `htons` are the same functions.
abbrev pub htonl : ℤ → ℤ
htonl = ntohl

abbrev pub htons : ℤ → ℤ
htons = ntohs
