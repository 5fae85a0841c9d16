-- ===== src/Queue/Hash.antt =====
-- MyHash<StructHash> of OrderServer-20151216-AtHome/include/StaticClass.h, with StructHash of
-- include/Enums.h. `std::hash` of a number is a parameter.
use Prim.Native.Nat.{bit_xor}
use jansan.Common.{ℕ, ◌*◌, ◌%◌, ◌^◌, ℤ}

pub record StructHash : Type 0 where
  pub token1 : ℤ
  pub token2 : ℤ
  pub token3 : ℤ
  pub price1 : ℤ
  pub price2 : ℤ
  pub price3 : ℤ
  pub qty1 : ℤ
  pub qty2 : ℤ
  pub qty3 : ℤ
  pub side1 : ℤ
  pub side2 : ℤ
  pub side3 : ℤ

infixl 30 ◌xor◌
abbrev ◌xor◌ : ℕ → ℕ → ℕ
a xor b = bit_xor a b

-- A `size_t` has 64 bits.
unfoldable pub my_hash : (ℤ → ℕ) → StructHash → ℕ
my_hash hash s =
    hash s.token1
    xor hash s.token2
    xor hash s.token3
    xor hash s.price1
    xor hash s.price2
    xor hash s.price3
    xor hash s.qty1
    xor hash s.qty2
    xor hash s.qty3
    xor hash s.side1
    xor hash s.side2
    xor (hash s.side3 * 2 % 2 ^ 64)
