-- ===== src/Tag.antt =====
-- StrategyClass::concat and the subscription tag that OnSubscriptionEventHandler builds with it
-- (OrderServer-20151216-AtHome/src/StrategyClass.cpp); `concat` of Depth Data 20151224/main.cpp is
-- the same function. A `long long` has 64 bits.
pub mod Digits
pub mod Tests
use mathlib.Core.WellFounded.{Acc, WellFounded}
use mathlib.Core.Logic.{dite}
use native.Mathlib.Decide.{dec_lt}
use jansan.Common.{
  ℕ, zero, suc, ◌+◌, ◌/◌, ◌^◌, ◌<◌, ◌≡◌, arith, ℤ, pos, negsuc, pos_part, neg_part, ◌+ℤ◌, ◌*ℤ◌,
}
use jansan.Common.Words.{word, signed, to_short}

Acc-below : (k n : ℕ) → n < k → Acc ◌<◌ n
Acc-below zero n h = elim h [ ]
Acc-below (suc k) n h = Acc.intro n (λ m hm. Acc-below k m (omega arith))

unfoldable pub lt_wf : WellFounded ◌<◌
unfolding Acc-below
lt_wf = record { apply = λ n. Acc-below (suc n) n (omega arith) }

unfoldable pub to_long : ℤ → ℤ
to_long z = signed (2 ^ 63) (word 64 z)

-- The loop: one more factor of ten for each round in which `y`, of which only the magnitude counts,
-- is not 0.
unfoldable pub pad : (x : ℤ) (y : ℕ) → Acc ◌<◌ y → ℤ
pad x y (Acc.intro _ smaller) =
    dite (dec_lt 0 y) (λ h. pad (to_long (x *ℤ pos 10)) (y / 10) (smaller (y / 10) (omega arith)))
      (λ _. x)

unfoldable pub concat : ℤ → ℤ → ℤ
concat x y = let n = pos_part y + neg_part y in to_long (pad x n (lt_wf.apply n) +ℤ y)

-- eORDER of enum MessageType.
abbrev pub e_order : ℤ
e_order = pos 65

-- The tag of a portfolio of a client.
unfoldable pub subscription_tag : ℤ → ℤ → ℤ
subscription_tag cid pf = concat (concat e_order cid) (to_short pf)
