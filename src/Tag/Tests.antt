-- ===== src/Tag/Tests.antt =====
-- Tags of OrderServer-20151216-AtHome/src/StrategyClass.cpp, for the clients 1 and 12.
use jansan.Common.{ℕ, ◌≡◌, ◌≢◌, refl, arith, pos}
use jansan.Tag.{subscription_tag}
use jansan.Tag.Digits.{subscription_tag-collides}

-- Portfolio 23 of client 1 and portfolio 3 of client 12.
subscription_tag-collides_example :
    (subscription_tag (pos 1) (pos 23) ≡ subscription_tag (pos 12) (pos 3))
    × (◌≢◌ {A = ℕ} 1 12)
    × (◌≢◌ {A = ℕ} 23 3)
subscription_tag-collides_example =
    subscription_tag-collides 1 1 2 3 (omega arith, refl) (omega arith) (omega arith) (omega arith)
      (omega arith) (omega arith)
