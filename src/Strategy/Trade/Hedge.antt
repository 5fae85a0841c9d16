-- ===== src/Strategy/Trade/Hedge.antt =====
-- TRADE_CONFIRMATION_TR of OrderServer-20151216-AtHome/src/StrategyClass.cpp: how much of legs 2 and
-- 3 a fill of leg 1 makes a strategy trade.
use native.Mathlib.Nat.{mul-le-mul, le_refl}
use mathlib.Core.List.{append_assoc}
use jansan.Common.{ℕ, ◌+◌, ◌-◌, ◌*◌, ◌^◌, ◌≤◌, ◌<◌, ◌≡◌, ap, ◌∙◌, Bool, ◌++◌, arith, pos}
use jansan.Messages.{TradeConfirmTr}
use jansan.Strategy.{World}
use jansan.Strategy.Trade.{FloatHit, count_far, trade_far}
use jansan.Strategy.Trade.Amounts.{traded_on, IsExact, IsFill, le_of_add, lt_times}
use jansan.Strategy.Trade.Spread.{
  IsSpread, hedges, trade_far-IsSpread, count_far_kept, is_create_fill-congr, hedges-Kept,
  hedges-count_far,
}

-- A fill of leg 1, on either side of the spread, orders at the market, of legs 2 and 3, what each
-- lacks to be k2 and k3 times leg 1, and nothing where nothing is lacking: with the orders filled,
-- the legs are in balance. The orders go to the end of the market queue, leg 2 first, on the sides
-- that belong to the side of the fill, and the queue of bids is as before. The ratios are whole,
-- with d2 and d3 as the denominators they are written with (k2 * d2 and k3 * d3 below 2 ^ 24), no
-- leg is hedged too much already, the sides are those of the subscription, products in single
-- precision are exact on whole numbers below 2 ^ 24, the fill is x lots of b units (b and x * b
-- below 2 ^ 31), the count stays below 2 ^ 15, and the amounts below 2 ^ 24.
pub trade_far_balances :
    (side : Bool) (hit : FloatHit) (t : TradeConfirmTr) (w : World) (n b x m2 k2 d2 m3 k3 d3 : ℕ)
    → IsExact hit
    → IsSpread side w.stg n b m2 k2 d2 m3 k3 d3
    → IsFill side t w.stg x b
    → b < 2 ^ 31
    → n + x < 2 ^ 15
    → x * b < 2 ^ 31
    → m2 ≤ (n + x) * k2
    → m3 ≤ (n + x) * k3
    → (n + x) * k2 * b < 2 ^ 24
    → (n + x) * k3 * b < 2 ^ 24
    → let v = trade_far hit t w in
      (p q : ℕ) × (m2 * b + p ≡ (n + x) * k2 * b)
      × (m3 * b + q ≡ (n + x) * k3 * b)
      × (v.fill.mkt.the_queue ≡ w.fill.mkt.the_queue ++ hedges side w.stg p q)
      × (v.fill.bid ≡ w.fill.bid)
      × (traded_on side v.stg ≡ pos (n + x))
trade_far_balances side hit t w n b x m2 k2 d2 m3 k3 d3 exact h f hb hn hx hm2 hm3 h2 h3 =
    let (sent, spread) =
      trade_far-IsSpread side b m2 k2 d2 m3 k3 d3 hit t w n x exact h f hb hn hx hm2 hm3 h2 h3 in
    let two : m2 * b ≤ (n + x) * k2 * b = mul-le-mul hm2 (le_refl b) in
    let three : m3 * b ≤ (n + x) * k3 * b = mul-le-mul hm3 (le_refl b) in
    (
      (n + x) * k2 * b - m2 * b,
      (n + x) * k3 * b - m3 * b,
      omega arith,
      omega arith,
      sent.queue,
      sent.bid,
      spread.second.traded,
    )

-- Two fills of leg 1 on one side, of x and y lots, with no fill of leg 2 between them, put two
-- orders for leg 2 into the market queue, if leg 2 lacks something after the first: the second
-- order repeats the first. With both filled, leg 2 has more than k2 lots for each lot of leg 1. The
-- conditions are those of one fill, for both.
pub trade_far_overhedges :
    (side : Bool) (hit : FloatHit) (t u : TradeConfirmTr) (w : World)
    (n b x y m2 k2 d2 m3 k3 d3 : ℕ)
    → IsExact hit
    → IsSpread side w.stg n b m2 k2 d2 m3 k3 d3
    → IsFill side t w.stg x b
    → IsFill side u w.stg y b
    → b < 2 ^ 31
    → n + x + y < 2 ^ 15
    → x * b < 2 ^ 31
    → y * b < 2 ^ 31
    → m2 < (n + x) * k2
    → m3 ≤ (n + x) * k3
    → (n + x + y) * k2 * b < 2 ^ 24
    → (n + x + y) * k3 * b < 2 ^ 24
    → let v = trade_far hit u (trade_far hit t w) in
      (p q p' q' : ℕ) × (v.fill.mkt.the_queue
        ≡ w.fill.mkt.the_queue ++ (hedges side w.stg p q ++ hedges side w.stg p' q'))
      × (m2 * b + p ≡ (n + x) * k2 * b)
      × (m2 * b + p' ≡ (n + x + y) * k2 * b)
      × ((n + x + y) * k2 * b < m2 * b + p + p')
trade_far_overhedges side hit t u w n b x y m2 k2 d2 m3 k3 d3 exact h ft fu hb hn hx hy hm2 hm3 h2
      h3 =
    let two : (n + x) * k2 ≤ (n + x + y) * k2 = mul-le-mul (le_of_add (n + x) y) (le_refl k2) in
    let three : (n + x) * k3 ≤ (n + x + y) * k3 = mul-le-mul (le_of_add (n + x) y) (le_refl k3) in
    let two_b : (n + x) * k2 * b ≤ (n + x + y) * k2 * b = mul-le-mul two (le_refl b) in
    let three_b : (n + x) * k3 * b ≤ (n + x + y) * k3 * b = mul-le-mul three (le_refl b) in
    let lacks = lt_times m2 ((n + x) * k2) b hm2 h.second.lot_pos in
    let v : World = trade_far hit t w in
    let p : ℕ = (n + x) * k2 * b - m2 * b in
    let q : ℕ = (n + x) * k3 * b - m3 * b in
    let p' : ℕ = (n + x + y) * k2 * b - m2 * b in
    let q' : ℕ = (n + x + y) * k3 * b - m3 * b in
    let (sent, spread) =
      trade_far-IsSpread side b m2 k2 d2 m3 k3 d3 hit t w n x exact h ft hb (omega arith) hx
        (omega arith) hm3 (omega arith) (omega arith) in
    let pair = sent.kept.pair ∙ (count_far_kept t w.stg).3 in
    let fu' : IsFill side u v.stg y b = record {
      on_side = is_create_fill-congr side u w.stg v.stg pair fu.on_side;
      amount = fu.amount;
    } in
    let (again, _) =
      trade_far-IsSpread side b m2 k2 d2 m3 k3 d3 hit u v (n + x) y exact spread fu' hb hn hy
        (omega arith) (omega arith) h2 h3 in
    let same =
      hedges-Kept side (count_far t w.stg) v.stg p' q' sent.kept
      ∙ hedges-count_far side t w.stg p' q' in
    (
      p,
      q,
      p',
      q',
      again.queue
          ∙ ap (◌++◌ v.fill.mkt.the_queue) same
          ∙ ap (λ xs. xs ++ hedges side w.stg p' q') sent.queue
          ∙ append_assoc w.fill.mkt.the_queue (hedges side w.stg p q) (hedges side w.stg p' q'),
      omega arith,
      omega arith,
      omega arith,
    )
