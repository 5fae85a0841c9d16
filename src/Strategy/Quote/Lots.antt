-- ===== src/Strategy/Quote/Lots.antt =====
-- How many lots a new order of leg 1 has (OnDataEventHandler of
-- OrderServer-20151216-AtHome/src/StrategyClass.cpp).
use jansan.Common.{
  ℕ, ◌+◌, ◌-◌, ◌<◌, ◌≤◌, ◌^◌, ◌≡◌, refl, sym, subst, arith, true, false, ℤ, pos, ltb_ℤ, if_intro,
}
use jansan.Common.Words.{◌-i◌, min}
use jansan.Strategy.{Strategy}
use jansan.Strategy.Prices.{may_buy, may_sell}
use jansan.Strategy.Quote.{buy_lots, sell_lots}
use jansan.Strategy.Trade.Amounts.{int_sub_small}

-- The lots of an order: at least one, no more than one order may have, and with what has traded no more
-- than the client's maximum.
abbrev pub Fits : ℤ → ℕ → ℕ → ℕ → Type 0
Fits lots l x b = (q : ℕ) × ((lots ≡ pos q) × (0 < q) × (q ≤ l) × (b + q ≤ x))

lt_pos : (b x : ℕ) → ltb_ℤ (pos b) (pos x) ≡ true → b < x
lt_pos b x h = ground arith

small : (a l : ℕ) → ltb_ℤ (pos a) (pos l) ≡ true → a ≤ l
small a l h = ground arith

big : (l x b : ℕ) → ltb_ℤ (pos (x - b)) (pos l) ≡ false → b < x → b + l ≤ x
big l x b h hb = ground arith

min-Fits : (l x b : ℕ) → 0 < l → b < x → x < 2 ^ 31 → Fits (min (pos l) (pos x -i pos b)) l x b
unfolding min
min-Fits l x b hl hb hx =
    subst (λ z. Fits (min (pos l) z) l x b) (sym (int_sub_small x b (omega arith) hx))
      (if_intro (λ z. Fits z l x b) (ltb_ℤ (pos (x - b)) (pos l))
        (λ lt. (x - b, (refl, omega arith, small (x - b) l lt, omega arith)))
        λ ge. (l, (refl, hl, omega arith, big l x b ge hb)))

may_buy-lt :
    (s : Strategy) → may_buy s ≡ true → ltb_ℤ s.counters.buy_trade s.ratios.token1_max_create ≡ true
may_buy-lt s h = ground arith

may_sell-lt :
    (s : Strategy)
    → may_sell s ≡ true
    → ltb_ℤ s.counters.sell_trade s.ratios.token1_max_reverse ≡ true
may_sell-lt s h = ground arith

-- When a strategy may place a buy order of leg 1, the order has at least one lot and no more than one
-- order may have, and with the lots already bought it stays within the client's maximum.
pub buy_lots-Fits :
    (s : Strategy) (l x b : ℕ)
    → may_buy s ≡ true
    → s.ratios.token1_min_create ≡ pos l
    → s.ratios.token1_max_create ≡ pos x
    → s.counters.buy_trade ≡ pos b
    → 0 < l
    → x < 2 ^ 31
    → Fits (buy_lots s) l x b
unfolding buy_lots
buy_lots-Fits s l x b may el ex eb hl hx =
    rw (el, ex, eb) (min-Fits l x b hl (lt_pos b x (rw (eb, ex) at (may_buy-lt s may))) hx)

-- When a strategy may place a sell order of leg 1, the order has at least one lot and no more than one
-- order may have, and with the lots already sold it stays within the client's maximum.
sell_lots-Fits :
    (s : Strategy) (l x b : ℕ)
    → may_sell s ≡ true
    → s.ratios.token1_min_reverse ≡ pos l
    → s.ratios.token1_max_reverse ≡ pos x
    → s.counters.sell_trade ≡ pos b
    → 0 < l
    → x < 2 ^ 31
    → Fits (sell_lots s) l x b
unfolding sell_lots
sell_lots-Fits s l x b may el ex eb hl hx =
    rw (el, ex, eb) (min-Fits l x b hl (lt_pos b x (rw (eb, ex) at (may_sell-lt s may))) hx)
