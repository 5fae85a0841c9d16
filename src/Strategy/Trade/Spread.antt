-- ===== src/Strategy/Trade/Spread.antt =====
-- TRADE_CONFIRMATION_TR of OrderServer-20151216-AtHome/src/StrategyClass.cpp: what a fill of leg 1
-- does to a strategy that trades legs 2 and 3 against leg 1.
use jansan.Common.{
  ℕ, ◌+◌, ◌-◌, ◌*◌, ◌^◌, ◌≤◌, ◌<◌, ◌≡◌, ap, sym, ◌∙◌, ℤ, subst, Bool, true, false, List, ◌++◌,
  arith,
}
use jansan.Messages.{PfHolder, TradeConfirmTr, NearMonthPacket}
use jansan.Strategy.{Strategy, World, Holders}
use jansan.Strategy.Trade.{FloatHit, count_far, is_create_fill, leg3_side, trade_far}
use jansan.Strategy.Trade.Amounts.{
  leg2, leg3, Leg, hedged_on, traded_on, hit_ratio, IsExact, Hedges, IsFill, count_far-Hedges,
  hit_qty-Hedges,
}
use jansan.Strategy.Trade.Orders.{
  ordered, side_of, Kept, Sends, trade_far-Sends, leg2_side-side_of, leg3_side-side_of,
}

-- A strategy whose leg 1 has traded n lots of b units on a side, with m2 lots of leg 2 and m3 lots
-- of leg 3 against them, and whose sides are those of its subscription. One lot of leg 1 wants k2
-- of leg 2 and k3 of leg 3; without a third leg, m3 and k3 are 0.
pub record IsSpread (side : Bool) (s : Strategy) (n b m2 k2 d2 m3 k3 d3 : ℕ) : Type 0 where
  pub second : Hedges leg2 side s n m2 b k2 d2
  pub third : Hedges leg3 side s n m3 b k3 d3
  pub agree : s.sides.create ≡ s.fo_pair_obj.token_far_side

-- The market orders of a strategy for p units of leg 2 and q units of leg 3; none for 0.
abbrev pub hedges : Bool → Strategy → ℕ → ℕ → List PfHolder
hedges side s p q =
    ordered s.holders.pf_mkt_sell s.nm_pack.near_month_market (side_of leg2 side s) p
    ++ ordered s.holders.pf_mkt_sell2 s.nm_pack.near_month_market2 (side_of leg3 side s) q

-- What is not the count of leg 1 and the rest of its order stays.
pub count_far_kept :
    (t : TradeConfirmTr) (s : Strategy)
    → ((count_far t s).nm_pack ≡ s.nm_pack)
      × ((count_far t s).sides ≡ s.sides)
      × ((count_far t s).holders ≡ s.holders)
      × ((count_far t s).fo_pair_obj ≡ s.fo_pair_obj)
unfolding count_far
count_far_kept t s = (ground arith, ground arith, ground arith, ground arith)

pub is_create_fill-congr :
    (side : Bool) (t : TradeConfirmTr) (s u : Strategy)
    → u.fo_pair_obj ≡ s.fo_pair_obj
    → is_create_fill t s ≡ side
    → is_create_fill t u ≡ side
is_create_fill-congr side t s u e h = rw e h

side_of-congr :
    (leg : Leg) (side : Bool) (s u : Strategy)
    → u.sides ≡ s.sides
    → side_of leg side u ≡ side_of leg side s
side_of-congr leg2 true s u e = ap (λ x. x.create_leg2) e
side_of-congr leg2 false s u e = ap (λ x. x.reverse_leg2) e
side_of-congr leg3 true s u e = ap (λ x. x.create_leg3) e
side_of-congr leg3 false s u e = ap (λ x. x.reverse_leg3) e

Hedges-Kept :
    (leg : Leg) (side : Bool) (s u : Strategy) (n m b k d : ℕ)
    → Kept s u
    → Hedges leg side s n m b k d
    → Hedges leg side u n m b k d
Hedges-Kept leg side s u n m b k d e h = record {
  traded = traded_congr side ∙ h.traded;
  hedged = hedged_congr leg side ∙ h.hedged;
  lot = e.lot ∙ h.lot;
  ratio = ratio_congr leg ∙ h.ratio;
  lot_pos = h.lot_pos;
  den_pos = h.den_pos;
  ratio_lt = h.ratio_lt;
}
  where
    traded_congr : (side : Bool) → traded_on side u ≡ traded_on side s
    traded_congr true = ap (λ c. c.buy_trade) e.counters
    traded_congr false = ap (λ c. c.sell_trade) e.counters

    hedged_congr : (leg : Leg) (side : Bool) → hedged_on leg side u ≡ hedged_on leg side s
    hedged_congr leg2 true = ap (λ c. c.buy_leg2) e.counters
    hedged_congr leg2 false = ap (λ c. c.sell_leg2) e.counters
    hedged_congr leg3 true = ap (λ c. c.buy_leg3) e.counters
    hedged_congr leg3 false = ap (λ c. c.sell_leg3) e.counters

    ratio_congr : (leg : Leg) → hit_ratio leg u ≡ hit_ratio leg s
    ratio_congr leg2 = e.ratio2
    ratio_congr leg3 = e.ratio3

pub hedges-Kept :
    (side : Bool) (s u : Strategy) (p q : ℕ) → Kept s u → hedges side u p q ≡ hedges side s p q
hedges-Kept side s u p q k =
    let two =
      ap (λ x. ordered u.holders.pf_mkt_sell x.near_month_market (side_of leg2 side u) p) k.packs
      ∙ ap (λ x. ordered u.holders.pf_mkt_sell s.nm_pack.near_month_market x p)
          (side_of-congr leg2 side s u k.sides)
      ∙ k.holder2 s.nm_pack.near_month_market (side_of leg2 side s) p in
    let three =
      ap (λ x. ordered u.holders.pf_mkt_sell2 x.near_month_market2 (side_of leg3 side u) q) k.packs
      ∙ ap (λ x. ordered u.holders.pf_mkt_sell2 s.nm_pack.near_month_market2 x q)
          (side_of-congr leg3 side s u k.sides)
      ∙ k.holder3 s.nm_pack.near_month_market2 (side_of leg3 side s) q in
    ap
      (λ ds.
        ds ++ ordered u.holders.pf_mkt_sell2 u.nm_pack.near_month_market2 (side_of leg3 side u) q)
      two
    ∙ ap (◌++◌ (ordered s.holders.pf_mkt_sell s.nm_pack.near_month_market (side_of leg2 side s) p))
        three

pub hedges-count_far :
    (side : Bool) (t : TradeConfirmTr) (s : Strategy) (p q : ℕ)
    → hedges side (count_far t s) p q ≡ hedges side s p q
hedges-count_far side t s p q =
    let (packs, sides, holders, _) = count_far_kept t s in
    let c : Strategy = count_far t s in
    let O = λ (h : Holders) (n : NearMonthPacket) (two three : ℤ).
      ordered h.pf_mkt_sell n.near_month_market two p
      ++ ordered h.pf_mkt_sell2 n.near_month_market2 three q in
    ap (λ h. O h c.nm_pack (side_of leg2 side c) (side_of leg3 side c)) holders
    ∙ ap (λ n. O s.holders n (side_of leg2 side c) (side_of leg3 side c)) packs
    ∙ ap (λ x. O s.holders s.nm_pack x (side_of leg3 side c)) (side_of-congr leg2 side s c sides)
    ∙ ap (λ x. O s.holders s.nm_pack (side_of leg2 side s) x) (side_of-congr leg3 side s c sides)

module _ (side : Bool) (b m2 k2 d2 m3 k3 d3 : ℕ) where
  abbrev Spread : Strategy → ℕ → Type 0
  Spread s n = IsSpread side s n b m2 k2 d2 m3 k3 d3

  count_far-IsSpread :
      (t : TradeConfirmTr) (s : Strategy) (n x : ℕ)
      → Spread s n
      → IsFill side t s x b
      → b < 2 ^ 31
      → n + x < 2 ^ 15
      → x * b < 2 ^ 31
      → Spread (count_far t s) (n + x)
  count_far-IsSpread t s n x h f hb hn hx =
      let (_, sides, _, pair) = count_far_kept t s in
      record {
        second = count_far-Hedges leg2 side t s n m2 b k2 d2 x h.second f hn hb hx;
        third = count_far-Hedges leg3 side t s n m3 b k3 d3 x h.third f hn hb hx;
        agree = ap (λ a. a.create) sides ∙ h.agree ∙ ap (λ a. a.token_far_side) (sym pair);
      }

  Kept-IsSpread : (s u : Strategy) (n : ℕ) → Kept s u → Spread s n → Spread u n
  Kept-IsSpread s u n e h = record {
    second = Hedges-Kept leg2 side s u n m2 b k2 d2 e h.second;
    third = Hedges-Kept leg3 side s u n m3 b k3 d3 e h.third;
    agree = ap (λ a. a.create) e.sides ∙ h.agree ∙ ap (λ a. a.token_far_side) (sym e.pair);
  }

  -- A fill orders, of each leg, what it lacks, and the strategy is in the same state but for the count.
  pub trade_far-IsSpread :
      (hit : FloatHit) (t : TradeConfirmTr) (w : World) (n x : ℕ)
      → IsExact hit
      → Spread w.stg n
      → IsFill side t w.stg x b
      → b < 2 ^ 31
      → n + x < 2 ^ 15
      → x * b < 2 ^ 31
      → m2 ≤ (n + x) * k2
      → m3 ≤ (n + x) * k3
      → (n + x) * k2 * b < 2 ^ 24
      → (n + x) * k3 * b < 2 ^ 24
      → Sends
          (record w { stg = count_far t w.stg })
          (trade_far hit t w)
          (hedges side w.stg ((n + x) * k2 * b - m2 * b) ((n + x) * k3 * b - m3 * b))
        × Spread (trade_far hit t w).stg (n + x)
  trade_far-IsSpread hit t w n x exact h f hb hn hx hm2 hm3 h2 h3 =
      let s : Strategy = count_far t w.stg in
      let p : ℕ = (n + x) * k2 * b - m2 * b in
      let q : ℕ = (n + x) * k3 * b - m3 * b in
      let h1 : Spread s (n + x) = count_far-IsSpread t w.stg n x h f hb hn hx in
      let kept = count_far_kept t w.stg in
      let on = is_create_fill-congr side t w.stg s kept.3 f.on_side in
      let two = hit_qty-Hedges leg2 side hit t s (n + x) m2 b k2 d2 exact h1.second on hm2 h2 in
      let three = hit_qty-Hedges leg3 side hit t s (n + x) m3 b k3 d3 exact h1.third on hm3 h3 in
      let sent = trade_far-Sends hit t w p q two three in
      let O = λ (x y : ℤ).
        ordered s.holders.pf_mkt_sell s.nm_pack.near_month_market x p
        ++ ordered s.holders.pf_mkt_sell2 s.nm_pack.near_month_market2 y q in
      let same =
        ap (λ x. O x (leg3_side t s)) (leg2_side-side_of side t s h1.agree on)
        ∙ ap (λ y. O (side_of leg2 side s) y) (leg3_side-side_of side t s h1.agree on)
        ∙ hedges-count_far side t w.stg p q in
      (
        subst (λ ds. Sends (record w { stg = s }) (trade_far hit t w) ds) same sent,
        Kept-IsSpread s (trade_far hit t w).stg (n + x) sent.kept h1,
      )
