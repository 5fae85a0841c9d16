-- ===== src/Strategy/Prices.antt =====
-- The prices of OnDataEventHandler in src/StrategyClass.cpp: what arrives, what the strategy computes
-- from it, and when a new order may go out.
use jansan.Common.{Bool, true, false, not, ◌&&◌, ℤ, pos, negsuc, ◌=?ℤ◌, ltb_ℤ, leb_ℤ, if◌then◌else◌}
use jansan.Common.Words.{◌+i◌, ◌-i◌, ◌*i◌, abs}
use jansan.Messages.{
  OrderStatus, idle, pending, replaced, open_, cancel, rejected, trade, FinalPrice, buy, best,
  depth,
}
use jansan.Strategy.{Strategy, Products}

abbrev pub is_positive : ℤ → Bool
is_positive z = ltb_ℤ (pos 0) z

-- MultipleValue
abbrev pub multiple_value : ℤ → ℤ
multiple_value side = if side =?ℤ buy then negsuc 0 else pos 1

-- The price at which one joins the own side of a book, and the one at which one hits the other.
abbrev join_price : ℤ → FinalPrice → ℤ
join_price side fp = if side =?ℤ buy then fp.max_bid else fp.min_ask

abbrev market_price : ℤ → FinalPrice → ℤ
market_price side fp = if side =?ℤ buy then fp.min_ask else fp.max_bid

abbrev receive_far : FinalPrice → Strategy → Strategy
receive_far fp s = record s {
  feeds = record (s.feeds) { far_fp = fp };
  leg_prices = record (s.leg_prices) {
    leg1_best_create = join_price s.sides.create fp;
    leg1_best_reverse = join_price s.sides.reverse fp;
  };
}

abbrev receive_near : FinalPrice → Strategy → Strategy
receive_near fp s = record s {
  feeds = record (s.feeds) { near_fp = fp };
  leg_prices = record (s.leg_prices) {
    leg2_mkt_create = market_price s.sides.create_leg2 fp;
    leg2_mkt_reverse = market_price s.sides.reverse_leg2 fp;
  };
}

abbrev receive_third : FinalPrice → Strategy → Strategy
receive_third fp s = record s {
  feeds = record (s.feeds) { third_fp = fp };
  leg_prices = record (s.leg_prices) {
    leg3_mkt_create = market_price s.sides.create_leg3 fp;
    leg3_mkt_reverse = market_price s.sides.reverse_leg3 fp;
  };
}

-- A price counts for the first leg with its token, if both of its sides are there.
unfoldable pub receive : FinalPrice → Strategy → Strategy
receive fp s =
    if is_positive fp.max_bid && is_positive fp.min_ask
    then (if s.feeds.far_fp.token =?ℤ fp.token
        then receive_far fp s
        else if s.feeds.near_fp.token =?ℤ fp.token
        then receive_near fp s
        else if s.feeds.third_fp.token =?ℤ fp.token
        then receive_third fp s
        else s)
    else s

-- Legs 1 and 2 have prices, and the board lot is known.
abbrev pub is_priced : Strategy → Bool
is_priced s =
    is_positive s.feeds.far_fp.min_ask
    && is_positive s.feeds.far_fp.max_bid
    && is_positive s.feeds.near_fp.max_bid
    && is_positive s.feeds.near_fp.min_ask
    && is_positive s.blq

abbrev pub lacks_third : Strategy → Bool
lacks_third s =
    is_positive s.feeds.third_fp.token
    && leb_ℤ s.feeds.third_fp.min_ask (pos 0)
    && leb_ℤ s.feeds.third_fp.max_bid (pos 0)

unfoldable pub products_of : Strategy → Products
products_of s =
    let p = s.leg_prices in
    let r = s.ratios in
    let is_best = s.instance_group =?ℤ best in
    let leg1_create = (if is_best then p.leg1_best_create else p.leg1_best_reverse) in
    let leg1_reverse = (if is_best then p.leg1_best_reverse else p.leg1_best_create) in
    let first_buy = leg1_create *i r.token1 *i multiple_value s.sides.create in
    let second_buy = p.leg2_mkt_create *i multiple_value s.sides.create_leg2 in
    let third_buy = p.leg3_mkt_create *i multiple_value s.sides.create_leg3 in
    let first_sell = leg1_reverse *i r.token1 *i multiple_value s.sides.reverse in
    let second_sell = p.leg2_mkt_reverse *i multiple_value s.sides.reverse_leg2 in
    let third_sell = p.leg3_mkt_reverse *i multiple_value s.sides.reverse_leg3 in
    record {
      first_buy = first_buy;
      second_buy = second_buy;
      third_buy = third_buy;
      first_sell = first_sell;
      second_sell = second_sell;
      third_sell = third_sell;
      asks_difference = first_sell +i second_sell *i r.token2 +i third_sell *i r.token3;
      bids_difference = first_buy +i second_buy *i r.token2 +i third_buy *i r.token3;
    }

-- TRADE, CANCEL, REJECTED or NONE: no order rests on the exchange.
abbrev pub is_free : OrderStatus → Bool
is_free idle = true
is_free pending = false
is_free replaced = false
is_free open_ = false
is_free cancel = true
is_free rejected = true
is_free trade = true

-- OPEN or REPLACED.
abbrev pub is_resting : OrderStatus → Bool
is_resting idle = false
is_resting pending = false
is_resting replaced = true
is_resting open_ = true
is_resting cancel = false
is_resting rejected = false
is_resting trade = false

abbrev pub may_sell : Strategy → Bool
may_sell s =
    is_free s.sell_far_status
    && not (s.limits.bnsf_diff =?ℤ pos 0)
    && is_positive s.limits.bnsf_mnq
    && is_positive s.limits.bnsf_mxq
    && ltb_ℤ s.counters.sell_trade s.ratios.token1_max_reverse
    && not s.cancel_sell_order

abbrev pub may_buy : Strategy → Bool
may_buy s =
    is_free s.buy_far_status
    && not (s.limits.bfsn_diff =?ℤ pos 0)
    && is_positive s.limits.bfsn_mnq
    && is_positive s.limits.bfsn_mxq
    && ltb_ℤ s.counters.buy_trade s.ratios.token1_max_create
    && not s.cancel_buy_order

-- The price of a quote that crosses the other legs, in the group Depth.
unfoldable pub depth_sell_rate : Strategy → ℤ
depth_sell_rate s = abs (s.products.second_sell +i s.products.third_sell +i s.limits.bnsf_diff)

unfoldable pub depth_buy_rate : Strategy → ℤ
depth_buy_rate s = abs (s.products.second_buy +i s.products.third_buy +i s.limits.bfsn_diff)

-- dFarMonthSellRate; 0 where no order is placed.
unfoldable pub far_month_sell_rate : Strategy → ℤ
far_month_sell_rate s =
    let wanted = abs s.limits.bnsf_diff in
    let market = abs s.products.asks_difference in
    if s.instance_group =?ℤ best
    then (if ltb_ℤ wanted market
        then s.leg_prices.leg1_best_reverse -i pos 5
        else if wanted =?ℤ market
        then s.leg_prices.leg1_best_reverse
        else pos 0)
    else if s.instance_group =?ℤ depth
    then depth_sell_rate s
    else pos 0

-- dFarMonthBuyRate
unfoldable pub far_month_buy_rate : Strategy → ℤ
far_month_buy_rate s =
    let wanted = abs s.limits.bfsn_diff in
    let market = abs s.products.bids_difference in
    if s.instance_group =?ℤ best
    then (if ltb_ℤ market wanted
        then s.leg_prices.leg1_best_create +i pos 5
        else if wanted =?ℤ market
        then s.leg_prices.leg1_best_create
        else pos 0)
    else if s.instance_group =?ℤ depth
    then depth_buy_rate s
    else pos 0
