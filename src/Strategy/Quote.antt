-- ===== src/Strategy/Quote.antt =====
-- OnDataEventHandler of src/StrategyClass.cpp: a price arrives, and the strategy places, moves or
-- withdraws its two orders of leg 1.
pub mod BuyPrices
pub mod SellPrices
pub mod BuyMoves
pub mod SellMoves
pub mod Silence
pub mod Lots
use jansan.Common.{Bool, true, false, not, ◌&&◌, ◌||◌, ℤ, pos, ◌=?ℤ◌, ltb_ℤ, if◌then◌else◌}
use jansan.Common.Words.{◌+i◌, ◌-i◌, ◌*i◌, abs, min, ntohl}
use jansan.Messages.{pending, FinalPrice, best, depth}
use jansan.Strategy.{Strategy, World}
use jansan.Strategy.Prices.{
  is_positive, receive, is_priced, lacks_third, products_of, is_resting, may_sell, may_buy,
  depth_sell_rate, depth_buy_rate, far_month_sell_rate, far_month_buy_rate,
}
use jansan.Strategy.Orders.{
  board_lot_in_tr_buy, board_lot_in_tr_sell, order_mod_in_tr_cr, order_mod_in_tr_rv,
  order_cancel_in_tr,
}

-- The number of lots of a new order: what the client wants of one order, or what is left to trade.
unfoldable pub sell_lots : Strategy → ℤ
sell_lots s = min s.ratios.token1_min_reverse (s.ratios.token1_max_reverse -i s.counters.sell_trade)

unfoldable pub buy_lots : Strategy → ℤ
buy_lots s = min s.ratios.token1_min_create (s.ratios.token1_max_create -i s.counters.buy_trade)

unfoldable pub place_sell : World → World
place_sell w =
    let s = w.stg in
    let rate = far_month_sell_rate s in
    if is_positive rate && ltb_ℤ s.leg_prices.leg1_best_create s.leg_prices.leg1_best_reverse
    then (let sent =
          board_lot_in_tr_sell s.sides.reverse (ntohl (sell_lots s *i s.blq)) (ntohl rate)
            s.holders.pf_sell (record w { stg = record s { sell_far_status = pending } }) in
        record sent { stg = record (sent.stg) { sell_mod_quote_rate = rate } })
    else w

unfoldable pub place_buy : World → World
place_buy w =
    let s = w.stg in
    let rate = far_month_buy_rate s in
    if is_positive rate && ltb_ℤ s.leg_prices.leg1_best_create s.leg_prices.leg1_best_reverse
    then (let sent =
          board_lot_in_tr_buy s.sides.create (ntohl (buy_lots s *i s.blq)) (ntohl rate)
            s.holders.pf_buy (record w { stg = record s { buy_far_status = pending } }) in
        record sent { stg = record (sent.stg) { buy_mod_quote_rate = rate } })
    else w

unfoldable pub cancel_sell : World → World
cancel_sell w =
    order_cancel_in_tr w.stg.sides.reverse
      (record w { stg = record (w.stg) { sell_far_status = pending } })

unfoldable pub cancel_buy : World → World
cancel_buy w =
    order_cancel_in_tr w.stg.sides.create
      (record w { stg = record (w.stg) { buy_far_status = pending } })

unfoldable pub move_sell : World → World
move_sell w =
    let s = w.stg in
    let wanted = abs s.limits.bnsf_diff in
    let market = abs s.products.asks_difference in
    if s.instance_group =?ℤ best
    then (if ltb_ℤ wanted market && not s.cancel_sell_order
        then order_mod_in_tr_rv (s.leg_prices.leg1_best_reverse -i pos 5) s.sides.reverse w
        else if wanted =?ℤ market && not s.cancel_sell_order
        then order_mod_in_tr_rv s.leg_prices.leg1_best_reverse s.sides.reverse w
        else if ltb_ℤ market wanted || s.cancel_sell_order
        then cancel_sell w
        else w)
    else if s.instance_group =?ℤ depth
    then (if s.cancel_sell_order
        then cancel_sell w
        else order_mod_in_tr_rv (depth_sell_rate s) s.sides.reverse w)
    else w

unfoldable pub move_buy : World → World
move_buy w =
    let s = w.stg in
    let wanted = abs s.limits.bfsn_diff in
    let market = abs s.products.bids_difference in
    if s.instance_group =?ℤ best
    then (if ltb_ℤ market wanted && not s.cancel_buy_order
        then order_mod_in_tr_cr (s.leg_prices.leg1_best_create +i pos 5) s.sides.create w
        else if wanted =?ℤ market && not s.cancel_buy_order
        then order_mod_in_tr_cr s.leg_prices.leg1_best_create s.sides.create w
        else if ltb_ℤ wanted market || s.cancel_buy_order
        then cancel_buy w
        else w)
    else if s.instance_group =?ℤ depth
    then (if s.cancel_buy_order
        then cancel_buy w
        else order_mod_in_tr_cr (depth_buy_rate s) s.sides.create w)
    else w

unfoldable pub quote_sell : World → World
quote_sell w =
    if w.stg.cancel_sell_order
    then w
    else if may_sell w.stg
    then place_sell w
    else if is_resting w.stg.sell_far_status
    then move_sell w
    else w

unfoldable pub quote_buy : World → World
quote_buy w =
    if w.stg.cancel_buy_order
    then w
    else if may_buy w.stg
    then place_buy w
    else if is_resting w.stg.buy_far_status
    then move_buy w
    else w

abbrev with_lock : Bool → World → World
with_lock held w = record w { stg = record (w.stg) { count_mutex = held } }

-- `pthread_mutex_trylock` does not wait, and its result is not looked at: afterwards the mutex is held,
-- by this thread or by another. The return for a missing third price leaves it held.
unfoldable pub on_data : FinalPrice → World → World
on_data fp w =
    if w.stg.feeds.far_fp.token =?ℤ pos 0 && w.stg.feeds.near_fp.token =?ℤ pos 0
    then w
    else (let got = record w { stg = receive fp (record (w.stg) { count_mutex = true }) } in
        if is_priced got.stg
        then (if lacks_third got.stg
            then got
            else (let priced = record got {
              stg = record (got.stg) { products = products_of got.stg };
            } in
                with_lock false (quote_buy (quote_sell priced))))
        else with_lock false got)
