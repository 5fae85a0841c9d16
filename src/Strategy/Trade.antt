-- ===== src/Strategy/Trade.antt =====
-- TRADE_CONFIRMATION_TR of src/StrategyClass.cpp: a fill of leg 1 is hedged at the market by legs 2
-- and 3, and a fill of the last leg completes the spread.
pub mod Amounts
pub mod Orders
pub mod Spread
pub mod Hedge
use jansan.Common.{
  ◌/◌, Bool, ◌&&◌, Option, none, some, ℤ, pos, ◌+ℤ◌, ◌=?ℤ◌, ltb_ℤ, if◌then◌else◌, ◌==◌,
}
use jansan.Common.Words.{word, to_int, to_short, ◌-i◌, ◌*i◌, htonl, htons, ntohl, ntohs}
use jansan.Messages.{trade, OeRequestTr, TradeConfirmTr}
use jansan.Queue.{mkt_queue}
use jansan.Strategy.{Strategy, World, Quotient}
use jansan.Strategy.Confirm.{send_pf_mkt_sell}

-- `(int)(floor(q * ratio) * blq)`, with the ratio and the product in `float`.
abbrev pub FloatHit : Type 0
FloatHit = ℤ → Quotient → ℤ → ℤ

-- `htonl(x) / BLQ`: the division is unsigned, since `htonl` returns an unsigned number.
unfoldable pub lots_of : ℤ → ℤ → ℤ
lots_of x blq = to_int (pos (word 32 (htonl x) / word 32 blq))

-- `_pfMKTSell2`, as `send_pf_mkt_sell` sends `_pfMKTSell`.
unfoldable pub send_pf_mkt_sell2 : OeRequestTr → World → World
send_pf_mkt_sell2 obj w =
    let pf = record (w.stg.holders.pf_mkt_sell2) { size = pos 136; oetr = obj } in
    record {
      stg = record (w.stg) { holders = record (w.stg.holders) { pf_mkt_sell2 = pf } };
      fill = mkt_queue pf w.fill;
    }

-- A market order for `qty` units on a side.
abbrev pub hedge_order : OeRequestTr → ℤ → ℤ → OeRequestTr
hedge_order prepared side qty = record prepared {
  buy_sell_indicator = ntohs side;
  disclosed_volume = htonl qty;
  volume = htonl qty;
}

-- The fill is on the side of leg 1 that creates the spread.
abbrev pub is_create_fill : TradeConfirmTr → Strategy → Bool
is_create_fill t s = htons t.buy_sell_indicator =?ℤ s.fo_pair_obj.token_far_side

-- Leg 1 counts the fill, and notes what is left of the order.
unfoldable pub count_far : TradeConfirmTr → Strategy → Strategy
count_far t s =
    let qty = lots_of t.fill_quantity s.blq in
    let left = lots_of t.remaining_volume s.blq in
    if is_create_fill t s
    then record s {
      counters = record (s.counters) { buy_trade = to_short (s.counters.buy_trade +ℤ qty) };
      create_remaining_qty = left;
    }
    else record s {
      counters = record (s.counters) { sell_trade = to_short (s.counters.sell_trade +ℤ qty) };
      reverse_remaining_qty = left;
    }

-- TradableQty and the two counters against which it is hedged.
abbrev pub tradable : TradeConfirmTr → Strategy → ℤ
tradable t s = if is_create_fill t s then s.counters.buy_trade else s.counters.sell_trade

abbrev pub hedged_leg2 : TradeConfirmTr → Strategy → ℤ
hedged_leg2 t s = if is_create_fill t s then s.counters.buy_leg2 else s.counters.sell_leg2

abbrev pub hedged_leg3 : TradeConfirmTr → Strategy → ℤ
hedged_leg3 t s = if is_create_fill t s then s.counters.buy_leg3 else s.counters.sell_leg3

-- Leg2HitQty and Leg3HitQty, after `count_far`.
unfoldable pub leg2_hit_qty : FloatHit → TradeConfirmTr → Strategy → ℤ
leg2_hit_qty hit t s = hit (tradable t s) s.leg2_hit_ratio s.blq -i hedged_leg2 t s *i s.blq

unfoldable pub leg3_hit_qty : FloatHit → TradeConfirmTr → Strategy → ℤ
leg3_hit_qty hit t s = hit (tradable t s) s.leg3_hit_ratio s.blq -i hedged_leg3 t s *i s.blq

abbrev pub leg2_side : TradeConfirmTr → Strategy → ℤ
leg2_side t s =
    if s.sides.create =?ℤ htons t.buy_sell_indicator
    then s.sides.create_leg2
    else s.sides.reverse_leg2

abbrev pub leg3_side : TradeConfirmTr → Strategy → ℤ
leg3_side t s =
    if s.sides.create =?ℤ htons t.buy_sell_indicator
    then s.sides.create_leg3
    else s.sides.reverse_leg3

unfoldable pub hit_leg2 : FloatHit → TradeConfirmTr → World → World
hit_leg2 hit t w =
    let qty = leg2_hit_qty hit t w.stg in
    if ltb_ℤ (pos 0) qty
    then send_pf_mkt_sell (hedge_order w.stg.nm_pack.near_month_market (leg2_side t w.stg) qty) w
    else w

unfoldable pub hit_leg3 : FloatHit → TradeConfirmTr → World → World
hit_leg3 hit t w =
    let qty = leg3_hit_qty hit t w.stg in
    if ltb_ℤ (pos 0) qty
    then send_pf_mkt_sell2 (hedge_order w.stg.nm_pack.near_month_market2 (leg3_side t w.stg) qty) w
    else w

unfoldable pub trade_far : FloatHit → TradeConfirmTr → World → World
trade_far hit t w = hit_leg3 hit t (hit_leg2 hit t (record w { stg = count_far t w.stg }))

-- A fill of leg 2. The spread is complete if there is no third leg and nothing is left of leg 1.
unfoldable pub trade_near : TradeConfirmTr → Strategy → Strategy
trade_near t s =
    let side = htons t.buy_sell_indicator in
    let qty = lots_of t.fill_quantity s.blq in
    let counted : Strategy =
      if side =?ℤ s.sides.create_leg2
      then record s {
        counters = record (s.counters) { buy_leg2 = to_short (s.counters.buy_leg2 +ℤ qty) };
      }
      else if side =?ℤ s.sides.reverse_leg2
      then record s {
        counters = record (s.counters) { sell_leg2 = to_short (s.counters.sell_leg2 +ℤ qty) };
      }
      else s in
    let is_last = s.feeds.third_fp.token =?ℤ pos 0 in
    if is_last && side =?ℤ s.sides.create_leg2 && s.create_remaining_qty =?ℤ pos 0
    then record counted { buy_far_status = trade }
    else if is_last && side =?ℤ s.sides.reverse_leg2 && s.reverse_remaining_qty =?ℤ pos 0
    then record counted { sell_far_status = trade }
    else counted

-- A fill of leg 3.
unfoldable pub trade_third : TradeConfirmTr → Strategy → Strategy
trade_third t s =
    let side = htons t.buy_sell_indicator in
    let qty = lots_of t.fill_quantity s.blq in
    let counted : Strategy =
      if side =?ℤ s.sides.create_leg3
      then record s {
        counters = record (s.counters) { buy_leg3 = to_short (s.counters.buy_leg3 +ℤ qty) };
      }
      else if side =?ℤ s.sides.reverse_leg3
      then record s {
        counters = record (s.counters) { sell_leg3 = to_short (s.counters.sell_leg3 +ℤ qty) };
      }
      else s in
    if side =?ℤ s.sides.create_leg3 && s.create_remaining_qty =?ℤ pos 0
    then record counted { buy_far_status = trade }
    else if side =?ℤ s.sides.reverse_leg3 && s.reverse_remaining_qty =?ℤ pos 0
    then record counted { sell_far_status = trade }
    else counted

-- `none` is the division by zero of a strategy whose board lot is not known.
unfoldable pub trade_confirmation_tr : FloatHit → TradeConfirmTr → World → Option World
trade_confirmation_tr hit t w =
    let token = htonl t.token in
    if word 32 w.stg.blq == 0
    then none
    else if token =?ℤ w.stg.far_token
    then some (trade_far hit t w)
    else if token =?ℤ w.stg.near_token
    then some (record w { stg = trade_near t w.stg })
    else if token =?ℤ w.stg.token_three
    then some (record w { stg = trade_third t w.stg })
    else some w
