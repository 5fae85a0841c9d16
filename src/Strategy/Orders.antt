-- ===== src/Strategy/Orders.antt =====
-- The orders that a strategy sends: BOARD_LOT_IN_TRBuy, BOARD_LOT_IN_TRSell, ORDER_MOD_IN_TR_CR,
-- ORDER_MOD_IN_TR_RV and ORDER_CANCEL_IN_TR of src/StrategyClass.cpp.
use jansan.Common.{Bool, ◌||◌, ℤ, pos, negsuc, ◌=?ℤ◌, if◌then◌else◌}
use jansan.Common.Words.{ntohl, ntohs}
use jansan.Messages.{pending, OeRequestTr, OmRequestTr, PfHolder, zero_om}
use jansan.Queue.{bid_queue}
use jansan.Strategy.{Strategy, World}

-- A new order of leg 1; the quantity and the price come in network order.
abbrev pub new_order : Strategy → ℤ → ℤ → ℤ → OeRequestTr
new_order s bs qty price = record (s.nm_pack.far_month) {
  buy_sell_indicator = ntohs bs;
  disclosed_volume = qty;
  volume = qty;
  price = price;
}

unfoldable pub board_lot_in_tr_buy : ℤ → ℤ → ℤ → PfHolder → World → World
board_lot_in_tr_buy bs qty price pf w = record w {
  fill = bid_queue (record pf { oetr = new_order w.stg bs qty price; size = pos 136 }) w.fill;
}

unfoldable pub board_lot_in_tr_sell : ℤ → ℤ → ℤ → PfHolder → World → World
board_lot_in_tr_sell bs qty price pf w = record w {
  fill = bid_queue (record pf { oetr = new_order w.stg bs qty price; size = pos 136 }) w.fill;
}

-- The order of leg 1 on the exchange that a side means; all zero for a side that is neither.
abbrev pub order_of_side : Strategy → ℤ → OmRequestTr
order_of_side s side =
    if side =?ℤ s.sides.create
    then s.nm_pack.far_month_mod_buy
    else if side =?ℤ s.sides.reverse
    then s.nm_pack.far_month_mod_sell
    else zero_om

abbrev pub modified_order : Strategy → ℤ → ℤ → OmRequestTr
modified_order s price side = record (order_of_side s side) {
  transaction_code = s.modification_code;
  price = ntohl price;
}

-- `_pfBuy._size = 164; _pfBuy._omtr = obj; _FillData.BidQueue(_pfBuy);`
unfoldable pub send_pf_buy : OmRequestTr → World → World
send_pf_buy obj w =
    let pf = record (w.stg.holders.pf_buy) { size = pos 164; omtr = obj } in
    record {
      stg = record (w.stg) { holders = record (w.stg.holders) { pf_buy = pf } };
      fill = bid_queue pf w.fill;
    }

unfoldable pub order_mod_in_tr_cr : ℤ → ℤ → World → World
order_mod_in_tr_cr price side w =
    if w.stg.buy_mod_quote_rate =?ℤ price
    then w
    else (let sent = send_pf_buy (modified_order w.stg price side) w in
        record sent {
          stg = record (sent.stg) { buy_far_status = pending; buy_mod_quote_rate = price };
        })

unfoldable pub order_mod_in_tr_rv : ℤ → ℤ → World → World
order_mod_in_tr_rv price side w =
    if w.stg.sell_mod_quote_rate =?ℤ price
    then w
    else (let sent = send_pf_buy (modified_order w.stg price side) w in
        record sent {
          stg = record (sent.stg) { sell_far_status = pending; sell_mod_quote_rate = price };
        })

-- An order number that no order on the exchange has.
abbrev pub is_no_order : ℤ → Bool
is_no_order n = n =?ℤ pos 0 || n =?ℤ negsuc 0

abbrev pub cancelled_order : Strategy → ℤ → OmRequestTr
cancelled_order s side = record (order_of_side s side) { transaction_code = s.cancel_code }

unfoldable pub order_cancel_in_tr : ℤ → World → World
order_cancel_in_tr side w =
    if is_no_order (cancelled_order w.stg side).order_number
    then w
    else send_pf_buy (cancelled_order w.stg side) w
