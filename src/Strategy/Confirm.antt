-- ===== src/Strategy/Confirm.antt =====
-- What the exchange answers to an order of leg 1: ORDER_CONFIRMATION_TR, ORDER_MOD_CONFIRMATION_TR,
-- ORDER_CXL_CONFIRMATION_TR, ORDER_CXL_REJ_OUT, ORDER_MOD_REJ_OUT and ORDER_ERROR_OUT of
-- src/StrategyClass.cpp.
pub mod Latest
pub mod Answers
use jansan.Common.{Bool, true, false, ℤ, pos, ◌=?ℤ◌, if◌then◌else◌}
use jansan.Common.Words.{htonl, htons, ntohl, ntohs}
use jansan.Messages.{
  OrderStatus, idle, pending, replaced, open_, cancel, rejected, trade, OeRequestTr, OmRequestTr,
  OeResponseTr, OeRequest,
}
use jansan.Queue.{mkt_queue}
use jansan.Strategy.{Strategy, World}

-- The prepared modification takes over what the exchange says of the order.
abbrev pub confirmed : OeResponseTr → OmRequestTr → OmRequestTr
confirmed r m = record m {
  order_number = r.order_number;
  disclosed_volume = r.disclosed_volume;
  disclosed_volume_remaining = r.disclosed_volume_remaining;
  total_volume_remaining = r.total_volume_remaining;
  volume = r.volume;
  volume_filled_today = r.volume_filled_today;
  price = r.price;
  entry_date_time = r.entry_date_time;
  last_modified = r.last_modified;
  filler = r.filler;
  buy_sell_indicator = r.buy_sell_indicator;
}

abbrev pub confirm_buy : OrderStatus → OeResponseTr → Strategy → Strategy
confirm_buy status r s = record s {
  nm_pack = record (s.nm_pack) { far_month_mod_buy = confirmed r s.nm_pack.far_month_mod_buy };
  buy_far_status = status;
}

abbrev pub confirm_sell : OrderStatus → OeResponseTr → Strategy → Strategy
confirm_sell status r s = record s {
  nm_pack = record (s.nm_pack) { far_month_mod_sell = confirmed r s.nm_pack.far_month_mod_sell };
  sell_far_status = status;
}

unfoldable pub order_confirmation_tr : OeResponseTr → Strategy → Strategy
order_confirmation_tr r s =
    if htonl r.token_no =?ℤ s.feeds.far_fp.token
    then (if htons r.buy_sell_indicator =?ℤ s.sides.create
        then confirm_buy open_ r s
        else confirm_sell open_ r s)
    else s

unfoldable pub order_mod_confirmation_tr : OeResponseTr → Strategy → Strategy
order_mod_confirmation_tr r s =
    if htonl r.token_no =?ℤ s.feeds.far_fp.token
    then (if htons r.buy_sell_indicator =?ℤ s.sides.create
        then confirm_buy replaced r s
        else if htons r.buy_sell_indicator =?ℤ s.sides.reverse
        then confirm_sell replaced r s
        else s)
    else s

-- The error code of a self trade that the exchange prevented.
abbrev pub self_trade : ℤ
self_trade = pos 17070

-- The market order of a leg; for a token of neither leg, what the uninitialised `stack` holds.
abbrev market_order : OeRequestTr → ℤ → Strategy → OeRequestTr
market_order stack token s =
    if token =?ℤ s.feeds.near_fp.token
    then s.nm_pack.near_month_market
    else if token =?ℤ s.feeds.third_fp.token
    then s.nm_pack.near_month_market2
    else stack

-- `_pfMKTSell._size = 136; _pfMKTSell._oetr = obj; _FillData.MktQueue(_pfMKTSell);`
unfoldable pub send_pf_mkt_sell : OeRequestTr → World → World
send_pf_mkt_sell obj w =
    let pf = record (w.stg.holders.pf_mkt_sell) { size = pos 136; oetr = obj } in
    record {
      stg = record (w.stg) { holders = record (w.stg.holders) { pf_mkt_sell = pf } };
      fill = mkt_queue pf w.fill;
    }

unfoldable pub order_cxl_confirmation_tr : OeRequestTr → OeResponseTr → World → World
order_cxl_confirmation_tr stack r w =
    let s = w.stg in
    let side = htons r.buy_sell_indicator in
    if htonl r.token_no =?ℤ s.feeds.far_fp.token
    then (if side =?ℤ s.sides.create
        then record w { stg = record s { buy_far_status = cancel } }
        else if side =?ℤ s.sides.reverse
        then record w { stg = record s { sell_far_status = cancel } }
        else w)
    else if htons r.error_code =?ℤ self_trade
    then send_pf_mkt_sell
        (record (market_order stack (htonl r.token_no) s) {
          buy_sell_indicator = r.buy_sell_indicator;
          disclosed_volume = r.volume;
          volume = r.volume;
        })
        w
    else w

abbrev pub is_trade : OrderStatus → Bool
is_trade idle = false
is_trade pending = false
is_trade replaced = false
is_trade open_ = false
is_trade cancel = false
is_trade rejected = false
is_trade trade = true

-- The error code of an order that is no longer there.
abbrev pub order_gone : ℤ
order_gone = pos 16273

-- After a refused request the order is gone, or it is still there unless it has traded.
abbrev pub refused : ℤ → OrderStatus → OrderStatus
refused error status =
    if error =?ℤ order_gone then cancel else if is_trade status then status else replaced

unfoldable pub order_cxl_rej_out : OeRequest → Strategy → Strategy
order_cxl_rej_out r s =
    let side = htons r.buy_sell_indicator in
    let error = htons r.error_code in
    if side =?ℤ s.sides.create
    then record s { buy_far_status = refused error s.buy_far_status }
    else if side =?ℤ s.sides.reverse
    then record s { sell_far_status = refused error s.sell_far_status }
    else s

unfoldable pub order_mod_rej_out : OeRequest → Strategy → Strategy
order_mod_rej_out r s =
    let error = htons r.error_code in
    if htonl r.token_no =?ℤ s.feeds.far_fp.token
    then (if htons r.buy_sell_indicator =?ℤ s.sides.create
        then record s { buy_far_status = refused error s.buy_far_status }
        else record s { sell_far_status = refused error s.sell_far_status })
    else s

unfoldable pub order_error_out : OeRequest → Strategy → Strategy
order_error_out r s =
    if htonl r.token_no =?ℤ s.feeds.far_fp.token
    then (if htons r.buy_sell_indicator =?ℤ s.sides.create
        then record s { buy_far_status = rejected }
        else record s { sell_far_status = rejected })
    else s
