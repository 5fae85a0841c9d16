-- ===== src/Strategy/Events/Returns.antt =====
-- The handlers of OrderServer-20151216-AtHome/src/StrategyClass.cpp never change the board lot, so that
-- the only operation that can stop the program, the division by it, never does.
use jansan.Common.{
  ◌≡◌, refl, sym, ◌∙◌, ap, true, false, Option, some, List, [], ◌∷◌, arith, if_intro, ◌==◌, ◌=?ℤ◌,
  ◌&&◌, pos, ℤ, subst,
}
use jansan.Common.Words.{word, htonl}
use jansan.Messages.{pending, FinalPrice, TradeConfirmTr, OeResponseTr, OeRequestTr, OeRequest}
use jansan.Strategy.{Strategy, World}
use jansan.Strategy.Orders.{order_cancel_in_tr, send_pf_buy}
use jansan.Strategy.Subscribe.{
  on_subscription, on_un_subscription, on_difference, withdraw_buy, withdraw_sell, is_working,
}
use jansan.Strategy.Prices.{receive, is_priced, lacks_third, products_of}
use jansan.Strategy.Quote.{on_data, quote_buy, quote_sell}
use jansan.Strategy.Quote.BuyMoves as Buys
use jansan.Strategy.Quote.SellMoves as Sells
use jansan.Strategy.Confirm.{
  order_confirmation_tr, order_mod_confirmation_tr, order_cxl_confirmation_tr, order_cxl_rej_out,
  order_mod_rej_out, order_error_out, send_pf_mkt_sell,
}
use jansan.Strategy.Trade.{
  FloatHit, trade_confirmation_tr, trade_far, trade_near, trade_third, hit_leg2, hit_leg3,
  count_far, send_pf_mkt_sell2,
}
use jansan.Strategy.Events.{
  Event, subscribes, unsubscribes, differs, quotes, confirms, mod_confirms, cxl_confirms,
  cxl_rejects, mod_rejects, errors, trades, step, run,
}

quote_buy_lot : (w : World) → (quote_buy w).stg.blq ≡ w.stg.blq
quote_buy_lot w = of_move (quote_buy w) (Buys.quote_buy-BuyMove w)
  where
    of_move : (v : World) → Buys.BuyMove w v → v.stg.blq ≡ w.stg.blq
    of_move v (Buys.BuyMove.stay _ e) = ap (λ x. x.stg.blq) e
    of_move v (Buys.BuyMove.place _ _ _ _ _ e _) = ap (λ s. s.blq) e
    of_move v (Buys.BuyMove.modify _ _ _ _ e _) = ap (λ s. s.blq) e
    of_move v (Buys.BuyMove.withdraw _ _ _ e _) = ap (λ s. s.blq) e
    of_move v (Buys.BuyMove.hang _ _ _ e) = ap (λ x. x.stg.blq) e

quote_sell_lot : (w : World) → (quote_sell w).stg.blq ≡ w.stg.blq
quote_sell_lot w = of_move (quote_sell w) (Sells.quote_sell-SellMove w)
  where
    of_move : (v : World) → Sells.SellMove w v → v.stg.blq ≡ w.stg.blq
    of_move v (Sells.SellMove.stay _ e) = ap (λ x. x.stg.blq) e
    of_move v (Sells.SellMove.place _ _ _ _ _ e _) = ap (λ s. s.blq) e
    of_move v (Sells.SellMove.modify _ _ _ _ e _) = ap (λ s. s.blq) e
    of_move v (Sells.SellMove.withdraw _ _ _ e _) = ap (λ s. s.blq) e
    of_move v (Sells.SellMove.hang _ _ _ e) = ap (λ x. x.stg.blq) e

-- The lot of w.
abbrev HasLot : World → World → Type 0
HasLot w v = v.stg.blq ≡ w.stg.blq

receive_lot : (fp : FinalPrice) (s : Strategy) → (receive fp s).blq ≡ s.blq
unfolding receive
receive_lot fp s = ground arith

on_data-HasLot : (fp : FinalPrice) (w : World) → HasLot w (on_data fp w)
unfolding on_data
on_data-HasLot fp w =
    let got : Strategy = receive fp (record (w.stg) { count_mutex = true }) in
    let kept : got.blq ≡ w.stg.blq = receive_lot fp (record (w.stg) { count_mutex = true }) in
    let priced : World = record w { stg = record got { products = products_of got } } in
    if_intro (HasLot w) (w.stg.feeds.far_fp.token =?ℤ pos 0 && w.stg.feeds.near_fp.token =?ℤ pos 0)
      (λ _. refl)
      λ _.
        if_intro (HasLot w) (is_priced got)
          (λ _.
            if_intro (HasLot w) (lacks_third got) (λ _. kept)
              λ _. quote_buy_lot (quote_sell priced) ∙ quote_sell_lot priced ∙ kept)
          λ _. kept

order_cancel-HasLot : (side : ℤ) (w : World) → HasLot w (order_cancel_in_tr side w)
unfolding order_cancel_in_tr send_pf_buy
order_cancel-HasLot side w = if_intro (HasLot w) _ (λ _. refl) λ _. refl

withdraw_buy-HasLot : (w : World) → HasLot w (withdraw_buy w)
unfolding withdraw_buy
withdraw_buy-HasLot w =
    if_intro (HasLot w) (is_working w.stg.buy_far_status)
      (λ _.
        order_cancel-HasLot w.stg.sides.create
          (record w { stg = record (w.stg) { buy_far_status = pending } }))
      λ _. refl

withdraw_sell-HasLot : (w : World) → HasLot w (withdraw_sell w)
unfolding withdraw_sell
withdraw_sell-HasLot w =
    if_intro (HasLot w) (is_working w.stg.sell_far_status)
      (λ _.
        order_cancel-HasLot w.stg.sides.reverse
          (record w { stg = record (w.stg) { sell_far_status = pending } }))
      λ _. refl

on_un_subscription-HasLot : (w : World) → HasLot w (on_un_subscription w)
unfolding on_un_subscription
on_un_subscription-HasLot w = withdraw_sell-HasLot (withdraw_buy w) ∙ withdraw_buy-HasLot w

confirmation_lot : (r : OeResponseTr) (s : Strategy) → (order_confirmation_tr r s).blq ≡ s.blq
unfolding order_confirmation_tr
confirmation_lot r s = ground arith

mod_confirmation_lot :
    (r : OeResponseTr) (s : Strategy) → (order_mod_confirmation_tr r s).blq ≡ s.blq
unfolding order_mod_confirmation_tr
mod_confirmation_lot r s = ground arith

refusals_lot :
    (q : OeRequest) (s : Strategy)
    → ((order_cxl_rej_out q s).blq ≡ s.blq)
      × ((order_mod_rej_out q s).blq ≡ s.blq)
      × ((order_error_out q s).blq ≡ s.blq)
unfolding order_cxl_rej_out order_mod_rej_out order_error_out
refusals_lot q s = (ground arith, ground arith, ground arith)

order_cxl_confirmation-HasLot :
    (stack : OeRequestTr) (r : OeResponseTr) (w : World)
    → HasLot w (order_cxl_confirmation_tr stack r w)
unfolding order_cxl_confirmation_tr send_pf_mkt_sell
order_cxl_confirmation-HasLot stack r w = ground arith

trade_near_lot : (t : TradeConfirmTr) (s : Strategy) → (trade_near t s).blq ≡ s.blq
unfolding trade_near
trade_near_lot t s = ground arith

trade_third_lot : (t : TradeConfirmTr) (s : Strategy) → (trade_third t s).blq ≡ s.blq
unfolding trade_third
trade_third_lot t s = ground arith

count_far_lot : (t : TradeConfirmTr) (s : Strategy) → (count_far t s).blq ≡ s.blq
unfolding count_far
count_far_lot t s = ground arith

hit_leg2-HasLot : (hit : FloatHit) (t : TradeConfirmTr) (w : World) → HasLot w (hit_leg2 hit t w)
unfolding hit_leg2 send_pf_mkt_sell
hit_leg2-HasLot hit t w = if_intro (HasLot w) _ (λ _. refl) λ _. refl

hit_leg3-HasLot : (hit : FloatHit) (t : TradeConfirmTr) (w : World) → HasLot w (hit_leg3 hit t w)
unfolding hit_leg3 send_pf_mkt_sell2
hit_leg3-HasLot hit t w = if_intro (HasLot w) _ (λ _. refl) λ _. refl

trade_far-HasLot : (hit : FloatHit) (t : TradeConfirmTr) (w : World) → HasLot w (trade_far hit t w)
unfolding trade_far
trade_far-HasLot hit t w =
    let counted : World = record w { stg = count_far t w.stg } in
    hit_leg3-HasLot hit t (hit_leg2 hit t counted)
    ∙ hit_leg2-HasLot hit t counted
    ∙ count_far_lot t w.stg

-- The handler comes to its end, with the lot of w.
abbrev Returns : World → Option World → Type 0
Returns w o = (v : World) × (o ≡ some v) × HasLot w v

trade_confirmation-Returns :
    (hit : FloatHit) (t : TradeConfirmTr) (w : World)
    → (word 32 w.stg.blq == 0) ≡ false
    → Returns w (trade_confirmation_tr hit t w)
unfolding trade_confirmation_tr
trade_confirmation-Returns hit t w h = rw h (
    if_intro (Returns w) (htonl t.token =?ℤ w.stg.far_token)
      (λ _. (_, refl, trade_far-HasLot hit t w))
      λ _.
        if_intro (Returns w) (htonl t.token =?ℤ w.stg.near_token)
          (λ _. (_, refl, trade_near_lot t w.stg))
          λ _.
            if_intro (Returns w) (htonl t.token =?ℤ w.stg.token_three)
              (λ _. (_, refl, trade_third_lot t w.stg)) λ _. (w, refl, refl))

step-Returns :
    (hit : FloatHit) (e : Event) (w : World)
    → (word 32 w.stg.blq == 0) ≡ false
    → Returns w (step hit e w)
unfolding step on_subscription on_difference
step-Returns hit (subscribes p) w h = (_, refl, refl)
step-Returns hit unsubscribes w h = (_, refl, on_un_subscription-HasLot w)
step-Returns hit (differs d) w h = (_, refl, refl)
step-Returns hit (quotes fp) w h = (_, refl, on_data-HasLot fp w)
step-Returns hit (confirms r) w h = (_, refl, confirmation_lot r w.stg)
step-Returns hit (mod_confirms r) w h = (_, refl, mod_confirmation_lot r w.stg)
step-Returns hit (cxl_confirms stack r) w h = (_, refl, order_cxl_confirmation-HasLot stack r w)
step-Returns hit (cxl_rejects r) w h = (_, refl, (refusals_lot r w.stg).0)
step-Returns hit (mod_rejects r) w h = (_, refl, (refusals_lot r w.stg).1)
step-Returns hit (errors r) w h = (_, refl, (refusals_lot r w.stg).2)
step-Returns hit (trades t) w h = trade_confirmation-Returns hit t w h

-- Once the board lot of a strategy is known, as a number that is not 0 modulo 2 ^ 32, the strategy
-- takes every sequence of events to its end, and keeps that board lot.
pub run-Returns :
    (hit : FloatHit) (es : List Event) (w : World)
    → (word 32 w.stg.blq == 0) ≡ false
    → (v : World) × (run hit es w ≡ some v) × (v.stg.blq ≡ w.stg.blq)
unfolding run
run-Returns hit [] w h = (w, refl, refl)
run-Returns hit (e ∷ es) w h =
    let (u, went, same) = step-Returns hit e w h in
    let (v, done, lot) =
      run-Returns hit es u (subst (λ b. (word 32 b == 0) ≡ false) (sym same) h) in
    (v, rw (went, run) done, lot ∙ same)
