-- ===== src/Strategy/Events/Status.antt =====
-- The status of the buy order of leg 1 (BuyFarStatus of
-- OrderServer-20151216-AtHome/src/StrategyClass.cpp) as a state machine that the events drive.
pub mod Steps
use jansan.Common.{◌≡◌, sym, ◌∙◌, ap, subst, true, arith, if_intro, ◌&&◌, ◌=?ℤ◌, pos, ℤ}
use jansan.Common.Words.{htons}
use jansan.Messages.{
  OrderStatus, idle, pending, replaced, open_, cancel, rejected, trade, FinalPrice, OeResponseTr,
  OeRequestTr, OeRequest, TradeConfirmTr,
}
use jansan.Strategy.{Strategy, World}
use jansan.Strategy.Prices.{
  receive, is_priced, lacks_third, products_of, is_free, is_resting, may_buy,
}
use jansan.Strategy.Quote.{on_data, quote_buy, quote_sell}
use jansan.Strategy.Quote.BuyMoves as Buys
use jansan.Strategy.Quote.SellMoves as Sells
use jansan.Strategy.Confirm.{refused}
use jansan.Strategy.Events.{
  Event, unsubscribes, quotes, confirms, mod_confirms, cxl_confirms, cxl_rejects, mod_rejects,
  errors, trades,
}

-- The changes of a status that an event may make.
pub data Change : Event → OrderStatus → OrderStatus → Type 0 where
  keeps : (e : Event) (a : OrderStatus) → Change e a a
  places : (fp : FinalPrice) (a : OrderStatus) → is_free a ≡ true → Change (quotes fp) a pending
  moves : (fp : FinalPrice) (a : OrderStatus) → is_resting a ≡ true → Change (quotes fp) a pending
  drops : (a : OrderStatus) → Change unsubscribes a idle
  opens : (r : OeResponseTr) (a : OrderStatus) → Change (confirms r) a open_
  replaces : (r : OeResponseTr) (a : OrderStatus) → Change (mod_confirms r) a replaced
  cancels :
      (s : OeRequestTr) (r : OeResponseTr) (a : OrderStatus) → Change (cxl_confirms s r) a cancel
  cxl_refused :
      (q : OeRequest) (a : OrderStatus) → Change (cxl_rejects q) a (refused (htons q.error_code) a)
  mod_refused :
      (q : OeRequest) (a : OrderStatus) → Change (mod_rejects q) a (refused (htons q.error_code) a)
  rejects : (q : OeRequest) (a : OrderStatus) → Change (errors q) a rejected
  completes : (t : TradeConfirmTr) (a : OrderStatus) → Change (trades t) a trade

abbrev pub ChangesTo : Event → World → World → Type 0
ChangesTo e w v = Change e w.stg.buy_far_status v.stg.buy_far_status

pub same : (e : Event) (a b : OrderStatus) → b ≡ a → Change e a b
same e a b h = subst (Change e a) (sym h) (keeps e a)

quote_sell_status : (w : World) → (quote_sell w).stg.buy_far_status ≡ w.stg.buy_far_status
quote_sell_status w = of_move (quote_sell w) (Sells.quote_sell-SellMove w)
  where
    of_move : (v : World) → Sells.SellMove w v → v.stg.buy_far_status ≡ w.stg.buy_far_status
    of_move v (Sells.SellMove.stay _ e) = ap (λ x. x.stg.buy_far_status) e
    of_move v (Sells.SellMove.place _ _ _ _ _ e _) = ap (λ s. s.buy_far_status) e
    of_move v (Sells.SellMove.modify _ _ _ _ e _) = ap (λ s. s.buy_far_status) e
    of_move v (Sells.SellMove.withdraw _ _ _ e _) = ap (λ s. s.buy_far_status) e
    of_move v (Sells.SellMove.hang _ _ _ e) = ap (λ x. x.stg.buy_far_status) e

may_buy-is_free : (s : Strategy) → may_buy s ≡ true → is_free s.buy_far_status ≡ true
may_buy-is_free s h = ground arith

to_pending : (e : Event) (a b : OrderStatus) → b ≡ pending → Change e a pending → Change e a b
to_pending e a b h c = subst (Change e a) (sym h) c

quote_buy-Change : (fp : FinalPrice) (w : World) → ChangesTo (quotes fp) w (quote_buy w)
quote_buy-Change fp w = of_move (quote_buy w) (Buys.quote_buy-BuyMove w)
  where
    of_move : (v : World) → Buys.BuyMove w v → ChangesTo (quotes fp) w v
    of_move v (Buys.BuyMove.stay _ e) = same _ _ _ (ap (λ x. x.stg.buy_far_status) e)
    of_move v (Buys.BuyMove.place _ may _ _ _ e _) =
        to_pending _ _ _ (ap (λ s. s.buy_far_status) e) (places fp _ (may_buy-is_free w.stg may))
    of_move v (Buys.BuyMove.modify _ on _ _ e _) =
        to_pending _ _ _ (ap (λ s. s.buy_far_status) e) (moves fp _ on)
    of_move v (Buys.BuyMove.withdraw on _ _ e _) =
        to_pending _ _ _ (ap (λ s. s.buy_far_status) e) (moves fp _ on)
    of_move v (Buys.BuyMove.hang on _ _ e) =
        to_pending _ _ _ (ap (λ x. x.stg.buy_far_status) e) (moves fp _ on)

receive_status : (fp : FinalPrice) (s : Strategy) → (receive fp s).buy_far_status ≡ s.buy_far_status
unfolding receive
receive_status fp s = ground arith

pub on_data-Change : (fp : FinalPrice) (w : World) → ChangesTo (quotes fp) w (on_data fp w)
unfolding on_data
on_data-Change fp w =
    let M = ChangesTo (quotes fp) w in
    let got : Strategy = receive fp (record (w.stg) { count_mutex = true }) in
    let kept : got.buy_far_status ≡ w.stg.buy_far_status =
      receive_status fp (record (w.stg) { count_mutex = true }) in
    let priced : World = record w { stg = record got { products = products_of got } } in
    let quoted = quote_sell_status priced ∙ kept in
    if_intro M (w.stg.feeds.far_fp.token =?ℤ pos 0 && w.stg.feeds.near_fp.token =?ℤ pos 0)
      (λ _. keeps (quotes fp) w.stg.buy_far_status)
      λ _.
        if_intro M (is_priced got)
          (λ _.
            if_intro M (lacks_third got) (λ _. same _ _ _ kept)
              λ _.
                subst (λ a. Change (quotes fp) a (quote_buy (quote_sell priced)).stg.buy_far_status)
                  quoted (quote_buy-Change fp (quote_sell priced)))
          λ _. same _ _ _ kept
