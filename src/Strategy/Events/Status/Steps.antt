-- ===== src/Strategy/Events/Status/Steps.antt =====
-- The exchange's answers and the fills of OrderServer-20151216-AtHome/src/StrategyClass.cpp in the
-- state machine of the buy order.
use jansan.Common.{
  ◌≡◌, refl, sym, ◌∙◌, subst, Option, some, none, arith, if_intro, ◌=?ℤ◌, inl, inr, ◌⊎◌, ◌==◌,
}
use jansan.Common.Words.{word, htonl, htons}
use jansan.Messages.{OrderStatus, trade, OeResponseTr, OeRequestTr, OeRequest, TradeConfirmTr}
use jansan.Strategy.{Strategy, World}
use jansan.Strategy.Subscribe.{on_subscription, on_un_subscription, on_difference}
use jansan.Strategy.Confirm.{
  order_confirmation_tr, order_mod_confirmation_tr, order_cxl_confirmation_tr, order_cxl_rej_out,
  order_mod_rej_out, order_error_out, send_pf_mkt_sell, self_trade,
}
use jansan.Strategy.Trade.{
  FloatHit, trade_confirmation_tr, trade_far, trade_near, trade_third, hit_leg2, hit_leg3,
  count_far, send_pf_mkt_sell2,
}
use jansan.Strategy.Events.{
  Event, subscribes, unsubscribes, differs, quotes, confirms, mod_confirms, cxl_confirms,
  cxl_rejects, mod_rejects, errors, trades, step,
}
use jansan.Strategy.Events.Status.{
  Change, keeps, drops, opens, replaces, cancels, cxl_refused, mod_refused, rejects, completes,
  ChangesTo, same, on_data-Change,
}

confirmation-Change :
    (r : OeResponseTr) (s : Strategy)
    → Change (confirms r) s.buy_far_status (order_confirmation_tr r s).buy_far_status
unfolding order_confirmation_tr
confirmation-Change r s =
    let M = λ (t : Strategy). Change (confirms r) s.buy_far_status t.buy_far_status in
    if_intro M (htonl r.token_no =?ℤ s.feeds.far_fp.token)
      (λ _.
        if_intro M (htons r.buy_sell_indicator =?ℤ s.sides.create) (λ _. opens r s.buy_far_status)
          λ _. keeps (confirms r) s.buy_far_status)
      λ _. keeps (confirms r) s.buy_far_status

mod_confirmation-Change :
    (r : OeResponseTr) (s : Strategy)
    → Change (mod_confirms r) s.buy_far_status (order_mod_confirmation_tr r s).buy_far_status
unfolding order_mod_confirmation_tr
mod_confirmation-Change r s =
    let M = λ (t : Strategy). Change (mod_confirms r) s.buy_far_status t.buy_far_status in
    let stay = keeps (mod_confirms r) s.buy_far_status in
    if_intro M (htonl r.token_no =?ℤ s.feeds.far_fp.token)
      (λ _.
        if_intro M (htons r.buy_sell_indicator =?ℤ s.sides.create)
          (λ _. replaces r s.buy_far_status)
          λ _. if_intro M (htons r.buy_sell_indicator =?ℤ s.sides.reverse) (λ _. stay) λ _. stay)
      λ _. stay

cxl_confirmation-Change :
    (stack : OeRequestTr) (r : OeResponseTr) (w : World)
    → ChangesTo (cxl_confirms stack r) w (order_cxl_confirmation_tr stack r w)
unfolding order_cxl_confirmation_tr send_pf_mkt_sell
cxl_confirmation-Change stack r w =
    let M = ChangesTo (cxl_confirms stack r) w in
    let stay = keeps (cxl_confirms stack r) w.stg.buy_far_status in
    if_intro M (htonl r.token_no =?ℤ w.stg.feeds.far_fp.token)
      (λ _.
        if_intro M (htons r.buy_sell_indicator =?ℤ w.stg.sides.create)
          (λ _. cancels stack r w.stg.buy_far_status)
          λ _.
            if_intro M (htons r.buy_sell_indicator =?ℤ w.stg.sides.reverse) (λ _. stay) λ _. stay)
      λ _. if_intro M (htons r.error_code =?ℤ self_trade) (λ _. stay) λ _. stay

cxl_rej-Change :
    (q : OeRequest) (s : Strategy)
    → Change (cxl_rejects q) s.buy_far_status (order_cxl_rej_out q s).buy_far_status
unfolding order_cxl_rej_out
cxl_rej-Change q s =
    let M = λ (t : Strategy). Change (cxl_rejects q) s.buy_far_status t.buy_far_status in
    let stay = keeps (cxl_rejects q) s.buy_far_status in
    if_intro M (htons q.buy_sell_indicator =?ℤ s.sides.create) (λ _. cxl_refused q s.buy_far_status)
      λ _. if_intro M (htons q.buy_sell_indicator =?ℤ s.sides.reverse) (λ _. stay) λ _. stay

mod_rej-Change :
    (q : OeRequest) (s : Strategy)
    → Change (mod_rejects q) s.buy_far_status (order_mod_rej_out q s).buy_far_status
unfolding order_mod_rej_out
mod_rej-Change q s =
    let M = λ (t : Strategy). Change (mod_rejects q) s.buy_far_status t.buy_far_status in
    let stay = keeps (mod_rejects q) s.buy_far_status in
    if_intro M (htonl q.token_no =?ℤ s.feeds.far_fp.token)
      (λ _.
        if_intro M (htons q.buy_sell_indicator =?ℤ s.sides.create)
          (λ _. mod_refused q s.buy_far_status) λ _. stay)
      λ _. stay

error-Change :
    (q : OeRequest) (s : Strategy)
    → Change (errors q) s.buy_far_status (order_error_out q s).buy_far_status
unfolding order_error_out
error-Change q s =
    let M = λ (t : Strategy). Change (errors q) s.buy_far_status t.buy_far_status in
    let stay = keeps (errors q) s.buy_far_status in
    if_intro M (htonl q.token_no =?ℤ s.feeds.far_fp.token)
      (λ _.
        if_intro M (htons q.buy_sell_indicator =?ℤ s.sides.create) (λ _. rejects q s.buy_far_status)
          λ _. stay)
      λ _. stay

fill_status :
    (t : TradeConfirmTr) (s : Strategy)
    → (((trade_near t s).buy_far_status ≡ s.buy_far_status)
        ⊎ ((trade_near t s).buy_far_status ≡ trade))
      × (((trade_third t s).buy_far_status ≡ s.buy_far_status)
          ⊎ ((trade_third t s).buy_far_status ≡ trade))
unfolding trade_near trade_third
fill_status t s = (ground arith, ground arith)

filled : (t : TradeConfirmTr) (a b : OrderStatus) → (b ≡ a) ⊎ (b ≡ trade) → Change (trades t) a b
filled t a b (inl e) = same (trades t) a b e
filled t a b (inr e) = subst (Change (trades t) a) (sym e) (completes t a)

count_far_status :
    (t : TradeConfirmTr) (s : Strategy) → (count_far t s).buy_far_status ≡ s.buy_far_status
unfolding count_far
count_far_status t s = ground arith

-- The hedges leave the status alone.
abbrev SameStatus : World → World → Type 0
SameStatus w v = v.stg.buy_far_status ≡ w.stg.buy_far_status

hit_leg2-SameStatus :
    (hit : FloatHit) (t : TradeConfirmTr) (w : World) → SameStatus w (hit_leg2 hit t w)
unfolding hit_leg2 send_pf_mkt_sell
hit_leg2-SameStatus hit t w = if_intro (SameStatus w) _ (λ _. refl) λ _. refl

hit_leg3-SameStatus :
    (hit : FloatHit) (t : TradeConfirmTr) (w : World) → SameStatus w (hit_leg3 hit t w)
unfolding hit_leg3 send_pf_mkt_sell2
hit_leg3-SameStatus hit t w = if_intro (SameStatus w) _ (λ _. refl) λ _. refl

trade_far-SameStatus :
    (hit : FloatHit) (t : TradeConfirmTr) (w : World) → SameStatus w (trade_far hit t w)
unfolding trade_far
trade_far-SameStatus hit t w =
    let counted : World = record w { stg = count_far t w.stg } in
    hit_leg3-SameStatus hit t (hit_leg2 hit t counted)
    ∙ hit_leg2-SameStatus hit t counted
    ∙ count_far_status t w.stg

abbrev ChangesIfDone : Event → World → Option World → Type 0
ChangesIfDone e w none = Unit {0}
ChangesIfDone e w (some v) = ChangesTo e w v

trade-Change :
    (hit : FloatHit) (t : TradeConfirmTr) (w : World)
    → ChangesIfDone (trades t) w (trade_confirmation_tr hit t w)
unfolding trade_confirmation_tr
trade-Change hit t w =
    let M = ChangesIfDone (trades t) w in
    let fills = fill_status t w.stg in
    if_intro M (word 32 w.stg.blq == 0) (λ _. tt)
      λ _.
        if_intro M (htonl t.token =?ℤ w.stg.far_token)
          (λ _. same _ _ _ (trade_far-SameStatus hit t w))
          λ _.
            if_intro M (htonl t.token =?ℤ w.stg.near_token) (λ _. filled t _ _ fills.0)
              λ _.
                if_intro M (htonl t.token =?ℤ w.stg.token_three) (λ _. filled t _ _ fills.1)
                  λ _. keeps (trades t) w.stg.buy_far_status

step-ChangesIfDone : (hit : FloatHit) (e : Event) (w : World) → ChangesIfDone e w (step hit e w)
unfolding step on_subscription on_un_subscription on_difference
step-ChangesIfDone hit (subscribes p) w = keeps (subscribes p) w.stg.buy_far_status
step-ChangesIfDone hit unsubscribes w = drops w.stg.buy_far_status
step-ChangesIfDone hit (differs d) w = keeps (differs d) w.stg.buy_far_status
step-ChangesIfDone hit (quotes fp) w = on_data-Change fp w
step-ChangesIfDone hit (confirms r) w = confirmation-Change r w.stg
step-ChangesIfDone hit (mod_confirms r) w = mod_confirmation-Change r w.stg
step-ChangesIfDone hit (cxl_confirms stack r) w = cxl_confirmation-Change stack r w
step-ChangesIfDone hit (cxl_rejects q) w = cxl_rej-Change q w.stg
step-ChangesIfDone hit (mod_rejects q) w = mod_rej-Change q w.stg
step-ChangesIfDone hit (errors q) w = error-Change q w.stg
step-ChangesIfDone hit (trades t) w = trade-Change hit t w

-- Each event leaves the status of the buy order of leg 1 alone or makes the one change that belongs to
-- it: a price makes a status pending, and only one with no order or with an order that rests on the
-- exchange; an unsubscription makes it idle; the answers make it open, replaced, cancelled or
-- rejected, or leave a status as it is; a fill of leg 2 or 3 makes it traded.
pub step-Change :
    (hit : FloatHit) (e : Event) (w v : World)
    → step hit e w ≡ some v
    → Change e w.stg.buy_far_status v.stg.buy_far_status
step-Change hit e w v done = subst (ChangesIfDone e w) done (step-ChangesIfDone hit e w)
