-- ===== src/Strategy/Events/Stopped.antt =====
-- A strategy after the client has unsubscribed.
use jansan.Common.{
  ◌≡◌, refl, ap, ◌∙◌, true, Option, none, some, inl, inr, List, [], ◌∷◌, arith, if_intro, ◌=?ℤ◌,
  ◌==◌, Option-cases,
}
use jansan.Common.Words.{htonl, word}
use jansan.Messages.{FinalPrice, OeResponseTr, OeRequestTr, OeRequest, TradeConfirmTr, FoPairDiff}
use jansan.Queue.{mkt_queue}
use jansan.Strategy.{Strategy, World}
use jansan.Strategy.Subscribe.{on_difference}
use jansan.Strategy.Quote.{on_data}
use jansan.Strategy.Quote.Silence.{on_data_quiet}
use jansan.Strategy.Confirm.{
  order_confirmation_tr, order_mod_confirmation_tr, order_cxl_confirmation_tr, order_cxl_rej_out,
  order_mod_rej_out, order_error_out, send_pf_mkt_sell,
}
use jansan.Strategy.Trade.{
  FloatHit, trade_confirmation_tr, trade_far, hit_leg2, hit_leg3, count_far, trade_near,
  trade_third, send_pf_mkt_sell2,
}
use jansan.Strategy.Events.{
  Event, subscribes, unsubscribes, differs, quotes, confirms, mod_confirms, cxl_confirms,
  cxl_rejects, mod_rejects, errors, trades, step, run,
}

-- The client has stopped both sides.
abbrev pub IsStopped : Strategy → Type 0
IsStopped s = (s.cancel_buy_order ≡ true) × (s.cancel_sell_order ≡ true)

-- The world v has the stops of w, and w's queue of orders of leg 1.
abbrev pub Keeps : World → World → Type 0
Keeps w v =
    (v.stg.cancel_buy_order ≡ w.stg.cancel_buy_order)
    × (v.stg.cancel_sell_order ≡ w.stg.cancel_sell_order)
    × (v.fill.bid ≡ w.fill.bid)

abbrev KeepsStops : Strategy → Strategy → Type 0
KeepsStops s t =
    (t.cancel_buy_order ≡ s.cancel_buy_order) × (t.cancel_sell_order ≡ s.cancel_sell_order)

order_confirmation_keeps :
    (r : OeResponseTr) (s : Strategy) → KeepsStops s (order_confirmation_tr r s)
unfolding order_confirmation_tr
order_confirmation_keeps r s = (ground arith, ground arith)

order_mod_confirmation_keeps :
    (r : OeResponseTr) (s : Strategy) → KeepsStops s (order_mod_confirmation_tr r s)
unfolding order_mod_confirmation_tr
order_mod_confirmation_keeps r s = (ground arith, ground arith)

order_cxl_rej_keeps : (r : OeRequest) (s : Strategy) → KeepsStops s (order_cxl_rej_out r s)
unfolding order_cxl_rej_out
order_cxl_rej_keeps r s = (ground arith, ground arith)

order_mod_rej_keeps : (r : OeRequest) (s : Strategy) → KeepsStops s (order_mod_rej_out r s)
unfolding order_mod_rej_out
order_mod_rej_keeps r s = (ground arith, ground arith)

order_error_keeps : (r : OeRequest) (s : Strategy) → KeepsStops s (order_error_out r s)
unfolding order_error_out
order_error_keeps r s = (ground arith, ground arith)

trade_near_keeps : (t : TradeConfirmTr) (s : Strategy) → KeepsStops s (trade_near t s)
unfolding trade_near
trade_near_keeps t s = (ground arith, ground arith)

trade_third_keeps : (t : TradeConfirmTr) (s : Strategy) → KeepsStops s (trade_third t s)
unfolding trade_third
trade_third_keeps t s = (ground arith, ground arith)

count_far_keeps : (t : TradeConfirmTr) (s : Strategy) → KeepsStops s (count_far t s)
unfolding count_far
count_far_keeps t s = (ground arith, ground arith)

hit_leg2-Keeps : (hit : FloatHit) (t : TradeConfirmTr) (w : World) → Keeps w (hit_leg2 hit t w)
unfolding hit_leg2 send_pf_mkt_sell mkt_queue
hit_leg2-Keeps hit t w = (ground arith, ground arith, ground arith)

hit_leg3-Keeps : (hit : FloatHit) (t : TradeConfirmTr) (w : World) → Keeps w (hit_leg3 hit t w)
unfolding hit_leg3 send_pf_mkt_sell2 mkt_queue
hit_leg3-Keeps hit t w = (ground arith, ground arith, ground arith)

order_cxl_confirmation-Keeps :
    (stack : OeRequestTr) (r : OeResponseTr) (w : World)
    → Keeps w (order_cxl_confirmation_tr stack r w)
unfolding order_cxl_confirmation_tr send_pf_mkt_sell mkt_queue
order_cxl_confirmation-Keeps stack r w = (ground arith, ground arith, ground arith)

Keeps-trans : (u v w : World) → Keeps u v → Keeps v w → Keeps u w
Keeps-trans u v w k l = (l.0 ∙ k.0, l.1 ∙ k.1, l.2 ∙ k.2)

trade_far-Keeps : (hit : FloatHit) (t : TradeConfirmTr) (w : World) → Keeps w (trade_far hit t w)
unfolding trade_far
trade_far-Keeps hit t w =
    let counted : World = record w { stg = count_far t w.stg } in
    let hedged : World = hit_leg2 hit t counted in
    let (buy_stop, sell_stop) = count_far_keeps t w.stg in
    Keeps-trans w hedged (hit_leg3 hit t hedged)
      (Keeps-trans w counted hedged (buy_stop, sell_stop, refl) (hit_leg2-Keeps hit t counted))
      (hit_leg3-Keeps hit t hedged)

-- A result keeps the stops, if there is one.
abbrev KeepsIfDone : World → Option World → Type 0
KeepsIfDone w none = Unit {0}
KeepsIfDone w (some v) = Keeps w v

trade_confirmation_keeps :
    (hit : FloatHit) (t : TradeConfirmTr) (w : World)
    → KeepsIfDone w (trade_confirmation_tr hit t w)
unfolding trade_confirmation_tr
trade_confirmation_keeps hit t w =
    let P = KeepsIfDone w in
    let near = trade_near_keeps t w.stg in
    let third = trade_third_keeps t w.stg in
    let token = htonl t.token in
    if_intro P (word 32 w.stg.blq == 0) (λ _. tt)
      λ _.
        if_intro P (token =?ℤ w.stg.far_token) (λ _. trade_far-Keeps hit t w)
          λ _.
            if_intro P (token =?ℤ w.stg.near_token) (λ _. (near.0, near.1, refl))
              λ _.
                if_intro P (token =?ℤ w.stg.token_three) (λ _. (third.0, third.1, refl))
                  λ _. (refl, refl, refl)

on_data-Keeps : (fp : FinalPrice) (w : World) → IsStopped w.stg → Keeps w (on_data fp w)
on_data-Keeps fp w s =
    let (fill, (b, c, d, e)) = on_data_quiet fp w (inr s.0, inr s.1) in (d, e, ap (λ f. f.bid) fill)

-- Events other than the client's own subscriptions and their ends.
abbrev pub IsCalm : List Event → Type 0
IsCalm [] = Unit {0}
IsCalm (subscribes p ∷ es) = ⊥
IsCalm (unsubscribes ∷ es) = ⊥
IsCalm (_ ∷ es) = IsCalm es

on_difference_keeps : (d : FoPairDiff) (s : Strategy) → KeepsStops s (on_difference d s)
unfolding on_difference
on_difference_keeps d s = (refl, refl)

step_keeps :
    (hit : FloatHit) (e : Event) (es : List Event) (w : World)
    → IsCalm (e ∷ es)
    → IsStopped w.stg
    → KeepsIfDone w (step hit e w) × IsCalm es
unfolding step
step_keeps hit (subscribes p) es w c s = absurd c
step_keeps hit unsubscribes es w c s = absurd c
step_keeps hit (differs d) es w c s = let k = on_difference_keeps d w.stg in ((k.0, k.1, refl), c)
step_keeps hit (quotes fp) es w c s = (on_data-Keeps fp w s, c)
step_keeps hit (confirms r) es w c s =
    let k = order_confirmation_keeps r w.stg in ((k.0, k.1, refl), c)
step_keeps hit (mod_confirms r) es w c s =
    let k = order_mod_confirmation_keeps r w.stg in ((k.0, k.1, refl), c)
step_keeps hit (cxl_confirms stack r) es w c s = (order_cxl_confirmation-Keeps stack r w, c)
step_keeps hit (cxl_rejects r) es w c s =
    let k = order_cxl_rej_keeps r w.stg in ((k.0, k.1, refl), c)
step_keeps hit (mod_rejects r) es w c s =
    let k = order_mod_rej_keeps r w.stg in ((k.0, k.1, refl), c)
step_keeps hit (errors r) es w c s = let k = order_error_keeps r w.stg in ((k.0, k.1, refl), c)
step_keeps hit (trades t) es w c s = (trade_confirmation_keeps hit t w, c)

-- A stopped strategy sends no order of leg 1, whatever prices, differences and answers of the exchange
-- it gets, until the client subscribes or unsubscribes again.
pub run-IsStopped :
    (hit : FloatHit) (es : List Event) (w v : World)
    → IsCalm es
    → IsStopped w.stg
    → run hit es w ≡ some v
    → (v.fill.bid ≡ w.fill.bid) × IsStopped v.stg
unfolding run
run-IsStopped hit [] w v c s h = (ground arith, ground arith)
run-IsStopped hit (e ∷ es) w v c s h = elim (Option-cases (step hit e w)) [
  | inl stopped ↦ absurd (cc (rw stopped at h))
  | inr (u, went) ↦
      let (keeps, calm) = step_keeps hit e es w c s in
      let k : Keeps w u = rw went at keeps in
      let (bid, done) = run-IsStopped hit es u v calm (k.0 ∙ s.0, k.1 ∙ s.1) (rw went at h) in
      (bid ∙ k.2, done)
]
