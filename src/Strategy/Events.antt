-- ===== src/Strategy/Events.antt =====
-- A strategy's life: the events that AutoClient hands to it, in the order in which it handles them.
pub mod Stopped
pub mod Status
pub mod Returns
use jansan.Common.{◌≡◌, Option, none, some, List, [], ◌∷◌}
use jansan.Messages.{
  FinalPrice, FoPair, FoPairDiff, OeRequestTr, OeResponseTr, OeRequest, TradeConfirmTr,
}
use jansan.Strategy.{World}
use jansan.Strategy.Subscribe.{on_subscription, on_un_subscription, on_difference}
use jansan.Strategy.Quote.{on_data}
use jansan.Strategy.Confirm.{
  order_confirmation_tr, order_mod_confirmation_tr, order_cxl_confirmation_tr, order_cxl_rej_out,
  order_mod_rej_out, order_error_out,
}
use jansan.Strategy.Trade.{FloatHit, trade_confirmation_tr}

pub data Event : Type 0 where
  subscribes : FoPair → Event
  unsubscribes : Event
  differs : FoPairDiff → Event
  quotes : FinalPrice → Event
  confirms : OeResponseTr → Event
  mod_confirms : OeResponseTr → Event
  cxl_confirms : OeRequestTr → OeResponseTr → Event
  cxl_rejects : OeRequest → Event
  mod_rejects : OeRequest → Event
  errors : OeRequest → Event
  trades : TradeConfirmTr → Event

unfoldable pub step : FloatHit → Event → World → Option World
step hit (subscribes p) w = some (record w { stg = on_subscription p w.stg })
step hit unsubscribes w = some (on_un_subscription w)
step hit (differs d) w = some (record w { stg = on_difference d w.stg })
step hit (quotes fp) w = some (on_data fp w)
step hit (confirms r) w = some (record w { stg = order_confirmation_tr r w.stg })
step hit (mod_confirms r) w = some (record w { stg = order_mod_confirmation_tr r w.stg })
step hit (cxl_confirms stack r) w = some (order_cxl_confirmation_tr stack r w)
step hit (cxl_rejects r) w = some (record w { stg = order_cxl_rej_out r w.stg })
step hit (mod_rejects r) w = some (record w { stg = order_mod_rej_out r w.stg })
step hit (errors r) w = some (record w { stg = order_error_out r w.stg })
step hit (trades t) w = trade_confirmation_tr hit t w

abbrev then_run : (World → Option World) → Option World → Option World
then_run k none = none
then_run k (some w) = k w

-- `none` once the program has stopped on a division by zero.
unfoldable pub run : FloatHit → List Event → World → Option World
run hit [] w = some w
run hit (e ∷ es) w = then_run (run hit es) (step hit e w)
