-- ===== src/Client/Orphan.antt =====
-- A client that unsubscribes while a first order of leg 1 waits for its confirmation:
-- HandleOnFOPairUnSubscription and Eventsubscriber of OrderServer-20151216-AtHome/src/AutoClient.cpp.
use jansan.Common.{
  ℕ, ◌<◌, ◌≤◌, ◌≡◌, refl, ◌∙◌, ap, true, false, none, some, [], ◌∷◌, pos, =?ℤ_refl, sym,
}
use jansan.Common.Maps.{lookup, lookup-remove}
use jansan.Messages.{pending, FoPair, OeResponseTr}
use jansan.Tag.{subscription_tag}
use jansan.Strategy.{World}
use jansan.Strategy.Orders.{order_cancel_in_tr, is_no_order}
use jansan.Strategy.Subscribe.{on_un_subscription, withdraw_buy, withdraw_sell, is_working}
use jansan.Strategy.Confirm.{order_confirmation_tr}
use jansan.Strategy.Events.{confirms, step}
use jansan.Client.{Machine, Node, AutoClient}
use jansan.Client.Pairs.{handle_un_subscription, fresh_node}
use jansan.Client.Reports.{confirmation, on_report}
use jansan.Client.Reports.Steps.{world_of, on_report-Moves}

-- The buy order waits for its confirmation and has no order number yet, and nothing is on sale.
pub record IsWaiting (w : World) : Type 0 where
  pub buys : w.stg.buy_far_status ≡ pending
  pub sells : is_working w.stg.sell_far_status ≡ false
  pub unknown : is_no_order w.stg.nm_pack.far_month_mod_buy.order_number ≡ true

withdraw_buy_waiting :
    (w : World)
    → IsWaiting w
    → withdraw_buy w ≡ record w { stg = record (w.stg) { buy_far_status = pending } }
unfolding withdraw_buy order_cancel_in_tr
withdraw_buy_waiting w h = simp (h.buys, =?ℤ_refl w.stg.sides.create, h.unknown)

withdraw_sell_idle : (w : World) → is_working w.stg.sell_far_status ≡ false → withdraw_sell w ≡ w
unfolding withdraw_sell
withdraw_sell_idle w h = simp h

on_un_subscription_waiting : (w : World) → IsWaiting w → (on_un_subscription w).fill ≡ w.fill
unfolding on_un_subscription
on_un_subscription_waiting w h =
    let u : World = record w { stg = record (w.stg) { buy_far_status = pending } } in
    rw (withdraw_buy_waiting w h, withdraw_sell_idle u h.sells) refl

module _ (m : Machine) where
  dropped_waiting :
      (p : FoPair) (node : Node) (c : AutoClient m.hub)
      → lookup p.portfolio_name c.stg_class ≡ some node
      → IsWaiting (record { stg = node.stg; fill = c.fill })
      → ((handle_un_subscription p c).fill ≡ c.fill)
        × (lookup p.portfolio_name (handle_un_subscription p c).stg_class ≡ none)
  unfolding handle_un_subscription
  dropped_waiting p node c there waits = rw there (
    on_un_subscription_waiting (record { stg = node.stg; fill = c.fill }) waits,
    lookup-remove p.portfolio_name p.portfolio_name c.stg_class
        ∙ rw (=?ℤ_refl p.portfolio_name) refl,
  )

  -- The order is orphaned: the client unsubscribes a portfolio while its first order on the
  -- creating side of leg 1 waits for its confirmation and no order works on the other side. Then
  -- nothing is queued to withdraw the order, the strategy is erased, and when the exchange confirms
  -- the order under the tag of the portfolio, the confirmation goes to a strategy that is made for
  -- it and queues nothing. The client number has three digits, the portfolio number one or two.
  pub handle_un_subscription_orphans :
      (cid pf : ℕ) (r : OeResponseTr) (p : FoPair) (node : Node) (c : AutoClient m.hub)
      → 100 ≤ cid
      → cid < 1000
      → 0 < pf
      → pf < 100
      → p.portfolio_name ≡ pos pf
      → lookup (pos pf) c.stg_class ≡ some node
      → IsWaiting (record { stg = node.stg; fill = c.fill })
      → let u = handle_un_subscription p c in
        let fresh = fresh_node m u.next_address in
        (u.fill ≡ c.fill)
        × (lookup (pos pf) u.stg_class ≡ none)
        × ((d : AutoClient m.hub) × (on_report m
                (subscription_tag (pos cid) (pos pf))
                (confirmation r)
                u
              ≡ some (d, (pos cid, pos pf, confirmation r) ∷ []))
            × (d.fill ≡ c.fill)
            × (lookup (pos pf) d.stg_class
                ≡ some (record fresh { stg = order_confirmation_tr r fresh.stg })))
  unfolding step
  handle_un_subscription_orphans cid pf r p node c lo hi pf_lo pf_hi named there waits =
      let u : AutoClient m.hub = handle_un_subscription p c in
      let fresh : Node = fresh_node m u.next_address in
      let drop = dropped_waiting p node c (ap (λ i. lookup i c.stg_class) named ∙ there) waits in
      let gone : lookup (pos pf) u.stg_class ≡ none =
        ap (λ i. lookup i u.stg_class) (sym named) ∙ drop.1 in
      let before : World = world_of m (pos pf) u in
      let after : World = record before { stg = order_confirmation_tr r before.stg } in
      let (d, answered, moves) =
        on_report-Moves m cid pf (confirmation r) (confirms r) after u lo hi pf_lo pf_hi refl
          refl in
      let made : world_of m (pos pf) u ≡ record { stg = fresh.stg; fill = u.fill } = rw gone refl in
      (drop.0, gone, (d, answered, moves.queues ∙ drop.0, moves.moved ∙ rw gone refl))
