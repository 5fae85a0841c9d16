-- ===== src/Strategy/Confirm/Answers.antt =====
-- What a strategy sends about its buy order after the exchange's answers: ORDER_CANCEL_IN_TR and
-- ORDER_MOD_IN_TR_CR of OrderServer-20151216-AtHome/src/StrategyClass.cpp.
use jansan.Common.{
  ℤ, pos, ◌≡◌, ◌≢◌, refl, ◌∙◌, ap, sym, false, List, ◌=?ℤ◌, =?ℤ_refl, arith, =?ℤ→eq,
}
use jansan.Common.Words.{ntohl}
use jansan.Messages.{pending, OeResponseTr, OmRequestTr, PfHolder}
use jansan.Queue.{bid_queue}
use jansan.Strategy.{Strategy, World}
use jansan.Strategy.Orders.{order_cancel_in_tr, order_mod_in_tr_cr, send_pf_buy, is_no_order}
use jansan.Strategy.Confirm.Latest.{
  IsForBuy, AreForBuy, IsAbout, Knows, latest, answered, answered-Knows, recoded-IsAbout,
}

cancel_known :
    (w : World)
    → is_no_order w.stg.nm_pack.far_month_mod_buy.order_number ≡ false
    → (order_cancel_in_tr w.stg.sides.create w).fill
      ≡ bid_queue
          (record (w.stg.holders.pf_buy) {
            size = pos 164;
            omtr = record (w.stg.nm_pack.far_month_mod_buy) {
              transaction_code = w.stg.cancel_code;
            };
          })
          w.fill
unfolding order_cancel_in_tr send_pf_buy
cancel_known w known = rw (=?ℤ_refl w.stg.sides.create, known) refl

move_known :
    (w : World) (rate : ℤ)
    → (w.stg.buy_mod_quote_rate =?ℤ rate) ≡ false
    → let v = order_mod_in_tr_cr rate w.stg.sides.create w in
      (v.fill
        ≡ bid_queue
            (record (w.stg.holders.pf_buy) {
              size = pos 164;
              omtr = record (w.stg.nm_pack.far_month_mod_buy) {
                transaction_code = w.stg.modification_code;
                price = ntohl rate;
              };
            })
            w.fill)
      × (v.stg.buy_far_status ≡ pending)
      × (v.stg.buy_mod_quote_rate ≡ rate)
unfolding order_mod_in_tr_cr send_pf_buy
move_known w rate apart = rw (=?ℤ_refl w.stg.sides.create, apart) (refl, refl, refl)

-- Once the exchange has accepted the buy order of leg 1, and confirmed any number of modifications
-- of it, cancelling it queues one message of 164 bytes under the strategy's tag, if the latest of
-- these answers gives an order number: with the transaction code of a cancellation, the contract
-- that was prepared, and the number, price, volumes and times of the latest answer.
pub order_cancel-confirmation :
    (r : OeResponseTr) (rs : List OeResponseTr) (w : World)
    → IsForBuy r w.stg
    → AreForBuy w.stg rs
    → is_no_order (latest r rs).order_number ≡ false
    → (d : PfHolder) × ((order_cancel_in_tr w.stg.sides.create (answered r rs w)).fill
        ≡ bid_queue d w.fill)
      × (d.size ≡ pos 164)
      × (d.subscription_tag ≡ w.stg.holders.pf_buy.subscription_tag)
      × (d.omtr.transaction_code ≡ w.stg.cancel_code)
      × (d.omtr.token_no ≡ w.stg.nm_pack.far_month_mod_buy.token_no)
      × (d.omtr.price ≡ (latest r rs).price)
      × IsAbout (latest r rs) d.omtr
order_cancel-confirmation r rs w f fs known =
    let t : Strategy = (answered r rs w).stg in
    let k : Knows (latest r rs) w.stg t = answered-Knows r rs w f fs in
    let m : OmRequestTr = t.nm_pack.far_month_mod_buy in
    let order : OmRequestTr = record m { transaction_code = t.cancel_code } in
    let v : World = answered r rs w in
    let there = ap is_no_order k.about.number ∙ known in
    (
      record (t.holders.pf_buy) { size = pos 164; omtr = order },
      ap (λ x. (order_cancel_in_tr x.create v).fill) (sym k.sides) ∙ cancel_known v there,
      refl,
      ap (λ h. h.pf_buy.subscription_tag) k.holders,
      k.codes.0,
      k.token,
      k.price,
      recoded-IsAbout (latest r rs) m t.cancel_code m.price k.about,
    )

-- Once the exchange has accepted the buy order of leg 1, and confirmed any number of modifications
-- of it, moving it to another price than the last one quoted queues one message of 164 bytes under
-- the strategy's tag: with the transaction code of a modification, the contract that was prepared,
-- the new price in network byte order, and the number, volumes and times of the latest answer. The
-- strategy then waits for the answer.
pub order_mod-confirmation :
    (r : OeResponseTr) (rs : List OeResponseTr) (w : World) (price : ℤ)
    → IsForBuy r w.stg
    → AreForBuy w.stg rs
    → w.stg.buy_mod_quote_rate ≢ price
    → let v = order_mod_in_tr_cr price w.stg.sides.create (answered r rs w) in
      (d : PfHolder) × (v.fill ≡ bid_queue d w.fill)
      × (d.size ≡ pos 164)
      × (d.subscription_tag ≡ w.stg.holders.pf_buy.subscription_tag)
      × (d.omtr.transaction_code ≡ w.stg.modification_code)
      × (d.omtr.token_no ≡ w.stg.nm_pack.far_month_mod_buy.token_no)
      × (d.omtr.price ≡ ntohl price)
      × IsAbout (latest r rs) d.omtr
      × (v.stg.buy_far_status ≡ pending)
      × (v.stg.buy_mod_quote_rate ≡ price)
order_mod-confirmation r rs w price f fs new =
    let t : Strategy = (answered r rs w).stg in
    let k : Knows (latest r rs) w.stg t = answered-Knows r rs w f fs in
    let m : OmRequestTr = t.nm_pack.far_month_mod_buy in
    let order : OmRequestTr = record m {
      transaction_code = t.modification_code;
      price = ntohl price;
    } in
    let v : World = answered r rs w in
    let apart : (t.buy_mod_quote_rate =?ℤ price) ≡ false =
      ap (λ x. x =?ℤ price) k.rate ∙ ground (arith, =?ℤ→eq w.stg.buy_mod_quote_rate price) in
    let sent = move_known v price apart in
    let turn = sym k.sides in
    (
      record (t.holders.pf_buy) { size = pos 164; omtr = order },
      ap (λ x. (order_mod_in_tr_cr price x.create v).fill) turn ∙ sent.0,
      refl,
      ap (λ h. h.pf_buy.subscription_tag) k.holders,
      k.codes.1,
      k.token,
      refl,
      recoded-IsAbout (latest r rs) m t.modification_code (ntohl price) k.about,
      ap (λ x. (order_mod_in_tr_cr price x.create v).stg.buy_far_status) turn ∙ sent.1,
      ap (λ x. (order_mod_in_tr_cr price x.create v).stg.buy_mod_quote_rate) turn ∙ sent.2,
    )
