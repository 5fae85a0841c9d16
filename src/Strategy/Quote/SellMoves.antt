-- ===== src/Strategy/Quote/SellMoves.antt =====
-- What a price may make a strategy do with its sell order of leg 1.
use jansan.Common.{
  ◌≡◌, ◌≢◌, refl, Bool, true, false, not, ◌&&◌, ◌||◌, inl, inr, ℤ, pos, ◌<ℤ◌, Bool-cases, ltb_ℤ,
  ◌=?ℤ◌, ltb_ℤ→lt, if_intro, =?ℤ→ne, =?ℤ→eq, true_of_and, true_of_or, arith, subst, sym,
}
use jansan.Common.Words.{ntohl, ◌*i◌, abs}
use jansan.Messages.{pending, OmRequestTr, PfHolder, best, depth}
use jansan.Queue.{bid_queue}
use jansan.Strategy.{Strategy, World}
use jansan.Strategy.Prices.{may_sell, is_resting, far_month_sell_rate, depth_sell_rate}
use jansan.Strategy.Orders.{
  modified_order, cancelled_order, order_mod_in_tr_rv, order_cancel_in_tr, new_order,
  board_lot_in_tr_sell, is_no_order, send_pf_buy,
}
use jansan.Strategy.Quote.{place_sell, move_sell, quote_sell, sell_lots, cancel_sell}
use jansan.Strategy.Quote.SellPrices.{
  IsSellPrice, improves, joins, crosses, OutOfReach, IsSellIdle, stopped, busy, unpriced, crossed,
  unchanged, no_group, far_month_sell_rate-IsSellPrice, ltb_ℤ→not_lt, not_positive,
}

-- The holder of a new order, and of a message about the order on the exchange, which goes out in the
-- holder of the buy side.
abbrev pub new_holder : Strategy → ℤ → PfHolder
new_holder s rate = record (s.holders.pf_sell) {
  oetr = new_order s s.sides.reverse (ntohl (sell_lots s *i s.blq)) (ntohl rate);
  size = pos 136;
}

abbrev pub change_holder : Strategy → OmRequestTr → PfHolder
change_holder s obj = record (s.holders.pf_buy) { size = pos 164; omtr = obj }

-- What one price may change on the sell side: v is the world after it.
pub data SellMove (w v : World) : Type 0 where
  stay : IsSellIdle w.stg → v ≡ w → SellMove w v
  place :
      (rate : ℤ)
      → may_sell w.stg ≡ true
      → IsSellPrice w.stg rate
      → pos 0 <ℤ rate
      → w.stg.leg_prices.leg1_best_create <ℤ w.stg.leg_prices.leg1_best_reverse
      → v.stg ≡ record (w.stg) { sell_far_status = pending; sell_mod_quote_rate = rate }
      → v.fill ≡ bid_queue (new_holder w.stg rate) w.fill
      → SellMove w v
  modify :
      (rate : ℤ)
      → is_resting w.stg.sell_far_status ≡ true
      → IsSellPrice w.stg rate
      → w.stg.sell_mod_quote_rate ≢ rate
      → v.stg ≡ record (w.stg) {
        sell_far_status = pending;
        sell_mod_quote_rate = rate;
        holders = record (w.stg.holders) {
          pf_buy = change_holder w.stg (modified_order w.stg rate w.stg.sides.reverse);
        };
      }
      → v.fill
        ≡ bid_queue (change_holder w.stg (modified_order w.stg rate w.stg.sides.reverse)) w.fill
      → SellMove w v
  withdraw :
      is_resting w.stg.sell_far_status ≡ true
      → OutOfReach w.stg
      → is_no_order (cancelled_order w.stg w.stg.sides.reverse).order_number ≡ false
      → v.stg ≡ record (w.stg) {
        sell_far_status = pending;
        holders = record (w.stg.holders) {
          pf_buy = change_holder w.stg (cancelled_order w.stg w.stg.sides.reverse);
        };
      }
      → v.fill ≡ bid_queue (change_holder w.stg (cancelled_order w.stg w.stg.sides.reverse)) w.fill
      → SellMove w v
  hang :
      is_resting w.stg.sell_far_status ≡ true
      → OutOfReach w.stg
      → is_no_order (cancelled_order w.stg w.stg.sides.reverse).order_number ≡ true
      → v ≡ record w { stg = record (w.stg) { sell_far_status = pending } }
      → SellMove w v

place_sell-SellMove : (w : World) → may_sell w.stg ≡ true → SellMove w (place_sell w)
unfolding place_sell board_lot_in_tr_sell
place_sell-SellMove w may =
    let p = w.stg.leg_prices in
    let rate : ℤ = far_month_sell_rate w.stg in
    elim (Bool-cases (ltb_ℤ (pos 0) rate)) [
      | inr low ↦ stay (unpriced may λ other. not_positive w.stg other low) (rw low)
      | inl high ↦ elim (Bool-cases (ltb_ℤ p.leg1_best_create p.leg1_best_reverse)) [
        | inr not_apart ↦
            stay (crossed may (ltb_ℤ→not_lt p.leg1_best_create p.leg1_best_reverse not_apart))
              (rw (high, not_apart))
        | inl apart ↦
            let positive = ltb_ℤ→lt (pos 0) rate high in
            place rate may (far_month_sell_rate-IsSellPrice w.stg positive) positive
              (ltb_ℤ→lt p.leg1_best_create p.leg1_best_reverse apart) (rw (high, apart))
              (rw (high, apart))
      ]
    ]

order_mod-SellMove :
    (w : World) (rate : ℤ)
    → is_resting w.stg.sell_far_status ≡ true
    → IsSellPrice w.stg rate
    → SellMove w (order_mod_in_tr_rv rate w.stg.sides.reverse w)
unfolding order_mod_in_tr_rv send_pf_buy
order_mod-SellMove w rate resting price =
    if_intro (SellMove w) _
      (λ same.
        let e = =?ℤ→eq w.stg.sell_mod_quote_rate rate same in
        stay (unchanged resting (subst (IsSellPrice w.stg) (sym e) price)) refl)
      λ new. modify rate resting price (=?ℤ→ne w.stg.sell_mod_quote_rate rate new) refl refl

cancel_sell-SellMove :
    (w : World)
    → is_resting w.stg.sell_far_status ≡ true
    → OutOfReach w.stg
    → SellMove w (cancel_sell w)
unfolding cancel_sell order_cancel_in_tr send_pf_buy
cancel_sell-SellMove w resting beyond =
    if_intro (SellMove w) _ (λ unknown. hang resting beyond unknown refl)
      λ known. withdraw resting beyond known refl refl

one_of_three :
    (wanted market : ℤ) (off : Bool)
    → off ≡ false
    → (ltb_ℤ wanted market && not off) ≡ false
    → (wanted =?ℤ market && not off) ≡ false
    → ¬ ((ltb_ℤ market wanted || off) ≡ false)
one_of_three wanted market off on a b c = ground arith

module _ (w : World) where
  abbrev wanted : ℤ
  wanted = abs w.stg.limits.bnsf_diff

  abbrev market : ℤ
  market = abs w.stg.products.asks_difference

  abbrev off : Bool
  off = w.stg.cancel_sell_order

  move_sell-SellMove :
      is_resting w.stg.sell_far_status ≡ true → off ≡ false → SellMove w (move_sell w)
  unfolding move_sell depth_sell_rate
  move_sell-SellMove resting on =
      let M = SellMove w in
      let change = λ (rate : ℤ). order_mod-SellMove w rate resting in
      if_intro M (w.stg.instance_group =?ℤ best)
        (λ is_best.
          let group = =?ℤ→eq w.stg.instance_group best is_best in
          if_intro M (ltb_ℤ wanted market && not off)
            (λ better. change _ (
              improves group
                (ltb_ℤ→lt wanted market (true_of_and (ltb_ℤ wanted market) (not off) better)) refl))
            λ not_better.
              if_intro M (wanted =?ℤ market && not off)
                (λ same. change _ (
                  joins group
                    (=?ℤ→eq wanted market (true_of_and (wanted =?ℤ market) (not off) same)) refl))
                λ not_same.
                  if_intro M (ltb_ℤ market wanted || off)
                    (λ worse. cancel_sell-SellMove w resting (
                      group,
                      ltb_ℤ→lt market wanted (true_of_or (ltb_ℤ market wanted) off on worse),
                    ))
                    λ not_worse.
                      absurd (one_of_three wanted market off on not_better not_same not_worse))
        λ not_best.
          if_intro M (w.stg.instance_group =?ℤ depth)
            (λ is_depth.
              if_intro M off (λ halted. absurd (ground arith))
                λ _. change _ (crosses (=?ℤ→eq w.stg.instance_group depth is_depth) refl))
            λ not_depth.
              stay
                (no_group resting (=?ℤ→ne w.stg.instance_group best not_best)
                  (=?ℤ→ne w.stg.instance_group depth not_depth))
                refl

-- A price leaves the sell side alone where nothing is to be done (it is stopped, an answer is
-- awaited, no positive price is asked for, the book is crossed, or the price is the old one), places one new order when none rests on the exchange, or,
-- when one rests there, modifies it to another price, withdraws it, or, if its order number is not
-- known, only waits for an answer that was not asked for. The price of a new or modified order is
-- the one that the group of the strategy asks for (in Best, the best reversing price minus 5, or
-- that price; in Depth, what the other legs and the wanted difference come to). A new order has a
-- positive price and goes out while the book of leg 1 is not crossed; an order is withdrawn in Best
-- only, when the market does not leave the wanted difference.
pub quote_sell-SellMove : (w : World) → SellMove w (quote_sell w)
unfolding quote_sell
quote_sell-SellMove w =
    let M = SellMove w in
    if_intro M w.stg.cancel_sell_order (λ halted. stay (stopped halted) refl)
      λ on. if_intro M (may_sell w.stg) (place_sell-SellMove w) λ may_not.
        if_intro M (is_resting w.stg.sell_far_status) (λ resting. move_sell-SellMove w resting on)
          λ not_resting. stay (busy may_not not_resting) refl
