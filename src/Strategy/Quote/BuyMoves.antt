-- ===== src/Strategy/Quote/BuyMoves.antt =====
-- What a price may make a strategy do with its buy order of leg 1.
use jansan.Common.{
  ◌≡◌, ◌≢◌, refl, Bool, true, false, not, ◌&&◌, ◌||◌, inl, inr, ℤ, pos, ◌<ℤ◌, Bool-cases, ltb_ℤ,
  ◌=?ℤ◌, ltb_ℤ→lt, if_intro, =?ℤ→ne, =?ℤ→eq, true_of_and, true_of_or, arith, subst, sym,
}
use jansan.Common.Words.{ntohl, ◌*i◌, abs}
use jansan.Messages.{pending, OmRequestTr, PfHolder, best, depth}
use jansan.Queue.{bid_queue}
use jansan.Strategy.{Strategy, World}
use jansan.Strategy.Prices.{may_buy, is_resting, far_month_buy_rate, depth_buy_rate}
use jansan.Strategy.Orders.{
  modified_order, cancelled_order, order_mod_in_tr_cr, order_cancel_in_tr, new_order,
  board_lot_in_tr_buy, is_no_order, send_pf_buy,
}
use jansan.Strategy.Quote.{place_buy, move_buy, quote_buy, buy_lots, cancel_buy}
use jansan.Strategy.Quote.BuyPrices.{
  IsBuyPrice, improves, joins, crosses, OutOfReach, IsBuyIdle, stopped, busy, unpriced, crossed,
  unchanged, no_group, far_month_buy_rate-IsBuyPrice, ltb_ℤ→not_lt, not_positive,
}

-- The holder of a new order, and of a message about the order on the exchange.
abbrev pub new_holder : Strategy → ℤ → PfHolder
new_holder s rate = record (s.holders.pf_buy) {
  oetr = new_order s s.sides.create (ntohl (buy_lots s *i s.blq)) (ntohl rate);
  size = pos 136;
}

abbrev pub change_holder : Strategy → OmRequestTr → PfHolder
change_holder s obj = record (s.holders.pf_buy) { size = pos 164; omtr = obj }

-- What one price may change on the buy side: v is the world after it.
pub data BuyMove (w v : World) : Type 0 where
  stay : IsBuyIdle w.stg → v ≡ w → BuyMove w v
  place :
      (rate : ℤ)
      → may_buy w.stg ≡ true
      → IsBuyPrice w.stg rate
      → pos 0 <ℤ rate
      → w.stg.leg_prices.leg1_best_create <ℤ w.stg.leg_prices.leg1_best_reverse
      → v.stg ≡ record (w.stg) { buy_far_status = pending; buy_mod_quote_rate = rate }
      → v.fill ≡ bid_queue (new_holder w.stg rate) w.fill
      → BuyMove w v
  modify :
      (rate : ℤ)
      → is_resting w.stg.buy_far_status ≡ true
      → IsBuyPrice w.stg rate
      → w.stg.buy_mod_quote_rate ≢ rate
      → v.stg ≡ record (w.stg) {
        buy_far_status = pending;
        buy_mod_quote_rate = rate;
        holders = record (w.stg.holders) {
          pf_buy = change_holder w.stg (modified_order w.stg rate w.stg.sides.create);
        };
      }
      → v.fill
        ≡ bid_queue (change_holder w.stg (modified_order w.stg rate w.stg.sides.create)) w.fill
      → BuyMove w v
  withdraw :
      is_resting w.stg.buy_far_status ≡ true
      → OutOfReach w.stg
      → is_no_order (cancelled_order w.stg w.stg.sides.create).order_number ≡ false
      → v.stg ≡ record (w.stg) {
        buy_far_status = pending;
        holders = record (w.stg.holders) {
          pf_buy = change_holder w.stg (cancelled_order w.stg w.stg.sides.create);
        };
      }
      → v.fill ≡ bid_queue (change_holder w.stg (cancelled_order w.stg w.stg.sides.create)) w.fill
      → BuyMove w v
  hang :
      is_resting w.stg.buy_far_status ≡ true
      → OutOfReach w.stg
      → is_no_order (cancelled_order w.stg w.stg.sides.create).order_number ≡ true
      → v ≡ record w { stg = record (w.stg) { buy_far_status = pending } }
      → BuyMove w v

place_buy-BuyMove : (w : World) → may_buy w.stg ≡ true → BuyMove w (place_buy w)
unfolding place_buy board_lot_in_tr_buy
place_buy-BuyMove w may =
    let p = w.stg.leg_prices in
    let rate : ℤ = far_month_buy_rate w.stg in
    elim (Bool-cases (ltb_ℤ (pos 0) rate)) [
      | inr low ↦ stay (unpriced may λ other. not_positive w.stg other low) (rw low)
      | inl high ↦ elim (Bool-cases (ltb_ℤ p.leg1_best_create p.leg1_best_reverse)) [
        | inr not_apart ↦
            stay (crossed may (ltb_ℤ→not_lt p.leg1_best_create p.leg1_best_reverse not_apart))
              (rw (high, not_apart))
        | inl apart ↦
            let positive = ltb_ℤ→lt (pos 0) rate high in
            place rate may (far_month_buy_rate-IsBuyPrice w.stg positive) positive
              (ltb_ℤ→lt p.leg1_best_create p.leg1_best_reverse apart) (rw (high, apart))
              (rw (high, apart))
      ]
    ]

order_mod-BuyMove :
    (w : World) (rate : ℤ)
    → is_resting w.stg.buy_far_status ≡ true
    → IsBuyPrice w.stg rate
    → BuyMove w (order_mod_in_tr_cr rate w.stg.sides.create w)
unfolding order_mod_in_tr_cr send_pf_buy
order_mod-BuyMove w rate resting price =
    if_intro (BuyMove w) _
      (λ same.
        let e = =?ℤ→eq w.stg.buy_mod_quote_rate rate same in
        stay (unchanged resting (subst (IsBuyPrice w.stg) (sym e) price)) refl)
      λ new. modify rate resting price (=?ℤ→ne w.stg.buy_mod_quote_rate rate new) refl refl

cancel_buy-BuyMove :
    (w : World)
    → is_resting w.stg.buy_far_status ≡ true
    → OutOfReach w.stg
    → BuyMove w (cancel_buy w)
unfolding cancel_buy order_cancel_in_tr send_pf_buy
cancel_buy-BuyMove w resting beyond =
    if_intro (BuyMove w) _ (λ unknown. hang resting beyond unknown refl)
      λ known. withdraw resting beyond known refl refl

one_of_three :
    (wanted market : ℤ) (off : Bool)
    → off ≡ false
    → (ltb_ℤ market wanted && not off) ≡ false
    → (wanted =?ℤ market && not off) ≡ false
    → ¬ ((ltb_ℤ wanted market || off) ≡ false)
one_of_three wanted market off on a b c = ground arith

module _ (w : World) where
  abbrev wanted : ℤ
  wanted = abs w.stg.limits.bfsn_diff

  abbrev market : ℤ
  market = abs w.stg.products.bids_difference

  abbrev off : Bool
  off = w.stg.cancel_buy_order

  move_buy-BuyMove : is_resting w.stg.buy_far_status ≡ true → off ≡ false → BuyMove w (move_buy w)
  unfolding move_buy depth_buy_rate
  move_buy-BuyMove resting on =
      let M = BuyMove w in
      let change = λ (rate : ℤ). order_mod-BuyMove w rate resting in
      if_intro M (w.stg.instance_group =?ℤ best)
        (λ is_best.
          let group = =?ℤ→eq w.stg.instance_group best is_best in
          if_intro M (ltb_ℤ market wanted && not off)
            (λ better. change _ (
              improves group
                (ltb_ℤ→lt market wanted (true_of_and (ltb_ℤ market wanted) (not off) better)) refl))
            λ not_better.
              if_intro M (wanted =?ℤ market && not off)
                (λ same. change _ (
                  joins group
                    (=?ℤ→eq wanted market (true_of_and (wanted =?ℤ market) (not off) same)) refl))
                λ not_same.
                  if_intro M (ltb_ℤ wanted market || off)
                    (λ worse. cancel_buy-BuyMove w resting (
                      group,
                      ltb_ℤ→lt wanted market (true_of_or (ltb_ℤ wanted market) off on worse),
                    ))
                    λ not_worse.
                      absurd (one_of_three wanted market off on not_better not_same not_worse))
        λ not_best.
          if_intro M (w.stg.instance_group =?ℤ depth)
            (λ is_depth.
              if_intro M off (λ halted. absurd (ground arith))
                λ _. change _ (crosses (=?ℤ→eq w.stg.instance_group depth is_depth) refl))
            λ not_depth.
              stay
                (no_group resting (=?ℤ→ne w.stg.instance_group best not_best)
                  (=?ℤ→ne w.stg.instance_group depth not_depth))
                refl

-- A price leaves the buy side alone where nothing is to be done (it is stopped, an answer is
-- awaited, no positive price is asked for, the book is crossed, or the price is the old one), places one new order when none rests on the exchange, or, when
-- one rests there, modifies it to another price, withdraws it, or, if its order number is not
-- known, only waits for an answer that was not asked for. The price of a new or modified order is
-- the one that the group of the strategy asks for (in Best, the best creating price plus 5, or that
-- price; in Depth, what the other legs and the wanted difference come to). A new order has a
-- positive price and goes out while the book of leg 1 is not crossed; an order is withdrawn in Best
-- only, when the market does not leave the wanted difference.
pub quote_buy-BuyMove : (w : World) → BuyMove w (quote_buy w)
unfolding quote_buy
quote_buy-BuyMove w =
    let M = BuyMove w in
    if_intro M w.stg.cancel_buy_order (λ halted. stay (stopped halted) refl)
      λ on. if_intro M (may_buy w.stg) (place_buy-BuyMove w) λ may_not.
        if_intro M (is_resting w.stg.buy_far_status) (λ resting. move_buy-BuyMove w resting on)
          λ not_resting. stay (busy may_not not_resting) refl
