-- ===== src/Strategy/Quote/BuyPrices.antt =====
-- At which price a strategy quotes its buy order of leg 1, and when it has nothing to do: OnDataEventHandler
-- of OrderServer-20151216-AtHome/src/StrategyClass.cpp.
use jansan.Common.{
  ◌≡◌, ◌≢◌, refl, sym, ap, ◌∙◌, true, false, ℤ, pos, ◌<ℤ◌, ltb_ℤ, ◌=?ℤ◌, ltb_ℤ→lt, if_intro, =?ℤ→eq,
  =?ℤ_refl, arith,
}
use jansan.Common.Words.{◌+i◌, abs}
use jansan.Messages.{best, depth}
use jansan.Strategy.{Strategy}
use jansan.Strategy.Prices.{may_buy, is_resting, far_month_buy_rate, depth_buy_rate}

-- The price that the group of the strategy asks for: in Best, one step of 5 better than the best
-- price of the own side while the market leaves more than the difference that is wanted, and that
-- price when it leaves just as much; in Depth, what the other legs and the wanted difference come
-- to.
pub data IsBuyPrice (s : Strategy) (rate : ℤ) : Type 0 where
  improves :
      s.instance_group ≡ best
      → abs s.products.bids_difference <ℤ abs s.limits.bfsn_diff
      → rate ≡ s.leg_prices.leg1_best_create +i pos 5
      → IsBuyPrice s rate
  joins :
      s.instance_group ≡ best
      → abs s.limits.bfsn_diff ≡ abs s.products.bids_difference
      → rate ≡ s.leg_prices.leg1_best_create
      → IsBuyPrice s rate
  crosses :
      s.instance_group ≡ depth
      → rate ≡ abs (s.products.second_buy +i s.products.third_buy +i s.limits.bfsn_diff)
      → IsBuyPrice s rate

-- The market does not leave the difference that is wanted.
abbrev pub OutOfReach : Strategy → Type 0
OutOfReach s =
    (s.instance_group ≡ best) × (abs s.limits.bfsn_diff <ℤ abs s.products.bids_difference)

-- Nothing is to be done: the side is stopped; an order waits for an answer or may not be placed; no price
-- is asked for, or none that is positive; the book is crossed; the order has its price already; or the group
-- is neither Best nor Depth.
pub data IsBuyIdle (s : Strategy) : Type 0 where
  stopped : s.cancel_buy_order ≡ true → IsBuyIdle s
  busy : may_buy s ≡ false → is_resting s.buy_far_status ≡ false → IsBuyIdle s
  unpriced : may_buy s ≡ true → ((rate : ℤ) → IsBuyPrice s rate → ¬ (pos 0 <ℤ rate)) → IsBuyIdle s
  crossed :
      may_buy s ≡ true
      → ¬ (s.leg_prices.leg1_best_create <ℤ s.leg_prices.leg1_best_reverse)
      → IsBuyIdle s
  unchanged : is_resting s.buy_far_status ≡ true → IsBuyPrice s s.buy_mod_quote_rate → IsBuyIdle s
  no_group :
      is_resting s.buy_far_status ≡ true
      → s.instance_group ≢ best
      → s.instance_group ≢ depth
      → IsBuyIdle s

pub far_month_buy_rate-IsBuyPrice :
    (s : Strategy) → pos 0 <ℤ far_month_buy_rate s → IsBuyPrice s (far_month_buy_rate s)
unfolding far_month_buy_rate depth_buy_rate
far_month_buy_rate-IsBuyPrice s =
    let P = λ (rate : ℤ). pos 0 <ℤ rate → IsBuyPrice s rate in
    let wanted : ℤ = abs s.limits.bfsn_diff in
    let market : ℤ = abs s.products.bids_difference in
    if_intro P (s.instance_group =?ℤ best)
      (λ is_best.
        let group = =?ℤ→eq s.instance_group best is_best in
        if_intro P (ltb_ℤ market wanted)
          (λ better. λ _. improves group (ltb_ℤ→lt market wanted better) refl)
          λ _.
            if_intro P (wanted =?ℤ market)
              (λ same. λ _. joins group (=?ℤ→eq wanted market same) refl)
              λ _. λ high. absurd (ground arith))
      λ _.
        if_intro P (s.instance_group =?ℤ depth)
          (λ is_depth. λ _. crosses (=?ℤ→eq s.instance_group depth is_depth) refl)
          λ _. λ high. absurd (ground arith)

lt→ltb_ℤ : (a b : ℤ) → a <ℤ b → ltb_ℤ a b ≡ true
lt→ltb_ℤ a b h = ground arith

ltb_ℤ_irrefl : (a : ℤ) → ltb_ℤ a a ≡ false
ltb_ℤ_irrefl a = ground arith

pub ltb_ℤ→not_lt : (a b : ℤ) → ltb_ℤ a b ≡ false → ¬ (a <ℤ b)
ltb_ℤ→not_lt a b h l = ground arith

-- There is one price only.
far_month_buy_rate_unique :
    (s : Strategy) (rate : ℤ) → IsBuyPrice s rate → far_month_buy_rate s ≡ rate
unfolding far_month_buy_rate depth_buy_rate
far_month_buy_rate_unique s rate (improves group better e) =
    rw
      (
        ap (λ g. g =?ℤ best) group,
        lt→ltb_ℤ (abs s.products.bids_difference) (abs s.limits.bfsn_diff) better,
      )
      (sym e)
far_month_buy_rate_unique s rate (joins group same e) =
    rw
      (
        ap (λ g. g =?ℤ best) group,
        same,
        ltb_ℤ_irrefl (abs s.products.bids_difference),
        =?ℤ_refl (abs s.products.bids_difference),
      )
      (sym e)
far_month_buy_rate_unique s rate (crosses group e) = rw group (sym e)

pub not_positive :
    (s : Strategy) (rate : ℤ)
    → ltb_ℤ (pos 0) (far_month_buy_rate s) ≡ false
    → IsBuyPrice s rate
    → ¬ (pos 0 <ℤ rate)
not_positive s rate low price =
    ltb_ℤ→not_lt (pos 0) rate
      (ap (λ r. ltb_ℤ (pos 0) r) (sym (far_month_buy_rate_unique s rate price)) ∙ low)
