-- ===== src/Strategy/Quote/Silence.antt =====
-- When a price makes a strategy send nothing.
use jansan.Common.{◌≡◌, refl, true, ◌∙◌, arith, if_intro, ◌=?ℤ◌, ◌&&◌, pos, ◌⊎◌}
use jansan.Messages.{pending, FinalPrice}
use jansan.Strategy.{Strategy, World}
use jansan.Strategy.Prices.{receive, is_priced, lacks_third, products_of}
use jansan.Strategy.Quote.{on_data, quote_buy, quote_sell}

-- Neither side can act: each waits for the exchange, or has been stopped.
abbrev pub IsQuiet : Strategy → Type 0
IsQuiet s =
    ((s.buy_far_status ≡ pending) ⊎ (s.cancel_buy_order ≡ true))
    × ((s.sell_far_status ≡ pending) ⊎ (s.cancel_sell_order ≡ true))

quote_sell_quiet :
    (w : World)
    → (w.stg.sell_far_status ≡ pending) ⊎ (w.stg.cancel_sell_order ≡ true)
    → quote_sell w ≡ w
unfolding quote_sell
quote_sell_quiet w h = ground arith

quote_buy_quiet :
    (w : World)
    → (w.stg.buy_far_status ≡ pending) ⊎ (w.stg.cancel_buy_order ≡ true)
    → quote_buy w ≡ w
unfolding quote_buy
quote_buy_quiet w h = ground arith

-- What a price never touches.
abbrev pub SameOrders : Strategy → Strategy → Type 0
SameOrders s t =
    (t.buy_far_status ≡ s.buy_far_status)
    × (t.sell_far_status ≡ s.sell_far_status)
    × (t.cancel_buy_order ≡ s.cancel_buy_order)
    × (t.cancel_sell_order ≡ s.cancel_sell_order)

receive-SameOrders : (fp : FinalPrice) (s : Strategy) → SameOrders s (receive fp s)
unfolding receive
receive-SameOrders fp s = (ground arith, ground arith, ground arith, ground arith)

-- Nothing was sent, and no order changed its state.
abbrev pub IsSilent : World → World → Type 0
IsSilent w v = (v.fill ≡ w.fill) × SameOrders w.stg v.stg

IsQuiet-SameOrders : (s t : Strategy) → SameOrders s t → IsQuiet s → IsQuiet t
IsQuiet-SameOrders s t o q = ground arith

quotes_quiet : (w : World) → IsQuiet w.stg → IsSilent w (quote_buy (quote_sell w))
quotes_quiet w q =
    rw (quote_sell_quiet w q.1, quote_buy_quiet w q.0) (refl, (refl, refl, refl, refl))

-- While each side waits for an answer of the exchange, or has been stopped, a price sends nothing and
-- changes neither status: no order is sent twice.
pub on_data_quiet : (fp : FinalPrice) (w : World) → IsQuiet w.stg → IsSilent w (on_data fp w)
unfolding on_data
on_data_quiet fp w q =
    let got : Strategy = receive fp (record (w.stg) { count_mutex = true }) in
    let kept : SameOrders w.stg got =
      receive-SameOrders fp (record (w.stg) { count_mutex = true }) in
    let priced : World = record w { stg = record got { products = products_of got } } in
    let (fill, orders) = quotes_quiet priced (IsQuiet-SameOrders w.stg got kept q) in
    if_intro (IsSilent w)
      (w.stg.feeds.far_fp.token =?ℤ pos 0 && w.stg.feeds.near_fp.token =?ℤ pos 0)
      (λ _. (refl, (refl, refl, refl, refl)))
      λ _.
        if_intro (IsSilent w) (is_priced got)
          (λ _.
            if_intro (IsSilent w) (lacks_third got) (λ _. (refl, kept))
              λ _. (
                fill,
                (orders.0 ∙ kept.0, orders.1 ∙ kept.1, orders.2 ∙ kept.2, orders.3 ∙ kept.3),
              ))
          λ _. (refl, kept)
