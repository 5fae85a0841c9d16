-- ===== src/Strategy/Tests.antt =====
-- The handlers of OrderServer-20151216-AtHome/src/StrategyClass.cpp at one strategy.
use native.Mathlib.Nat.{mul_assoc}
use jansan.Common.{
  ℕ, ◌*◌, ◌+◌, ◌/◌, ◌≡◌, ◌≢◌, ◌<◌, refl, sym, ◌∙◌, ap, arith, some, [], ◌∷◌, inl, pos, List, ◌++◌,
  true, false,
}
use jansan.Common.Words.{htonl, htons, ntohl, ntohs, swap16, swap32, word, signed}
use jansan.Messages.{pending, sell, PfHolder, OeResponseTr, TradeConfirmTr}
use jansan.Queue.{bid_queue}
use jansan.Strategy.{World}
use jansan.Strategy.Sample.{
  sample, world, stopped, waiting, far_price, fill_of_two, acceptance, exact_hit, quoting,
}
use jansan.Strategy.Orders.{order_cancel_in_tr, order_mod_in_tr_cr}
use jansan.Strategy.Quote.{quote_buy, quote_sell, on_data, buy_lots}
use jansan.Strategy.Quote.Lots.{Fits, buy_lots-Fits}
use jansan.Strategy.Quote.BuyMoves.{BuyMove, quote_buy-BuyMove}
use jansan.Strategy.Quote.SellMoves.{SellMove, quote_sell-SellMove}
use jansan.Strategy.Quote.Silence.{IsSilent, on_data_quiet}
use jansan.Strategy.Confirm.Latest.{
  IsForBuy, AreForBuy, no_more, one_more, IsAbout, answered, latest,
}
use jansan.Strategy.Confirm.Answers.{order_cancel-confirmation, order_mod-confirmation}
use jansan.Strategy.Trade.{trade_far}
use jansan.Strategy.Trade.Amounts.{IsExact, IsFill, mul_div, traded_on}
use jansan.Strategy.Trade.Spread.{IsSpread, hedges}
use jansan.Strategy.Trade.Hedge.{trade_far_balances, trade_far_overhedges}
use jansan.Strategy.Events.{Event, trades, unsubscribes, quotes, confirms, run, step}
use jansan.Strategy.Events.Returns.{run-Returns}
use jansan.Strategy.Events.Stopped.{IsStopped, run-IsStopped}
use jansan.Strategy.Events.Status.{Change}
use jansan.Strategy.Events.Status.Steps.{step-Change}

-- A price that makes the strategy place an order on each side.
abbrev placing : World
placing = record world { stg = quoting }

quote_buy-BuyMove_example : BuyMove placing (quote_buy placing)
quote_buy-BuyMove_example = quote_buy-BuyMove placing

quote_sell-SellMove_example : SellMove placing (quote_sell placing)
quote_sell-SellMove_example = quote_sell-SellMove placing

on_data_quiet_example : IsSilent waiting (on_data far_price waiting)
on_data_quiet_example = on_data_quiet far_price waiting (inl refl, inl refl)

abbrev after_price : World
after_price = on_data far_price stopped

runs : run exact_hit (quotes far_price ∷ []) stopped ≡ some after_price
unfolding run step
runs = refl

run-IsStopped_example : (after_price.fill.bid ≡ stopped.fill.bid) × IsStopped after_price.stg
run-IsStopped_example =
    run-IsStopped exact_hit (quotes far_price ∷ []) stopped after_price tt (refl, refl) runs

acceptance-IsForBuy : IsForBuy acceptance sample
unfolding ntohl ntohs swap16 swap32 word signed
acceptance-IsForBuy = (refl, refl)

-- The order is then modified to another price.
abbrev changed : OeResponseTr
changed = record acceptance { price = htonl (pos 800050); last_modified = pos 9 }

changed-IsForBuy : IsForBuy changed sample
unfolding ntohl ntohs swap16 swap32 word signed
changed-IsForBuy = (refl, refl)

changed-AreForBuy : AreForBuy sample (changed ∷ [])
changed-AreForBuy = one_more changed [] changed-IsForBuy no_more

abbrev live : World
live = answered acceptance (changed ∷ []) world

order_cancel-confirmation_example :
    (d : PfHolder) × ((order_cancel_in_tr (pos 1) live).fill ≡ bid_queue d world.fill)
    × (d.size ≡ pos 164)
    × (d.subscription_tag ≡ pos 0)
    × (d.omtr.transaction_code ≡ ntohs (pos 20070))
    × (d.omtr.token_no ≡ pos 0)
    × (d.omtr.price ≡ htonl (pos 800050))
    × IsAbout changed d.omtr
unfolding latest
order_cancel-confirmation_example =
    order_cancel-confirmation acceptance (changed ∷ []) world acceptance-IsForBuy changed-AreForBuy
      refl

abbrev moved : World
moved = order_mod_in_tr_cr (pos 800100) (pos 1) live

order_mod-confirmation_example :
    (d : PfHolder) × (moved.fill ≡ bid_queue d world.fill)
    × (d.size ≡ pos 164)
    × (d.subscription_tag ≡ pos 0)
    × (d.omtr.transaction_code ≡ ntohs (pos 20040))
    × (d.omtr.token_no ≡ pos 0)
    × (d.omtr.price ≡ ntohl (pos 800100))
    × IsAbout changed d.omtr
    × (moved.stg.buy_far_status ≡ pending)
    × (moved.stg.buy_mod_quote_rate ≡ pos 800100)
unfolding latest
order_mod-confirmation_example =
    order_mod-confirmation acceptance (changed ∷ []) world (pos 800100) acceptance-IsForBuy
      changed-AreForBuy zero-ne
  where
    zero-ne : pos 0 ≢ pos 800100
    zero-ne e = ground arith

undivided : (q k d b : ℕ) → 0 < d → q * (k * d) / d * b ≡ q * k * b
undivided q k d b h =
    ap (λ x. x * b) (ap (λ x. x / d) (sym (mul_assoc q k d)) ∙ mul_div (q * k) d h)

exact_hit-IsExact : IsExact exact_hit
exact_hit-IsExact = record { whole = λ q k d b pd hk hq. ap pos (undivided q k d b pd) }

sample-IsSpread : IsSpread true sample 1 75 1 1 1 0 0 1
sample-IsSpread = record {
  second = record {
    traded = refl;
    hedged = refl;
    lot = refl;
    ratio = refl;
    lot_pos = omega arith;
    den_pos = omega arith;
    ratio_lt = omega arith;
  };
  third = record {
    traded = refl;
    hedged = refl;
    lot = refl;
    ratio = refl;
    lot_pos = omega arith;
    den_pos = omega arith;
    ratio_lt = omega arith;
  };
  agree = refl;
}

-- The other side of the same strategy, which has not traded.
sample-IsSpread_reverse : IsSpread false sample 0 75 0 1 1 0 0 1
sample-IsSpread_reverse = record {
  second = record {
    traded = refl;
    hedged = refl;
    lot = refl;
    ratio = refl;
    lot_pos = omega arith;
    den_pos = omega arith;
    ratio_lt = omega arith;
  };
  third = record {
    traded = refl;
    hedged = refl;
    lot = refl;
    ratio = refl;
    lot_pos = omega arith;
    den_pos = omega arith;
    ratio_lt = omega arith;
  };
  agree = refl;
}

fill_of_two-IsFill : IsFill true fill_of_two sample 2 75
unfolding ntohs swap16 word signed
fill_of_two-IsFill = record { on_side = refl; amount = refl }

abbrev sale_of_two : TradeConfirmTr
sale_of_two = record fill_of_two { buy_sell_indicator = htons sell }

sale_of_two-IsFill : IsFill false sale_of_two sample 2 75
unfolding ntohs swap16 word signed
sale_of_two-IsFill = record { on_side = refl; amount = refl }

trade_far_balances_example :
    (p q : ℕ) × (0 * 75 + p ≡ (0 + 2) * 1 * 75)
    × (0 * 75 + q ≡ (0 + 2) * 0 * 75)
    × ((trade_far exact_hit sale_of_two world).fill.mkt.the_queue ≡ hedges false sample p q)
    × ((trade_far exact_hit sale_of_two world).fill.bid ≡ world.fill.bid)
    × (traded_on false (trade_far exact_hit sale_of_two world).stg ≡ pos 2)
trade_far_balances_example =
    trade_far_balances false exact_hit sale_of_two world 0 75 2 0 1 1 0 0 1 exact_hit-IsExact
      sample-IsSpread_reverse sale_of_two-IsFill (omega arith) (omega arith) (omega arith)
      (omega arith) (omega arith) (omega arith) (omega arith)

abbrev filled_twice : World
filled_twice = trade_far exact_hit fill_of_two (trade_far exact_hit fill_of_two world)

trade_far_overhedges_example :
    (p q p' q' : ℕ) × (filled_twice.fill.mkt.the_queue
      ≡ hedges true sample p q ++ hedges true sample p' q')
    × (1 * 75 + p ≡ (1 + 2) * 1 * 75)
    × (1 * 75 + p' ≡ (1 + 2 + 2) * 1 * 75)
    × ((1 + 2 + 2) * 1 * 75 < 1 * 75 + p + p')
trade_far_overhedges_example =
    trade_far_overhedges true exact_hit fill_of_two fill_of_two world 1 75 2 2 1 1 1 0 0 1
      exact_hit-IsExact sample-IsSpread fill_of_two-IsFill fill_of_two-IsFill (omega arith)
      (omega arith) (omega arith) (omega arith) (omega arith) (omega arith) (omega arith)
      (omega arith)

abbrev day : List Event
day = trades fill_of_two ∷ quotes far_price ∷ unsubscribes ∷ confirms acceptance ∷ []

run-Returns_example : (v : World) × (run exact_hit day world ≡ some v) × (v.stg.blq ≡ pos 75)
unfolding word
run-Returns_example = run-Returns exact_hit day world refl

buy_lots-Fits_example : Fits (buy_lots quoting) 1 2 1
buy_lots-Fits_example = buy_lots-Fits quoting 1 2 1 refl refl refl refl (omega arith) (omega arith)

abbrev after_quote : World
after_quote = on_data far_price world

stepped : step exact_hit (quotes far_price) world ≡ some after_quote
unfolding step
stepped = refl

step-Change_example :
    Change (quotes far_price) world.stg.buy_far_status after_quote.stg.buy_far_status
step-Change_example = step-Change exact_hit (quotes far_price) world after_quote stepped
