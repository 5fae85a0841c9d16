-- ===== src/Strategy/Subscribe.antt =====
-- What a client changes in a strategy: OnSubscriptionEventHandler, OnUnSubscriptionEventHandler and
-- OnDifferenceEventHandler of src/StrategyClass.cpp.
use jansan.Common.{Bool, true, false, ℤ, pos, ◌=?ℤ◌, leb_ℤ, if◌then◌else◌}
use jansan.Common.Words.{to_short, ◌*i◌}
use jansan.Messages.{
  OrderStatus, idle, pending, replaced, open_, cancel, rejected, trade, PfHolder, FoPair,
  FoPairDiff, buy, sell,
}
use jansan.Tag.{subscription_tag}
use jansan.Strategy.{Strategy, World, zero_limits, Counters}
use jansan.Strategy.Orders.{order_cancel_in_tr}

-- PF, CID and SubscriptionTag of a holder.
abbrev label : ℤ → ℤ → ℤ → PfHolder → PfHolder
label pf cid tag h = record h { pf = pf; cid = cid; subscription_tag = tag }

unfoldable pub on_subscription : FoPair → Strategy → Strategy
on_subscription p s =
    let pf = to_short p.portfolio_name in
    let tag = subscription_tag s.client_id pf in
    record s {
      fo_pair_obj = p;
      feeds = record {
        far_fp = record (s.feeds.far_fp) { token = p.token_far };
        near_fp = record (s.feeds.near_fp) { token = p.token_near };
        third_fp = record (s.feeds.third_fp) { token = p.token_three };
      };
      instance_group = p.instance_group;
      ratios = record (s.ratios) {
        token1 = p.token_far_ratio;
        token2 = p.token_near_ratio;
        token3 = p.token_three_ratio;
      };
      leg2_hit_ratio = record { num = p.token_near_ratio; den = p.token_far_ratio };
      leg3_hit_ratio = record { num = p.token_three_ratio; den = p.token_far_ratio };
      far_token = p.token_far;
      near_token = p.token_near;
      token_three = p.token_three;
      pf_number = pf;
      holders = record {
        pf_buy = label pf s.client_id tag s.holders.pf_buy;
        pf_sell = label pf s.client_id tag s.holders.pf_sell;
        pf_mkt_buy = label pf s.client_id tag s.holders.pf_mkt_buy;
        pf_mkt_sell = label pf s.client_id tag s.holders.pf_mkt_sell;
        pf_mkt_buy2 = label pf s.client_id tag s.holders.pf_mkt_buy2;
        pf_mkt_sell2 = label pf s.client_id tag s.holders.pf_mkt_sell2;
      };
      limits = zero_limits;
      cancel_buy_order = false;
      cancel_sell_order = false;
    }

-- OPEN, REPLACED or PENDING: an order may rest on the exchange.
abbrev pub is_working : OrderStatus → Bool
is_working idle = false
is_working pending = true
is_working replaced = true
is_working open_ = true
is_working cancel = false
is_working rejected = false
is_working trade = false

unfoldable pub withdraw_buy : World → World
withdraw_buy w =
    if is_working w.stg.buy_far_status
    then order_cancel_in_tr w.stg.sides.create
        (record w { stg = record (w.stg) { buy_far_status = pending } })
    else w

unfoldable pub withdraw_sell : World → World
withdraw_sell w =
    if is_working w.stg.sell_far_status
    then order_cancel_in_tr w.stg.sides.reverse
        (record w { stg = record (w.stg) { sell_far_status = pending } })
    else w

unfoldable pub on_un_subscription : World → World
on_un_subscription w =
    let done = withdraw_sell (withdraw_buy w) in
    record done {
      stg = record (done.stg) {
        limits = zero_limits;
        buy_far_status = idle;
        sell_far_status = idle;
        cancel_buy_order = true;
        cancel_sell_order = true;
      };
    }

-- CreateSide == BUY ? SELL : BUY
abbrev pub other_side : ℤ → ℤ
other_side side = if side =?ℤ buy then sell else buy

-- The counters start from what the client has traded already, while they are not positive.
unfoldable pub start_counters : FoPairDiff → Strategy → Counters
start_counters d s =
    let c = s.counters in
    let buys : Counters =
      if leb_ℤ c.buy_trade (pos 0)
      then record c {
        buy_trade = to_short (d.fo_pair.create_qty *i s.ratios.token1);
        buy_leg2 = to_short (d.fo_pair.create_qty *i s.ratios.token2);
        buy_leg3 = to_short (d.fo_pair.create_qty *i s.ratios.token3);
      }
      else c in
    if leb_ℤ c.sell_trade (pos 0)
    then record buys {
      sell_trade = to_short (d.fo_pair.reverse_qty *i s.ratios.token1);
      sell_leg2 = to_short (d.fo_pair.reverse_qty *i s.ratios.token2);
      sell_leg3 = to_short (d.fo_pair.reverse_qty *i s.ratios.token3);
    }
    else buys

unfoldable pub on_difference : FoPairDiff → Strategy → Strategy
on_difference d s = record s {
  limits = record {
    bnsf_mnq = d.bnsf_mnq;
    bfsn_mnq = d.bfsn_mnq;
    bnsf_mxq = d.bnsf_mxq;
    bfsn_mxq = d.bfsn_mxq;
    bfsn_diff = d.bfsn_diff;
    bnsf_diff = d.bnsf_diff;
  };
  ratios = record (s.ratios) {
    token1_min_create = s.ratios.token1 *i d.bfsn_mnq;
    token2_min_create = s.ratios.token2 *i d.bfsn_mnq;
    token3_min_create = s.ratios.token3 *i d.bfsn_mnq;
    token1_min_reverse = s.ratios.token1 *i d.bnsf_mnq;
    token2_min_reverse = s.ratios.token2 *i d.bnsf_mnq;
    token3_min_reverse = s.ratios.token3 *i d.bnsf_mnq;
    token1_max_create = s.ratios.token1 *i d.bfsn_mxq;
    token2_max_create = s.ratios.token2 *i d.bfsn_mxq;
    token3_max_create = s.ratios.token3 *i d.bfsn_mxq;
    token1_max_reverse = s.ratios.token1 *i d.bnsf_mxq;
    token2_max_reverse = s.ratios.token2 *i d.bnsf_mxq;
    token3_max_reverse = s.ratios.token3 *i d.bnsf_mxq;
  };
  counters = start_counters d s;
  sides = record {
    create = d.fo_pair.token_far_side;
    reverse = other_side d.fo_pair.token_far_side;
    create_leg2 = d.fo_pair.token_near_side;
    reverse_leg2 = other_side d.fo_pair.token_near_side;
    create_leg3 = d.fo_pair.token_three_side;
    reverse_leg3 = other_side d.fo_pair.token_three_side;
  };
}
