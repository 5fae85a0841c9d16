-- ===== src/Strategy/Sample.antt =====
-- One strategy of OrderServer-20151216-AtHome in the middle of its life, for the tests: it buys far
-- and sells near, in lots of 75, with one lot of leg 2 for each lot of leg 1.
use jansan.Common.{◌*◌, ◌/◌, [], ℤ, pos, pos_part, true, false}
use jansan.Common.Words.{htonl, htons, ntohs}
use jansan.Messages.{
  buy, sell, idle, pending, best, FinalPrice, FoPair, TradeConfirmTr, OeResponseTr, zero_price,
  zero_origin, zero_oe, zero_om, zero_holder,
}
use jansan.Strategy.{Strategy, World, Quotient, zero_limits}

abbrev pub far_price : FinalPrice
far_price = record {
  sub_token = pos 101;
  token = pos 101;
  max_bid = pos 800000;
  min_ask = pos 800500;
  ltp = pos 800200;
}

abbrev pub near_price : FinalPrice
near_price = record far_price {
  sub_token = pos 102;
  token = pos 102;
  max_bid = pos 790000;
  min_ask = pos 790500;
}

abbrev pub pair : FoPair
pair = record {
  instance_group = best;
  portfolio_name = pos 7;
  token_near = pos 102;
  token_far = pos 101;
  token_three = pos 0;
  token_near_side = sell;
  token_far_side = buy;
  token_three_side = pos 0;
  token_near_ratio = pos 1;
  token_far_ratio = pos 1;
  token_three_ratio = pos 0;
  create_qty = pos 75;
  reverse_qty = pos 75;
}

abbrev pub sample : Strategy
sample = record {
  client_id = pos 12;
  pf_number = pos 7;
  instance_group = best;
  blq = pos 75;
  buy_far_status = idle;
  sell_far_status = idle;
  cancel_buy_order = false;
  cancel_sell_order = false;
  count_mutex = false;
  cancel_code = ntohs (pos 20070);
  modification_code = ntohs (pos 20040);
  create_remaining_qty = pos 0;
  reverse_remaining_qty = pos 0;
  far_token = pos 101;
  near_token = pos 102;
  token_three = pos 0;
  buy_mod_quote_rate = pos 0;
  sell_mod_quote_rate = pos 0;
  leg2_hit_ratio = record { num = pos 1; den = pos 1 };
  leg3_hit_ratio = record { num = pos 0; den = pos 1 };
  nm_pack = record {
    near_month_market = zero_oe;
    near_month_market2 = zero_oe;
    far_month = zero_oe;
    far_month_mod_buy = zero_om;
    far_month_mod_sell = zero_om;
  };
  fo_pair_obj = pair;
  holders = record {
    pf_buy = zero_holder;
    pf_sell = zero_holder;
    pf_mkt_buy = zero_holder;
    pf_mkt_sell = zero_holder;
    pf_mkt_buy2 = zero_holder;
    pf_mkt_sell2 = zero_holder;
  };
  feeds = record { far_fp = far_price; near_fp = near_price; third_fp = zero_price };
  counters = record {
    buy_trade = pos 1;
    sell_trade = pos 0;
    buy_leg2 = pos 1;
    sell_leg2 = pos 0;
    buy_leg3 = pos 0;
    sell_leg3 = pos 0;
  };
  limits = zero_limits;
  sides = record {
    create = buy;
    reverse = sell;
    create_leg2 = sell;
    reverse_leg2 = buy;
    create_leg3 = pos 0;
    reverse_leg3 = pos 0;
  };
  ratios = record {
    token1 = pos 1;
    token2 = pos 1;
    token3 = pos 0;
    token1_min_create = pos 1;
    token2_min_create = pos 1;
    token3_min_create = pos 0;
    token1_max_create = pos 2;
    token2_max_create = pos 2;
    token3_max_create = pos 0;
    token1_min_reverse = pos 1;
    token2_min_reverse = pos 1;
    token3_min_reverse = pos 0;
    token1_max_reverse = pos 2;
    token2_max_reverse = pos 2;
    token3_max_reverse = pos 0;
  };
  leg_prices = record {
    leg1_best_create = pos 800000;
    leg1_best_reverse = pos 800500;
    leg2_mkt_create = pos 790000;
    leg2_mkt_reverse = pos 790500;
    leg3_mkt_create = pos 0;
    leg3_mkt_reverse = pos 0;
  };
  products = record {
    first_buy = pos 0;
    second_buy = pos 0;
    third_buy = pos 0;
    first_sell = pos 0;
    second_sell = pos 0;
    third_sell = pos 0;
    asks_difference = pos 0;
    bids_difference = pos 0;
  };
}

abbrev pub world : World
world = record {
  stg = sample;
  fill = record {
    bid = record { the_queue = []; count = pos 0 };
    mkt = record { the_queue = []; count = pos 0 };
  };
}

-- The same strategy, stopped, with a buy order on its way.
abbrev pub stopped : World
stopped = record world { stg = record sample { cancel_buy_order = true; cancel_sell_order = true } }

abbrev pub waiting : World
waiting = record world {
  stg = record sample { buy_far_status = pending; sell_far_status = pending };
}

abbrev pub placed : World
placed = record world { stg = record sample { buy_far_status = pending } }

-- A fill of two lots, and the acceptance of an order.
abbrev pub fill_of_two : TradeConfirmTr
fill_of_two = record {
  response_order_number = pos 1000001;
  buy_sell_indicator = htons buy;
  remaining_volume = pos 0;
  fill_quantity = htonl (pos 150);
  token = htonl (pos 101);
}

abbrev pub acceptance : OeResponseTr
acceptance = record {
  open_close = 79;
  origin = zero_origin;
  reserved1l = 0;
  others = [];
  error_code = pos 0;
  token_no = htonl (pos 101);
  order_number = pos 1000001;
  buy_sell_indicator = htons buy;
  disclosed_volume = htonl (pos 150);
  disclosed_volume_remaining = htonl (pos 150);
  total_volume_remaining = htonl (pos 150);
  volume = htonl (pos 150);
  volume_filled_today = pos 0;
  price = htonl (pos 800000);
  entry_date_time = pos 0;
  last_modified = pos 0;
  filler = pos 0;
}

-- `floor(q * ratio) * blq` without a rounding.
abbrev pub exact_hit : ℤ → Quotient → ℤ → ℤ
exact_hit q r b = pos (pos_part q * pos_part r.num / pos_part r.den * pos_part b)

-- The strategy with a wanted difference, which may quote one more lot on each side.
abbrev pub quoting : Strategy
quoting = record sample {
  limits = record {
    bnsf_mnq = pos 1;
    bfsn_mnq = pos 1;
    bnsf_mxq = pos 2;
    bfsn_mxq = pos 2;
    bfsn_diff = pos 10000;
    bnsf_diff = pos 11000;
  };
}
