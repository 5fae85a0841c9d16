-- ===== src/Strategy.antt =====
-- class StrategyClass of OrderServer-20151216-AtHome (include/StrategyClass.h, src/StrategyClass.cpp):
-- its fields, in groups, and its constructor. The fields that no handler reads are left out.
pub mod Orders
pub mod Subscribe
pub mod Prices
pub mod Quote
pub mod Trade
pub mod Events
pub mod Confirm
pub mod Sample
pub mod Tests
use jansan.Common.{Bool, false, ℤ, pos}
use jansan.Common.Words.{ntohs}
use jansan.Messages.{
  OrderStatus, idle, FinalPrice, FoPair, NearMonthPacket, PfHolder, zero_price, zero_holder,
}
use jansan.Queue.{FillData}

-- The orders on their way: _pfBuy, _pfSell and the market orders of the other legs.
pub record Holders : Type 0 where
  pub pf_buy : PfHolder
  pub pf_sell : PfHolder
  pub pf_mkt_buy : PfHolder
  pub pf_mkt_sell : PfHolder
  pub pf_mkt_buy2 : PfHolder
  pub pf_mkt_sell2 : PfHolder

-- The last prices of the three legs: FarFP, NearFP, ThirdFP.
pub record Feeds : Type 0 where
  pub far_fp : FinalPrice
  pub near_fp : FinalPrice
  pub third_fp : FinalPrice

-- The traded quantities in lots: BuyTradeCounter, SellTradeCounter and those of legs 2 and 3.
pub record Counters : Type 0 where
  pub buy_trade : ℤ
  pub sell_trade : ℤ
  pub buy_leg2 : ℤ
  pub sell_leg2 : ℤ
  pub buy_leg3 : ℤ
  pub sell_leg3 : ℤ

-- What the client asks for: _BNSFMNQ to BNSFDIFF.
pub record Limits : Type 0 where
  pub bnsf_mnq : ℤ
  pub bfsn_mnq : ℤ
  pub bnsf_mxq : ℤ
  pub bfsn_mxq : ℤ
  pub bfsn_diff : ℤ
  pub bnsf_diff : ℤ

-- The sides of the legs when the spread is created and when it is reversed.
pub record Sides : Type 0 where
  pub create : ℤ
  pub reverse : ℤ
  pub create_leg2 : ℤ
  pub reverse_leg2 : ℤ
  pub create_leg3 : ℤ
  pub reverse_leg3 : ℤ

-- Token1Ratio to Token3MaxReverseRatio.
pub record Ratios : Type 0 where
  pub token1 : ℤ
  pub token2 : ℤ
  pub token3 : ℤ
  pub token1_min_create : ℤ
  pub token2_min_create : ℤ
  pub token3_min_create : ℤ
  pub token1_max_create : ℤ
  pub token2_max_create : ℤ
  pub token3_max_create : ℤ
  pub token1_min_reverse : ℤ
  pub token2_min_reverse : ℤ
  pub token3_min_reverse : ℤ
  pub token1_max_reverse : ℤ
  pub token2_max_reverse : ℤ
  pub token3_max_reverse : ℤ

-- iLeg1BestCreatePrice to iLeg3MktReversePrice.
pub record LegPrices : Type 0 where
  pub leg1_best_create : ℤ
  pub leg1_best_reverse : ℤ
  pub leg2_mkt_create : ℤ
  pub leg2_mkt_reverse : ℤ
  pub leg3_mkt_create : ℤ
  pub leg3_mkt_reverse : ℤ

-- The signed prices of the legs, and the market's differences.
pub record Products : Type 0 where
  pub first_buy : ℤ
  pub second_buy : ℤ
  pub third_buy : ℤ
  pub first_sell : ℤ
  pub second_sell : ℤ
  pub third_sell : ℤ
  pub asks_difference : ℤ
  pub bids_difference : ℤ

-- A quotient of two `int`s in `float`: the two `int`s.
pub record Quotient : Type 0 where
  pub num : ℤ
  pub den : ℤ

pub record Strategy : Type 0 where
  pub client_id : ℤ
  pub pf_number : ℤ
  pub instance_group : ℤ
  pub blq : ℤ
  pub buy_far_status : OrderStatus
  pub sell_far_status : OrderStatus
  pub cancel_buy_order : Bool
  pub cancel_sell_order : Bool
  pub count_mutex : Bool
  pub cancel_code : ℤ
  pub modification_code : ℤ
  pub create_remaining_qty : ℤ
  pub reverse_remaining_qty : ℤ
  pub far_token : ℤ
  pub near_token : ℤ
  pub token_three : ℤ
  pub buy_mod_quote_rate : ℤ
  pub sell_mod_quote_rate : ℤ
  pub leg2_hit_ratio : Quotient
  pub leg3_hit_ratio : Quotient
  pub nm_pack : NearMonthPacket
  pub fo_pair_obj : FoPair
  pub holders : Holders
  pub feeds : Feeds
  pub counters : Counters
  pub limits : Limits
  pub sides : Sides
  pub ratios : Ratios
  pub leg_prices : LegPrices
  pub products : Products

-- A strategy, and the queues that it sends its orders to.
pub record World : Type 0 where
  pub stg : Strategy
  pub fill : FillData

abbrev pub zero_ratios : Ratios → Ratios
zero_ratios r = record r {
  token1_min_create = pos 0;
  token2_min_create = pos 0;
  token3_min_create = pos 0;
  token1_max_create = pos 0;
  token2_max_create = pos 0;
  token3_max_create = pos 0;
  token1_min_reverse = pos 0;
  token2_min_reverse = pos 0;
  token3_min_reverse = pos 0;
  token1_max_reverse = pos 0;
  token2_max_reverse = pos 0;
  token3_max_reverse = pos 0;
}

abbrev pub zero_limits : Limits
zero_limits = record {
  bnsf_mnq = pos 0;
  bfsn_mnq = pos 0;
  bnsf_mxq = pos 0;
  bfsn_mxq = pos 0;
  bfsn_diff = pos 0;
  bnsf_diff = pos 0;
}

-- The constructor. `memory` is what the storage held before: the fields that the constructor does not
-- set, such as the sides and the quote rates, keep it.
unfoldable pub construct : Strategy → Strategy
construct memory = record memory {
  buy_far_status = idle;
  sell_far_status = idle;
  counters = record {
    buy_trade = pos 0;
    sell_trade = pos 0;
    buy_leg2 = pos 0;
    sell_leg2 = pos 0;
    buy_leg3 = pos 0;
    sell_leg3 = pos 0;
  };
  feeds = record { far_fp = zero_price; near_fp = zero_price; third_fp = zero_price };
  cancel_code = ntohs (pos 20070);
  modification_code = ntohs (pos 20040);
  holders = record {
    pf_buy = zero_holder;
    pf_sell = zero_holder;
    pf_mkt_buy = zero_holder;
    pf_mkt_sell = zero_holder;
    pf_mkt_buy2 = zero_holder;
    pf_mkt_sell2 = zero_holder;
  };
  limits = zero_limits;
  instance_group = pos 0;
  far_token = pos 0;
  near_token = pos 0;
  token_three = pos 0;
  count_mutex = false;
  blq = pos 0;
  ratios = zero_ratios memory.ratios;
  create_remaining_qty = pos 0;
  reverse_remaining_qty = pos 0;
  leg_prices = record {
    leg1_best_create = pos 0;
    leg1_best_reverse = pos 0;
    leg2_mkt_create = pos 0;
    leg2_mkt_reverse = pos 0;
    leg3_mkt_create = pos 0;
    leg3_mkt_reverse = pos 0;
  };
}
