-- ===== src/Messages.antt =====
-- The structures and enumerations of OrderServer-20151216-AtHome/include/Enums.h that the strategies,
-- the queues and the exchange session share. A structure has the fields that the modelled code reads
-- or writes; `others` stands for the bytes of the fields that are only ever copied with the whole
-- structure. Fields of exchange messages are in network byte order, as in the source. A `double` that
-- holds an order number holds a whole number, and is an integer here; so is a price difference.
use jansan.Common.{ℕ, List, [], ℤ, pos}

-- enum BUYSELL; a side is also compared with a `short` of a message, so it stays a number.
abbrev pub buy : ℤ
buy = pos 1

abbrev pub sell : ℤ
sell = pos 2

pub data OrderStatus : Type 0 where
  idle : OrderStatus
  pending replaced open_ cancel rejected trade : OrderStatus

-- enum DepthBest; the code compares it with an `int` that a client sends.
abbrev pub best : ℤ
best = pos 1

abbrev pub depth : ℤ
depth = pos 2

pub record FinalPrice : Type 0 where
  pub sub_token : ℤ
  pub token : ℤ
  pub max_bid : ℤ
  pub min_ask : ℤ
  pub ltp : ℤ

-- strFOPAIRIOC: a client's subscription of a portfolio.
pub record FoPair : Type 0 where
  pub instance_group : ℤ
  pub portfolio_name : ℤ
  pub token_near : ℤ
  pub token_far : ℤ
  pub token_three : ℤ
  pub token_near_side : ℤ
  pub token_far_side : ℤ
  pub token_three_side : ℤ
  pub token_near_ratio : ℤ
  pub token_far_ratio : ℤ
  pub token_three_ratio : ℤ
  pub create_qty : ℤ
  pub reverse_qty : ℤ

-- FOPAIRDIFFIOC: the price differences and quantities that a client asks for. `bnsf` is "buy near
-- sell far", `bfsn` "buy far sell near".
pub record FoPairDiff : Type 0 where
  pub portfolio_name : ℤ
  pub bnsf_diff : ℤ
  pub bfsn_diff : ℤ
  pub bnsf_mnq : ℤ
  pub bfsn_mnq : ℤ
  pub bnsf_mxq : ℤ
  pub bfsn_mxq : ℤ
  pub fo_pair : FoPair

-- What the messages about an order say of its contract, of the member who sends it and of its kind. A
-- text is its characters, and a `double` that nothing computes with is its bit pattern.
pub record Origin : Type 0 where
  pub user_id : ℤ
  pub instrument_name : List ℕ
  pub symbol : List ℕ
  pub expiry_date : ℤ
  pub strike_price : ℤ
  pub option_type : List ℕ
  pub account_number : List ℕ
  pub book_type : ℤ
  pub good_till_date : ℤ
  pub flag_in : ℕ
  pub flag_out : ℕ
  pub branch_id : ℤ
  pub trader_id : ℤ
  pub broker_id : List ℕ
  pub settlor : List ℕ
  pub pro_client_indicator : ℤ
  pub nnffield : ℕ
  pub packet_length : ℤ
  pub msg_count : ℤ

-- MS_OE_REQUEST_TR: a new order.
pub record OeRequestTr : Type 0 where
  pub transaction_code : ℤ
  pub reason_code : ℤ
  pub reserved1 : ℕ
  pub origin : Origin
  pub sequence_number : ℤ
  pub check_sum : List ℕ
  pub token_no : ℤ
  pub buy_sell_indicator : ℤ
  pub disclosed_volume : ℤ
  pub volume : ℤ
  pub price : ℤ
  pub open_close : ℕ
  pub others : List ℕ

-- MS_OM_REQUEST_TR: a modification or a cancellation.
pub record OmRequestTr : Type 0 where
  pub modified_cancelled_by : ℕ
  pub origin : Origin
  pub sequence_number : ℤ
  pub check_sum : List ℕ
  pub transaction_code : ℤ
  pub token_no : ℤ
  pub order_number : ℤ
  pub buy_sell_indicator : ℤ
  pub disclosed_volume : ℤ
  pub disclosed_volume_remaining : ℤ
  pub total_volume_remaining : ℤ
  pub volume : ℤ
  pub volume_filled_today : ℤ
  pub price : ℤ
  pub entry_date_time : ℤ
  pub last_modified : ℤ
  pub filler : ℤ
  pub open_close : ℕ
  pub reserved_add : ℕ
  pub others : List ℕ

-- MS_TRADE_CONFIRM_TR
pub record TradeConfirmTr : Type 0 where
  pub response_order_number : ℤ
  pub buy_sell_indicator : ℤ
  pub remaining_volume : ℤ
  pub fill_quantity : ℤ
  pub token : ℤ

-- MS_OE_RESPONSE_TR: a confirmation of a new, a modified or a cancelled order.
pub record OeResponseTr : Type 0 where
  pub open_close : ℕ
  pub origin : Origin
  pub reserved1l : ℕ
  pub others : List ℕ
  pub error_code : ℤ
  pub token_no : ℤ
  pub order_number : ℤ
  pub buy_sell_indicator : ℤ
  pub disclosed_volume : ℤ
  pub disclosed_volume_remaining : ℤ
  pub total_volume_remaining : ℤ
  pub volume : ℤ
  pub volume_filled_today : ℤ
  pub price : ℤ
  pub entry_date_time : ℤ
  pub last_modified : ℤ
  pub filler : ℤ

-- MS_OE_REQUEST, as the exchange returns it: a rejection.
pub record OeRequest : Type 0 where
  pub error_code : ℤ
  pub token_no : ℤ
  pub order_number : ℤ
  pub buy_sell_indicator : ℤ
  pub volume : ℤ
  pub price : ℤ

-- NearMonthPacket: the prepared orders of a portfolio.
pub record NearMonthPacket : Type 0 where
  pub near_month_market : OeRequestTr
  pub near_month_market2 : OeRequestTr
  pub far_month : OeRequestTr
  pub far_month_mod_buy : OmRequestTr
  pub far_month_mod_sell : OmRequestTr

-- PFHolder: an order on its way, with the portfolio that it belongs to. `size` says which of the two
-- messages it holds: 136 for `oetr`, 164 for `omtr`.
pub record PfHolder : Type 0 where
  pub pf : ℤ
  pub cid : ℤ
  pub hash_key : ℤ
  pub size : ℤ
  pub order_no : ℤ
  pub subscription_tag : ℤ
  pub side : ℤ
  pub oetr : OeRequestTr
  pub omtr : OmRequestTr

-- What `memset(&x, 0, sizeof x)` leaves.
abbrev pub zero_price : FinalPrice
zero_price = record {
  sub_token = pos 0;
  token = pos 0;
  max_bid = pos 0;
  min_ask = pos 0;
  ltp = pos 0;
}

abbrev pub zero_origin : Origin
zero_origin = record {
  user_id = pos 0;
  instrument_name = [];
  symbol = [];
  expiry_date = pos 0;
  strike_price = pos 0;
  option_type = [];
  account_number = [];
  book_type = pos 0;
  good_till_date = pos 0;
  flag_in = 0;
  flag_out = 0;
  branch_id = pos 0;
  trader_id = pos 0;
  broker_id = [];
  settlor = [];
  pro_client_indicator = pos 0;
  nnffield = 0;
  packet_length = pos 0;
  msg_count = pos 0;
}

abbrev pub zero_oe : OeRequestTr
zero_oe = record {
  transaction_code = pos 0;
  reason_code = pos 0;
  reserved1 = 0;
  origin = zero_origin;
  sequence_number = pos 0;
  check_sum = [];
  token_no = pos 0;
  buy_sell_indicator = pos 0;
  disclosed_volume = pos 0;
  volume = pos 0;
  price = pos 0;
  open_close = 0;
  others = [];
}

abbrev pub zero_om : OmRequestTr
zero_om = record {
  modified_cancelled_by = 0;
  origin = zero_origin;
  sequence_number = pos 0;
  check_sum = [];
  transaction_code = pos 0;
  token_no = pos 0;
  order_number = pos 0;
  buy_sell_indicator = pos 0;
  disclosed_volume = pos 0;
  disclosed_volume_remaining = pos 0;
  total_volume_remaining = pos 0;
  volume = pos 0;
  volume_filled_today = pos 0;
  price = pos 0;
  entry_date_time = pos 0;
  last_modified = pos 0;
  filler = pos 0;
  open_close = 0;
  reserved_add = 0;
  others = [];
}

abbrev pub zero_holder : PfHolder
zero_holder = record {
  pf = pos 0;
  cid = pos 0;
  hash_key = pos 0;
  size = pos 0;
  order_no = pos 0;
  subscription_tag = pos 0;
  side = pos 0;
  oetr = zero_oe;
  omtr = zero_om;
}
