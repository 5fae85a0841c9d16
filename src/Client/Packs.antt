-- ===== src/Client/Packs.antt =====
-- The messages that AutoClient (OrderServer-20151216-AtHome/src/AutoClient.cpp) prepares for a
-- strategy: InitTokenDetails, ReturnNearPack, ReturnModificationPack, and the helpers PadRight,
-- toUpper and htond. A text that is longer than its field is not modelled.
pub mod Text
use jansan.Common.{
  ℕ, zero, suc, ◌+◌, ◌-◌, ◌*◌, ◌/◌, ◌%◌, ◌^◌, ◌&&◌, Option, none, some, List, [], ◌∷◌, ◌++◌, length,
  ℤ, pos, leb, leb_ℤ, if◌then◌else◌,
}
use jansan.Common.Maps.{lookup, or_new}
use jansan.Common.Words.{ntohl, ntohs, swap32, to_int, ◌*i◌}
use jansan.Messages.{Origin, OeRequestTr, OmRequestTr}
use jansan.Contracts.{ContractDetails}
use jansan.Client.{Machine, AutoClient}

abbrev append_times : ℕ → List ℕ → List ℕ → List ℕ
append_times zero text pad = text
append_times (suc n) text pad = append_times n (text ++ pad) pad

-- PadRight
unfoldable pub pad_right : List ℕ → ℕ → List ℕ → List ℕ
pad_right text padded_len pad = append_times (padded_len - length text) text pad

abbrev pub upper : ℕ → ℕ
upper c = if leb b'a' c && leb c b'z' then c - b' ' else c

-- toUpper, on the first characters.
unfoldable pub to_upper : ℕ → List ℕ → List ℕ
to_upper zero text = text
to_upper (suc n) [] = []
to_upper (suc n) (c ∷ text) = upper c ∷ to_upper n text

-- A field of so many characters: strcpy, PadRight and toUpper.
unfoldable pub text_field : ℕ → List ℕ → List ℕ
text_field size text = to_upper size (pad_right text size (b' ' ∷ []))

-- htond, on the bit pattern of a `double`, whose lower half comes first.
unfoldable pub htond : ℕ → ℕ
htond x = swap32 (x / 2 ^ 32 % 2 ^ 32) + swap32 (x % 2 ^ 32) * 2 ^ 32

-- UserId, BranchId and BrokerId, which InItClass sets.
abbrev pub user_id : ℤ
user_id = pos 28823

abbrev pub branch_id : ℤ
branch_id = pos 4

abbrev pub broker_id : List ℕ
broker_id = b'1' ∷ b'2' ∷ b'4' ∷ b'6' ∷ b'8' ∷ []

-- Of the details that InitTokenDetails returns, the board lot is used.
unfoldable pub init_token_details : (m : Machine) → ℤ → AutoClient m.hub → ℤ
init_token_details m first_leg c = elim (lookup first_leg c.cimlist) [
  | none ↦ m.lot
  | some cf ↦ cf.board_lot_quantity
]

-- What both packs read of a contract; `obj2` has what memory holds, if the token is not known.
abbrev contract_of : (m : Machine) → Origin → ℤ → AutoClient m.hub → Origin
contract_of m memory token c = elim (lookup token c.cimlist) [
  | none ↦ memory
  | some cf ↦ record memory {
    instrument_name = cf.instrument_name;
    symbol = cf.symbol;
    expiry_date = cf.expiry_date;
    strike_price = cf.strike_price;
    option_type = cf.option_type;
  }
]

abbrev pub origin_of : (m : Machine) → Origin → ℕ → ℕ → ℤ → AutoClient m.hub → Origin
origin_of m read flag_out packet_length algo c = record {
  user_id = ntohl user_id;
  instrument_name = text_field 6 read.instrument_name;
  symbol = text_field 10 read.symbol;
  expiry_date = ntohl read.expiry_date;
  strike_price = ntohl read.strike_price;
  option_type = text_field 2 read.option_type;
  account_number = text_field 10 [];
  book_type = ntohs (pos 1);
  good_till_date = ntohl (pos 0);
  flag_in = 8;
  flag_out = flag_out;
  branch_id = ntohs branch_id;
  trader_id = ntohl user_id;
  broker_id = text_field 5 broker_id;
  settlor = text_field 12 [];
  pro_client_indicator = ntohs (pos 2);
  nnffield = htond (m.double_bits algo);
  packet_length = ntohs (pos packet_length);
  msg_count = ntohs (pos 1);
}

-- ReturnNearPack; `fm_blq` is the lot of the far token, and the contract's own is taken if there is
-- none.
unfoldable pub return_near_pack : (m : Machine) → ℤ → ℤ → ℤ → ℤ → AutoClient m.hub → OeRequestTr
return_near_pack m token bs qty fm_blq c =
    let lot : ℤ = elim (lookup token c.cimlist) [
      | none ↦ m.oe.volume
      | some cf ↦ if leb_ℤ fm_blq (pos 0) then cf.board_lot_quantity else fm_blq
    ] in
    record (m.oe) {
      transaction_code = ntohs (pos 20000);
      reason_code = ntohs (pos 0);
      reserved1 = 2;
      origin = origin_of m (contract_of m m.oe.origin token c) 0 136 c.algo_id c;
      token_no = ntohl token;
      buy_sell_indicator = ntohs bs;
      disclosed_volume = ntohl (qty *i lot);
      volume = ntohl (qty *i lot);
      price = ntohl (pos 0);
      open_close = b'O';
    }

-- ReturnModificationPack
unfoldable pub return_modification_pack : (m : Machine) → ℤ → ℤ → AutoClient m.hub → OmRequestTr
return_modification_pack m token bs c = record (m.om) {
  modified_cancelled_by = b'T';
  origin = origin_of m (contract_of m m.om.origin token c) 16 164 c.algo_id c;
  token_no = ntohl token;
  buy_sell_indicator = ntohs bs;
  open_close = b'O';
}
