-- ===== src/Depth/Book.antt =====
-- BimapDataClass of Depth Data 20151224/TokenWiseClass.h: the orders of one token, by order number
-- on each side, and the prices last published. Quantities are passed on by every call and never
-- used. `past_end` is what the read `it->first` gives when `it` is the end of the left map.
pub mod Abstract
pub mod Prices
use jansan.Common.{
  ℕ, ◌+◌, ◌/◌, Option, none, some, Bool, true, ℤ, pos, negsuc, ◌-ℤ◌, ltb_ℤ, ◌=?ℤ◌, if◌then◌else◌,
}
use jansan.Common.Words.{◌+i◌, ◌-i◌, ◌*i◌}
use jansan.Messages.{FinalPrice, zero_price}
use jansan.Depth.Bimap.{Bimap}

-- `n / 100`, which truncates towards zero.
abbrev hundredth : ℤ → ℤ
hundredth (pos n) = pos (n / 100)
hundredth (negsuc n) = pos 0 -ℤ pos ((n + 1) / 100)

pub record Book (b : Bimap) : Type 0 where
  pub bid_data : b.Map
  pub ask_data : b.Map
  pub upper : ℤ
  pub lower : ℤ
  pub fp : FinalPrice

-- A loop of `ReturnPrice` stops after the first entry and leaves the old price when there is none.
abbrev pub value_or : Option ℤ → ℤ → ℤ
value_or none old = old
value_or (some p) old = p

module _ (b : Bimap) (past_end : b.Map → ℤ) where
  unfoldable pub create : ℤ → ℤ → Book b
  create token p_close =
      let range = hundredth (p_close *i pos 4) in
      record {
        bid_data = b.empty;
        ask_data = b.empty;
        upper = p_close +i range;
        lower = p_close -i range;
        fp = record zero_price { token = token; sub_token = token };
      }

  unfoldable pub cross_check_price : ℤ → Bool
  cross_check_price price = true

  unfoldable pub insert : ℤ → ℤ → ℤ → Book b → Book b
  unfolding cross_check_price
  insert order_number price side s =
      if cross_check_price price
      then if side =?ℤ pos 1
        then record s { bid_data = b.insert order_number price s.bid_data }
        else record s { ask_data = b.insert order_number price s.ask_data }
      else s

  -- `none` is the write through the end of the map, which has no defined effect.
  unfoldable pub update_side : ℤ → ℤ → b.Map → Option b.Map
  update_side order_number price m = elim (b.find order_number m) [
    | some _ ↦ some (b.replace_data order_number price m)
    | none ↦ if past_end m =?ℤ order_number then none else some (b.insert order_number price m)
  ]

  unfoldable pub update : ℤ → ℤ → ℤ → Book b → Option (Book b)
  unfolding cross_check_price update_side
  update order_number price side s =
      if cross_check_price price
      then if side =?ℤ pos 1
        then elim (update_side order_number price s.bid_data) [
          | none ↦ none
          | some m ↦ some (record s { bid_data = m })
        ]
        else elim (update_side order_number price s.ask_data) [
          | none ↦ none
          | some m ↦ some (record s { ask_data = m })
        ]
      else some s

  unfoldable pub delete_side : ℤ → b.Map → b.Map
  delete_side order_number m = elim (b.find order_number m) [
    | some _ ↦ b.erase order_number m
    | none ↦ m
  ]

  unfoldable pub delete : ℤ → ℤ → Book b → Book b
  unfolding delete_side
  delete order_number side s =
      if side =?ℤ pos 1
      then record s { bid_data = delete_side order_number s.bid_data }
      else record s { ask_data = delete_side order_number s.ask_data }

  unfoldable pub return_price : ℤ → Book b → Book b × FinalPrice
  return_price ltp s =
      let fp = record s.fp {
        ltp = if ltb_ℤ (pos 0) ltp then ltp else s.fp.ltp;
        max_bid = value_or (b.right_first s.bid_data) s.fp.max_bid;
        min_ask = value_or (b.right_last s.ask_data) s.fp.min_ask;
      } in
      (record s { fp = fp }, fp)
