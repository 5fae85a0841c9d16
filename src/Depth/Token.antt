-- ===== src/Depth/Token.antt =====
-- TokenWiseClass of Depth Data 20151224/TokenWiseClass.h: what a packet about a token does to its
-- book, and the price that is published after it. `the_mutex` is held through each call.
pub mod Refines
use jansan.Common.{ℕ, Option, none, some, List, [], ◌∷◌, ℤ, pos, ◌==◌, if◌then◌else◌}
use jansan.Messages.{FinalPrice}
use jansan.Depth.Bimap.{Bimap}
use jansan.Depth.Book.{Book, create, insert, update, delete, return_price}

-- Order_Message and Trade_Message of Depth Data 20151224/Structure.h, less the header and the
-- timestamp. A `char` is its code.
pub record OrderMessage : Type 0 where
  pub message_type : ℕ
  pub order_id : ℤ
  pub token : ℤ
  pub order_type : ℕ
  pub price : ℤ
  pub quantity : ℤ

pub record TradeMessage : Type 0 where
  pub message_type : ℕ
  pub buyorder_id : ℤ
  pub selloder_id : ℤ
  pub token : ℤ
  pub trade_price : ℤ
  pub trade_quantity : ℤ

abbrev pub code_b : ℕ
code_b = 66

abbrev pub code_s : ℕ
code_s = 83

abbrev pub code_n : ℕ
code_n = 78

abbrev pub code_m : ℕ
code_m = 77

abbrev pub code_x : ℕ
code_x = 88

pub record TokenWise (b : Bimap) : Type 0 where
  pub token : ℤ
  pub bmp : Book b

-- What the stream delivers to a token.
pub data Message : Type 0 where
  order : OrderMessage → Message
  trade : TradeMessage → Message

module _ (b : Bimap) (past_end : b.Map → ℤ) where
  unfoldable pub create_token : ℤ → ℤ → TokenWise b
  create_token token p_close = record { token = token; bmp = create b past_end token p_close }

  -- One case of the switch.
  unfoldable pub on_side : OrderMessage → ℤ → Book b → Option (Book b)
  on_side msg side s =
      if msg.message_type == code_n
      then some (insert b past_end msg.order_id msg.price side s)
      else if msg.message_type == code_m
      then update b past_end msg.order_id msg.price side s
      else if msg.message_type == code_x
      then some (delete b past_end msg.order_id side s)
      else some s

  unfoldable pub book_order : OrderMessage → Book b → Option (Book b)
  unfolding on_side
  book_order msg s =
      if msg.order_type == code_b
      then on_side msg (pos 1) s
      else if msg.order_type == code_s
      then on_side msg (pos 2) s
      else some s

  -- The price goes to the subscribers of the token (`nanoObj.SendData`).
  abbrev pub publish : ℤ → TokenWise b → Book b → TokenWise b × FinalPrice
  publish ltp t s =
      let answer = return_price b past_end ltp s in (record t { bmp = answer.0 }, answer.1)

  unfoldable pub bid_ask : OrderMessage → TokenWise b → Option (TokenWise b × FinalPrice)
  bid_ask msg t = elim (book_order msg t.bmp) [ none ↦ none | some s ↦ some (publish (pos 0) t s) ]

  unfoldable pub trd_msg : TradeMessage → TokenWise b → TokenWise b × FinalPrice
  trd_msg msg t =
      publish msg.trade_price t (
        delete b past_end msg.selloder_id (pos 2) (delete b past_end msg.buyorder_id (pos 1) t.bmp))

  unfoldable pub on_message : Message → TokenWise b → Option (TokenWise b × FinalPrice)
  on_message (order msg) t = bid_ask msg t
  on_message (trade msg) t = some (trd_msg msg t)

  unfoldable pub run : List Message → TokenWise b → Option (TokenWise b)
  run [] t = some t
  run (msg ∷ rest) t = elim (on_message msg t) [ none ↦ none | some r ↦ run rest r.0 ]
