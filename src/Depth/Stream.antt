-- ===== src/Depth/Stream.antt =====
-- Depth Data 20151224/main.cpp: the packets of the exchange's stream (BindStreamAlternate, and
-- BindStream, which is the same loop on another socket) and the subscriptions of the strategies
-- (Eventsubscriber), which make the token objects. `last_seq` is the local `LastSeq` of the loop,
-- `p_close` what `_PClose[token]` reads. A packet's bytes are read as one structure or the other, by
-- the length in its header.
pub mod Objects
pub mod Routing
pub mod Subscribed
use jansan.Common.{
  Option, none, some, List, [], ◌∷◌, ◌++◌, ℤ, pos, negsuc, ℕ, ◌+◌, ◌/◌, ◌-ℤ◌, ◌=?ℤ◌, ltb_ℤ, leb_ℤ,
  if◌then◌else◌,
}
use jansan.Common.Words.{◌+i◌, to_short}
use jansan.Messages.{FinalPrice}
use jansan.Depth.Bimap.{Bimap}
use jansan.Depth.Token.{
  OrderMessage, TradeMessage, Message, order, trade, TokenWise, create_token, on_message,
}

pub record Packet : Type 0 where
  pub msg_len : ℤ
  pub seq_no : ℤ
  pub as_order : OrderMessage
  pub as_trade : TradeMessage

-- strFOPAIR and FOPAIRLEG2: the tokens of a subscription.
pub record Subscription : Type 0 where
  pub token_near : ℤ
  pub token_far : ℤ
  pub token_three : ℤ

pub record Server (b : Bimap) : Type 0 where
  pub last_seq : ℤ
  pub tokens : List (ℤ × TokenWise b)
  pub p_close : ℤ → ℤ

abbrev pub e_fo_pair : ℤ
e_fo_pair = pos 70

abbrev pub e_ioc_pair : ℤ
e_ioc_pair = pos 73

abbrev thousandth : ℤ → ℤ
thousandth (pos n) = pos (n / 1000)
thousandth (negsuc n) = pos 0 -ℤ pos ((n + 1) / 1000)

-- `_map`, a std::map of pointers: the object of a key, and a change to that object.
module _ {b : Bimap} where
  unfoldable pub find_token : ℤ → List (ℤ × TokenWise b) → Option (TokenWise b)
  find_token t [] = none
  find_token t ((u, tw) ∷ rest) = if u =?ℤ t then some tw else find_token t rest

  unfoldable pub put_token : ℤ → TokenWise b → List (ℤ × TokenWise b) → List (ℤ × TokenWise b)
  put_token t tw [] = []
  put_token t tw ((u, old) ∷ rest) =
      if u =?ℤ t then (u, tw) ∷ rest else (u, old) ∷ put_token t tw rest

module _ (b : Bimap) (past_end : b.Map → ℤ) where
  -- The prices are those that are published.
  unfoldable pub deliver : ℤ → Message → Server b → Option (Server b × List FinalPrice)
  deliver t msg s = elim (find_token t s.tokens) [
    | none ↦ some (s, [])
    | some tw ↦ elim (on_message b past_end msg tw) [
      | none ↦ none
      | some r ↦ some (record s { tokens = put_token t r.0 s.tokens }, r.1 ∷ [])
    ]
  ]

  unfoldable pub receive : Packet → Server b → Option (Server b × List FinalPrice)
  receive p s =
      if leb_ℤ p.msg_len (pos 13)
      then some (s, [])
      else if (s.last_seq +i pos 1) =?ℤ p.seq_no
      then if p.msg_len =?ℤ pos 38
        then deliver p.as_order.token (order p.as_order)
            (record s { last_seq = s.last_seq +i pos 1 })
        else if p.msg_len =?ℤ pos 45
        then deliver p.as_trade.token (trade p.as_trade)
            (record s { last_seq = s.last_seq +i pos 1 })
        else some (record s { last_seq = s.last_seq +i pos 1 }, [])
      else some (record s { last_seq = p.seq_no }, [])

  unfoldable pub receive_all : List Packet → Server b → Option (Server b × List FinalPrice)
  receive_all [] s = some (s, [])
  receive_all (p ∷ ps) s = elim (receive p s) [
    | none ↦ none
    | some r ↦ elim (receive_all ps r.0) [ none ↦ none | some q ↦ some (q.0, r.1 ++ q.1) ]
  ]

  unfoldable pub add_token : ℤ → Server b → Server b
  add_token t s = elim (find_token t s.tokens) [
    | some _ ↦ s
    | none ↦ record s { tokens = (t, create_token b past_end t (s.p_close t)) ∷ s.tokens }
  ]

  unfoldable pub event_subscriber : ℤ → Subscription → Server b → Server b
  event_subscriber su_id pair s =
      let msg_type = to_short (thousandth su_id) in
      let both = add_token pair.token_far (add_token pair.token_near s) in
      if msg_type =?ℤ e_fo_pair
      then add_token pair.token_near (add_token pair.token_far s)
      else if msg_type =?ℤ e_ioc_pair
      then if ltb_ℤ (pos 0) pair.token_three then add_token pair.token_three both else both
      else s
