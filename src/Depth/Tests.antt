-- ===== src/Depth/Tests.antt =====
-- The market data server of Depth Data 20151224 on one token, with a map that is a list of entries.
use jansan.Common.{◌≡◌, refl, some, List, [], ◌∷◌, ℤ, pos}
use jansan.Messages.{FinalPrice, zero_price}
use jansan.Depth.Bimap.Assoc.{assoc, assoc-IsBimap, Entries}
use jansan.Depth.Book.{Book}
use jansan.Depth.Book.Abstract.{Orders, Shows}
use jansan.Depth.Token.{OrderMessage, TradeMessage, order, trade, TokenWise, code_b, code_m, run}
use jansan.Depth.Token.Refines.{Takes, meant_all, on_message-Takes, run-Shows}
use jansan.Depth.Stream.{Packet, Server, receive_all}
use jansan.Depth.Stream.Routing.{Goes, brings_all, seen_all, receive_all-Goes}

-- What is read at the end of a map: no order has the number 0.
abbrev past_end : Entries → ℤ
past_end m = pos 0

abbrev book : Book assoc
book = record {
  bid_data = (pos 1, pos 790) ∷ (pos 2, pos 795) ∷ [];
  ask_data = (pos 3, pos 805) ∷ [];
  upper = pos 832;
  lower = pos 768;
  fp = record zero_price { token = pos 101; sub_token = pos 101 };
}

abbrev orders : Orders
orders = record { bids = λ k. assoc.find k book.bid_data; asks = λ k. assoc.find k book.ask_data }

abbrev token_101 : TokenWise assoc
token_101 = record { token = pos 101; bmp = book }

shown : Shows assoc assoc-IsBimap past_end orders book
shown = (λ j. refl, λ j. refl)

-- A better bid, and a trade of the best orders.
abbrev bid_798 : OrderMessage
bid_798 = record {
  message_type = code_m;
  order_id = pos 1;
  token = pos 101;
  order_type = code_b;
  price = pos 798;
  quantity = pos 75;
}

abbrev trade_800 : TradeMessage
trade_800 = record {
  message_type = 84;
  buyorder_id = pos 1;
  selloder_id = pos 3;
  token = pos 101;
  trade_price = pos 800;
  trade_quantity = pos 25;
}

on_message-Takes_example :
    (r : TokenWise assoc × FinalPrice) × Takes assoc assoc-IsBimap past_end
      (order bid_798)
      orders
      token_101
      r
on_message-Takes_example =
    on_message-Takes assoc assoc-IsBimap past_end (order bid_798) orders token_101 shown (λ m. refl)

run-Shows_example :
    (r : TokenWise assoc) × (run assoc past_end (order bid_798 ∷ trade trade_800 ∷ []) token_101
      ≡ some r)
    × Shows assoc assoc-IsBimap past_end
        (meant_all (order bid_798 ∷ trade trade_800 ∷ []) orders)
        r.bmp
run-Shows_example =
    run-Shows assoc assoc-IsBimap past_end (order bid_798 ∷ trade trade_800 ∷ []) orders token_101
      shown (λ m. refl, (tt, tt))

abbrev server : Server assoc
server = record { last_seq = pos 6; tokens = (pos 101, token_101) ∷ []; p_close = λ t. pos 800 }

-- The order, a heartbeat, the trade, and a packet after a gap.
abbrev packet : ℤ → ℤ → Packet
packet len seq = record { msg_len = len; seq_no = seq; as_order = bid_798; as_trade = trade_800 }

abbrev packets : List Packet
packets =
    packet (pos 38) (pos 7)
    ∷ packet (pos 13) (pos 8)
    ∷ packet (pos 45) (pos 8)
    ∷ packet (pos 38) (pos 11)
    ∷ []

receive_all-Goes_example :
    Goes assoc assoc-IsBimap past_end
      (λ u. brings_all u (pos 6) packets)
      (seen_all (pos 6) packets)
      server
      (receive_all assoc past_end packets server)
receive_all-Goes_example =
    receive_all-Goes assoc assoc-IsBimap past_end packets server
      (λ m. refl, (λ m. refl, (λ m. refl, (λ m. refl, tt))))
