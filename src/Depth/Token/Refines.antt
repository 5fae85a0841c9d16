-- ===== src/Depth/Token/Refines.antt =====
-- `TokenWiseClass` of Depth Data 20151224/TokenWiseClass.h against the two maps of live orders.
use jansan.Common.{
  ◌≡◌, refl, Option, some, List, [], ◌∷◌, Bool, true, false, ℤ, pos, ◌=?ℤ◌, ◌==◌, if◌then◌else◌,
  All, subst, ◌∙◌,
}
use jansan.Messages.{FinalPrice}
use jansan.Depth.Bimap.{Bimap, IsBimap}
use jansan.Depth.Book.{Book, return_price}
use jansan.Depth.Book.Abstract.{
  Orders, Shows, at_side, enter, amend, withdraw, insert-Shows, update-Shows, delete-Shows,
  insert_fp, delete_fp,
}
use jansan.Depth.Book.Prices.{IsPublished, return_price-IsPublished}
use jansan.Depth.Token.{
  OrderMessage, Message, order, trade, TokenWise, code_b, code_s, code_n, code_m, code_x, on_side,
  book_order, bid_ask, publish, trd_msg, on_message, run,
}

-- What a message means for the live orders. A trade takes both of its orders off.
abbrev pub meant_on : OrderMessage → ℤ → Orders → Orders
meant_on msg side o =
    if msg.message_type == code_n
    then at_side side (enter msg.order_id msg.price) o
    else if msg.message_type == code_m
    then at_side side (amend msg.order_id msg.price) o
    else if msg.message_type == code_x
    then at_side side (withdraw msg.order_id) o
    else o

abbrev pub meant : Message → Orders → Orders
meant (order msg) o =
    if msg.order_type == code_b
    then meant_on msg (pos 1) o
    else if msg.order_type == code_s
    then meant_on msg (pos 2) o
    else o
meant (trade msg) o =
    at_side (pos 2) (withdraw msg.selloder_id) (at_side (pos 1) (withdraw msg.buyorder_id) o)

abbrev pub meant_all : List Message → Orders → Orders
meant_all [] o = o
meant_all (msg ∷ rest) o = meant_all rest (meant msg o)

abbrev pub price_of : Message → ℤ
price_of (order msg) = pos 0
price_of (trade msg) = msg.trade_price

module _ (b : Bimap) (laws : IsBimap b) (past_end : b.Map → ℤ) where
  -- What is read at the end of a map is not the number of the order.
  abbrev pub IsSafe : Message → Type 0
  IsSafe (order msg) = (m : b.Map) → (past_end m =?ℤ msg.order_id) ≡ false
  IsSafe (trade msg) = Unit

  abbrev ShowsResult : FinalPrice → Orders → Option (Book b) → Type 0
  ShowsResult fp o r = (s : Book b) × (r ≡ some s) × Shows b laws past_end o s × (s.fp ≡ fp)

  ShowsResult-if :
      (c : Bool) {fp : FinalPrice} {o o' : Orders} {r r' : Option (Book b)}
      → ShowsResult fp o r
      → ShowsResult fp o' r'
      → ShowsResult fp (if c then o else o') (if c then r else r')
  ShowsResult-if true h h' = h
  ShowsResult-if false h h' = h'

  on_side-Shows :
      (msg : OrderMessage) (side : ℤ) (o : Orders) (s : Book b)
      → Shows b laws past_end o s
      → IsSafe (order msg)
      → ShowsResult s.fp (meant_on msg side o) (on_side b past_end msg side s)
  unfolding on_side
  on_side-Shows msg side o s h safe =
      ShowsResult-if (msg.message_type == code_n)
        (
          _,
          refl,
          insert-Shows b laws past_end msg.order_id msg.price side o s h,
          insert_fp b laws past_end msg.order_id msg.price side s,
        )
        (ShowsResult-if (msg.message_type == code_m)
          (update-Shows b laws past_end msg.order_id msg.price side o s h safe)
          (ShowsResult-if (msg.message_type == code_x)
            (
              _,
              refl,
              delete-Shows b laws past_end msg.order_id side o s h,
              delete_fp b laws past_end msg.order_id side s,
            )
            (_, refl, h, refl)))

  book_order-Shows :
      (msg : OrderMessage) (o : Orders) (s : Book b)
      → Shows b laws past_end o s
      → IsSafe (order msg)
      → ShowsResult s.fp (meant (order msg) o) (book_order b past_end msg s)
  unfolding book_order
  book_order-Shows msg o s h safe =
      ShowsResult-if (msg.order_type == code_b) (on_side-Shows msg (pos 1) o s h safe) (
        ShowsResult-if (msg.order_type == code_s) (on_side-Shows msg (pos 2) o s h safe)
          (_, refl, h, refl))

  published :
      (ltp : ℤ) (o : Orders) (s : Book b) (old : FinalPrice)
      → Shows b laws past_end o s
      → s.fp ≡ old
      → Shows b laws past_end o (return_price b past_end ltp s).0
        × IsPublished ltp o old (return_price b past_end ltp s).1
        × ((return_price b past_end ltp s).0.fp ≡ (return_price b past_end ltp s).1)
  unfolding return_price
  published ltp o s old h same = (
    h,
    subst (λ x. IsPublished ltp o x (return_price b past_end ltp s).1) same
        (return_price-IsPublished b laws past_end ltp o s h),
    refl,
  )

  -- The result of a message on a token that shows the orders o.
  abbrev pub Takes : Message → Orders → TokenWise b → TokenWise b × FinalPrice → Type 0
  Takes msg o t r =
      (on_message b past_end msg t ≡ some r)
      × Shows b laws past_end (meant msg o) r.0.bmp
      × IsPublished (price_of msg) (meant msg o) t.bmp.fp r.1
      × (r.0.bmp.fp ≡ r.1)

  -- A message about an order that is not read at the end of a map is taken; the book then has the
  -- live orders that the message means. If the container orders its right side as documented for
  -- std::greater, which a comment in the source doubts, the price published is the best of these
  -- orders on each side, or the old one where a side is empty, with the trade's price as the last
  -- one if it is positive.
  pub on_message-Takes :
      (msg : Message) (o : Orders) (t : TokenWise b)
      → Shows b laws past_end o t.bmp
      → IsSafe msg
      → (r : TokenWise b × FinalPrice) × Takes msg o t r
  unfolding on_message bid_ask trd_msg
  on_message-Takes (order msg) o t h safe =
      let (s, e, hs, same) = book_order-Shows msg o t.bmp h safe in
      let fine = published (pos 0) (meant (order msg) o) s t.bmp.fp hs same in
      (publish b past_end (pos 0) t s, (rw (e, bid_ask) refl, fine.0, fine.1, fine.2))
  on_message-Takes (trade msg) o t h safe =
      let hs =
        delete-Shows b laws past_end msg.selloder_id (pos 2) _ _
          (delete-Shows b laws past_end msg.buyorder_id (pos 1) o t.bmp h) in
      let same =
        delete_fp b laws past_end msg.selloder_id (pos 2) _
        ∙ delete_fp b laws past_end msg.buyorder_id (pos 1) t.bmp in
      let fine = published msg.trade_price (meant (trade msg) o) _ t.bmp.fp hs same in
      (_, (refl, fine.0, fine.1, fine.2))

  -- A sequence of messages about orders that are not read at the end of a map is taken to its end, and
  -- the book then has the live orders that the messages mean, one after the other.
  pub run-Shows :
      (ms : List Message) (o : Orders) (t : TokenWise b)
      → Shows b laws past_end o t.bmp
      → All IsSafe ms
      → (r : TokenWise b) × (run b past_end ms t ≡ some r)
        × Shows b laws past_end (meant_all ms o) r.bmp
  unfolding run
  run-Shows [] o t h safe = (t, refl, h)
  run-Shows (msg ∷ rest) o t h (safe, safes) =
      let (r, (e, hr, _, _)) = on_message-Takes msg o t h safe in
      let (q, eq, hq) = run-Shows rest (meant msg o) r.0 hr safes in (q, rw (e, run) eq, hq)
