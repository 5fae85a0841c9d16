-- ===== src/Depth/Book/Prices.antt =====
-- `ReturnPrice` of Depth Data 20151224/TokenWiseClass.h: the prices that are published, and the
-- live orders that they stand for.
use jansan.Common.{
  ◌≡◌, refl, sym, ◌∙◌, Option, none, some, ℤ, pos, ltb_ℤ, if◌then◌else◌, ◌≤ℤ◌, ◌⊎◌, inl, inr,
}
use jansan.Messages.{FinalPrice}
use jansan.Depth.Bimap.{Bimap, IsBimap, IsHighest, IsLowest}
use jansan.Depth.Book.{Book, return_price, value_or}
use jansan.Depth.Book.Abstract.{Prices, Orders, IsOf, Shows}

-- A price that is published, after `old`, for the orders of a side: the best of theirs, or the old
-- one when there is no order.
abbrev pub IsBest : (ℤ → ℤ → Type 0) → Prices → ℤ → ℤ → Type 0
IsBest R f old new =
    (((k : ℤ) → f k ≡ none) × (new ≡ old))
    ⊎ ((k : ℤ) × (f k ≡ some new) × ((j q : ℤ) → f j ≡ some q → R q new))

abbrev pub IsTopBid : Prices → ℤ → ℤ → Type 0
IsTopBid = IsBest ◌≤ℤ◌

abbrev pub IsTopAsk : Prices → ℤ → ℤ → Type 0
IsTopAsk = IsBest (λ q p. p ≤ℤ q)

abbrev pub last_price : ℤ → ℤ → ℤ
last_price ltp old = if ltb_ℤ (pos 0) ltp then ltp else old

-- What is published after `old`, for the orders of a book.
abbrev pub IsPublished : ℤ → Orders → FinalPrice → FinalPrice → Type 0
IsPublished ltp o old new =
    IsTopBid o.bids old.max_bid new.max_bid
    × IsTopAsk o.asks old.min_ask new.min_ask
    × (new.ltp ≡ last_price ltp old.ltp)
    × (new.token ≡ old.token)
    × (new.sub_token ≡ old.sub_token)

module _ (b : Bimap) (laws : IsBimap b) (past_end : b.Map → ℤ) where
  top_bid :
      (m : b.Map) (f : Prices) (old : ℤ)
      → IsOf b laws past_end f m
      → (o : Option ℤ) → IsHighest b o m
      → IsTopBid f old (value_or o old)
  top_bid m f old h none hi = inl (λ k. sym (h k) ∙ hi k, refl)
  top_bid m f old h (some p) ((k, e), hi) = inr (k, sym (h k) ∙ e, λ j q e'. hi j q (h j ∙ e'))

  top_ask :
      (m : b.Map) (f : Prices) (old : ℤ)
      → IsOf b laws past_end f m
      → (o : Option ℤ) → IsLowest b o m
      → IsTopAsk f old (value_or o old)
  top_ask m f old h none hi = inl (λ k. sym (h k) ∙ hi k, refl)
  top_ask m f old h (some p) ((k, e), hi) = inr (k, sym (h k) ∙ e, λ j q e'. hi j q (h j ∙ e'))

  pub return_price-IsPublished :
      (ltp : ℤ) (o : Orders) (s : Book b)
      → Shows b laws past_end o s
      → IsPublished ltp o s.fp (return_price b past_end ltp s).1
  unfolding return_price
  return_price-IsPublished ltp o s (hb, ha) = (
    top_bid s.bid_data o.bids s.fp.max_bid hb (b.right_first s.bid_data) (laws.highest s.bid_data),
    top_ask s.ask_data o.asks s.fp.min_ask ha (b.right_last s.ask_data) (laws.lowest s.ask_data),
    refl,
    refl,
    refl,
  )
