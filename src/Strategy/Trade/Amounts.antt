-- ===== src/Strategy/Trade/Amounts.antt =====
-- TRADE_CONFIRMATION_TR of OrderServer-20151216-AtHome/src/StrategyClass.cpp: the quantities that a
-- fill of leg 1 is counted with and that legs 2 and 3 are ordered with, for whole ratios of the legs.
use native.Mathlib.Nat.{mul-le-mul, le_refl}
use jansan.Common.{
  ℕ, ◌+◌, ◌-◌, ◌*◌, ◌/◌, ◌^◌, ◌≤◌, ◌<◌, ◌≡◌, refl, ◌∙◌, Bool, true, false, arith, ℤ, pos, ◌+ℤ◌,
  ◌*ℤ◌,
}
use jansan.Common.Words.{word, htonl, ◌-i◌, ◌*i◌, to_int_id, to_short_id}
use jansan.Common.Words.Bytes.{ntohl-htonl, *i_exact}
use jansan.Messages.{TradeConfirmTr}
use jansan.Strategy.{Strategy, Quotient}
use jansan.Strategy.Trade.{FloatHit, lots_of, count_far, is_create_fill, leg2_hit_qty, leg3_hit_qty}

-- What single precision promises of whole numbers below 2 ^ 24: they, their products and a quotient
-- that is whole are exact.
pub record IsExact (hit : FloatHit) : Type 0 where
  pub whole :
      (q k d b : ℕ)
      → 0 < d
      → k * d < 2 ^ 24
      → q * k * b < 2 ^ 24
      → hit (pos q) (record { num = pos (k * d); den = pos d }) (pos b) ≡ pos (q * k * b)

-- The legs that hedge a fill of leg 1.
pub data Leg : Type 0 where
  leg2 : Leg
  leg3 : Leg

-- What leg 1 and a hedging leg have traded, on the side that creates the spread (true) or on the
-- one that reverses it.
abbrev pub traded_on : Bool → Strategy → ℤ
traded_on true s = s.counters.buy_trade
traded_on false s = s.counters.sell_trade

abbrev pub hedged_on : Leg → Bool → Strategy → ℤ
hedged_on leg2 true s = s.counters.buy_leg2
hedged_on leg2 false s = s.counters.sell_leg2
hedged_on leg3 true s = s.counters.buy_leg3
hedged_on leg3 false s = s.counters.sell_leg3

abbrev pub hit_ratio : Leg → Strategy → Quotient
hit_ratio leg2 s = s.leg2_hit_ratio
hit_ratio leg3 s = s.leg3_hit_ratio

abbrev pub hit_qty : Leg → FloatHit → TradeConfirmTr → Strategy → ℤ
hit_qty leg2 hit t s = leg2_hit_qty hit t s
hit_qty leg3 hit t s = leg3_hit_qty hit t s

-- A strategy whose leg 1 has traded n lots of b units on a side and whose other leg has hedged m of
-- them, at k lots of that leg for one of leg 1.
pub record Hedges (leg : Leg) (side : Bool) (s : Strategy) (n m b k d : ℕ) : Type 0 where
  pub traded : traded_on side s ≡ pos n
  pub hedged : hedged_on leg side s ≡ pos m
  pub lot : s.blq ≡ pos b
  pub ratio : hit_ratio leg s ≡ record { num = pos (k * d); den = pos d }
  pub lot_pos : 0 < b
  pub den_pos : 0 < d
  pub ratio_lt : k * d < 2 ^ 24

-- A fill of x lots of leg 1 on a side.
pub record IsFill (side : Bool) (t : TradeConfirmTr) (s : Strategy) (x b : ℕ) : Type 0 where
  pub on_side : is_create_fill t s ≡ side
  pub amount : t.fill_quantity ≡ htonl (pos (x * b))

pub mul_div : (x b : ℕ) → 0 < b → x * b / b ≡ x
mul_div x b h = grind arith

word_small : (n : ℕ) → n < 2 ^ 31 → word 32 (pos n) ≡ n
unfolding word
word_small n h = omega arith

le_mul : (x b : ℕ) → 0 < b → x * b < 2 ^ 31 → x < 2 ^ 31
le_mul x b h hx = grind arith

-- A whole number of lots comes out of the bytes of a message as it went in.
lots_of-htonl :
    (x b : ℕ) → 0 < b → b < 2 ^ 31 → x * b < 2 ^ 31 → lots_of (htonl (pos (x * b))) (pos b) ≡ pos x
unfolding lots_of
lots_of-htonl x b h hb hx =
    rw
      (
        ntohl-htonl (pos (x * b)) (omega arith),
        word_small (x * b) hx,
        word_small b hb,
        mul_div x b h,
      )
      (to_int_id (pos x) (le_mul x b h hx, omega arith))

pos_*ℤ_pos : (m b : ℕ) → pos m *ℤ pos b ≡ pos (m * b)
unfolding ◌*ℤ◌
pos_*ℤ_pos m b = ground arith

*i_small : (m b : ℕ) → m * b < 2 ^ 31 → pos m *i pos b ≡ pos (m * b)
*i_small m b h = *i_exact (pos m) (pos b) (rw (pos_*ℤ_pos m b) (h, omega arith)) ∙ pos_*ℤ_pos m b

pos_+ℤ_pos : (m b : ℕ) → pos m +ℤ pos b ≡ pos (m + b)
unfolding ◌+ℤ◌
pos_+ℤ_pos m b = ground arith

pub int_sub_small : (a b : ℕ) → b ≤ a → a < 2 ^ 31 → pos a -i pos b ≡ pos (a - b)
unfolding ◌-i◌
int_sub_small a b h ha = ground arith

small_hedge : (m a b : ℕ) → m ≤ a → a * b < 2 ^ 24 → m * b < 2 ^ 31
small_hedge m a b h ha = omega (arith, mul-le-mul h (le_refl b))

pub lt_times : (m a b : ℕ) → m < a → 0 < b → m * b < a * b
lt_times m a b h p = omega (arith, mul-le-mul h (le_refl b))

pub le_of_add : (a y : ℕ) → a ≤ a + y
le_of_add a y = omega arith

count_far-traded :
    (side : Bool) (t : TradeConfirmTr) (s : Strategy) (n b x : ℕ)
    → traded_on side s ≡ pos n
    → s.blq ≡ pos b
    → IsFill side t s x b
    → 0 < b
    → n + x < 2 ^ 15
    → b < 2 ^ 31
    → x * b < 2 ^ 31
    → traded_on side (count_far t s) ≡ pos (n + x)
unfolding count_far
count_far-traded true t s n b x traded lot f hp hn hb hx =
    simp (f.on_side, f.amount, lot, lots_of-htonl x b hp hb hx, traded, pos_+ℤ_pos)
      (to_short_id (pos (n + x)) (hn, omega arith))
count_far-traded false t s n b x traded lot f hp hn hb hx =
    simp (f.on_side, f.amount, lot, lots_of-htonl x b hp hb hx, traded, pos_+ℤ_pos)
      (to_short_id (pos (n + x)) (hn, omega arith))

count_far-hedged :
    (leg : Leg) (side : Bool) (t : TradeConfirmTr) (s : Strategy)
    → is_create_fill t s ≡ side
    → hedged_on leg side (count_far t s) ≡ hedged_on leg side s
unfolding count_far
count_far-hedged leg2 true t s e = simp e refl
count_far-hedged leg2 false t s e = simp e refl
count_far-hedged leg3 true t s e = simp e refl
count_far-hedged leg3 false t s e = simp e refl

count_far-hit_ratio :
    (leg : Leg) (t : TradeConfirmTr) (s : Strategy)
    → hit_ratio leg (count_far t s) ≡ hit_ratio leg s
unfolding count_far
count_far-hit_ratio leg2 t s = ground arith
count_far-hit_ratio leg3 t s = ground arith

count_far_lot : (t : TradeConfirmTr) (s : Strategy) → (count_far t s).blq ≡ s.blq
unfolding count_far
count_far_lot t s = ground arith

-- The fill is counted on its side, and what is hedged stays.
pub count_far-Hedges :
    (leg : Leg) (side : Bool) (t : TradeConfirmTr) (s : Strategy) (n m b k d x : ℕ)
    → Hedges leg side s n m b k d
    → IsFill side t s x b
    → n + x < 2 ^ 15
    → b < 2 ^ 31
    → x * b < 2 ^ 31
    → Hedges leg side (count_far t s) (n + x) m b k d
count_far-Hedges leg side t s n m b k d x h f hn hb hx = record {
  traded = count_far-traded side t s n b x h.traded h.lot f h.lot_pos hn hb hx;
  hedged = count_far-hedged leg side t s f.on_side ∙ h.hedged;
  lot = count_far_lot t s ∙ h.lot;
  ratio = count_far-hit_ratio leg t s ∙ h.ratio;
  lot_pos = h.lot_pos;
  den_pos = h.den_pos;
  ratio_lt = h.ratio_lt;
}

exact_qty :
    (hit : FloatHit) (n m b k d : ℕ)
    → IsExact hit
    → 0 < d
    → k * d < 2 ^ 24
    → m ≤ n * k
    → n * k * b < 2 ^ 24
    → hit (pos n) (record { num = pos (k * d); den = pos d }) (pos b) -i pos m *i pos b
      ≡ pos (n * k * b - m * b)
exact_qty hit n m b k d exact hd hr hm hn =
    simp (exact.whole n k d b hd hr hn, *i_small m b (small_hedge m (n * k) b hm hn))
      (int_sub_small (n * k * b) (m * b) (mul-le-mul hm (le_refl b)) (omega arith))

-- The order that a hedge needs: what leg 1 has, less what the leg has.
pub hit_qty-Hedges :
    (leg : Leg) (side : Bool) (hit : FloatHit) (t : TradeConfirmTr) (s : Strategy) (n m b k d : ℕ)
    → IsExact hit
    → Hedges leg side s n m b k d
    → is_create_fill t s ≡ side
    → m ≤ n * k
    → n * k * b < 2 ^ 24
    → hit_qty leg hit t s ≡ pos (n * k * b - m * b)
unfolding leg2_hit_qty leg3_hit_qty
hit_qty-Hedges leg2 true hit t s n m b k d exact h c hm hn =
    simp (c, h.traded, h.hedged, h.lot, h.ratio)
      (exact_qty hit n m b k d exact h.den_pos h.ratio_lt hm hn)
hit_qty-Hedges leg2 false hit t s n m b k d exact h c hm hn =
    simp (c, h.traded, h.hedged, h.lot, h.ratio)
      (exact_qty hit n m b k d exact h.den_pos h.ratio_lt hm hn)
hit_qty-Hedges leg3 true hit t s n m b k d exact h c hm hn =
    simp (c, h.traded, h.hedged, h.lot, h.ratio)
      (exact_qty hit n m b k d exact h.den_pos h.ratio_lt hm hn)
hit_qty-Hedges leg3 false hit t s n m b k d exact h c hm hn =
    simp (c, h.traded, h.hedged, h.lot, h.ratio)
      (exact_qty hit n m b k d exact h.den_pos h.ratio_lt hm hn)
