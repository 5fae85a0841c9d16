-- ===== src/Strategy/Trade/Orders.antt =====
-- TRADE_CONFIRMATION_TR of OrderServer-20151216-AtHome/src/StrategyClass.cpp: the market orders that
-- the hits of legs 2 and 3 put into the queue.
use mathlib.Core.List.{append_assoc, append-nil}
use jansan.Common.{
  ℕ, zero, suc, ◌≡◌, refl, ap, sym, ◌∙◌, Bool, true, false, List, [], ◌∷◌, ◌++◌, ℤ, pos, ◌=?ℤ◌,
  ltb_ℤ, arith, subst, if◌then◌else◌,
}
use jansan.Common.Words.{htonl, htons, ntohs}
use jansan.Messages.{OeRequestTr, PfHolder, TradeConfirmTr}
use jansan.Queue.{mkt_queue, push}
use jansan.Strategy.Confirm.{send_pf_mkt_sell}
use jansan.Strategy.{Strategy, World}
use jansan.Strategy.Trade.{
  FloatHit, count_far, is_create_fill, leg2_hit_qty, leg3_hit_qty, send_pf_mkt_sell2, leg2_side,
  leg3_side, hit_leg2, hit_leg3, trade_far,
}
use jansan.Strategy.Trade.Amounts.{Leg, leg2, leg3}

-- The market orders for p units of a leg: one, or none.
abbrev pub ordered : PfHolder → OeRequestTr → ℤ → ℕ → List PfHolder
ordered pf prepared side zero = []
ordered pf prepared side (suc p) =
    (record pf {
      size = pos 136;
      oetr = record prepared {
        buy_sell_indicator = ntohs side;
        disclosed_volume = htonl (pos (suc p));
        volume = htonl (pos (suc p));
      };
    })
    ∷ []

-- The side on which a leg is ordered, for a fill of leg 1 that creates the spread (true) or
-- reverses it.
abbrev pub side_of : Leg → Bool → Strategy → ℤ
side_of leg2 true s = s.sides.create_leg2
side_of leg2 false s = s.sides.reverse_leg2
side_of leg3 true s = s.sides.create_leg3
side_of leg3 false s = s.sides.reverse_leg3

-- What sending an order leaves alone. A holder keeps all but the order in it.
pub record Kept (s t : Strategy) : Type 0 where
  pub counters : t.counters ≡ s.counters
  pub lot : t.blq ≡ s.blq
  pub ratio2 : t.leg2_hit_ratio ≡ s.leg2_hit_ratio
  pub ratio3 : t.leg3_hit_ratio ≡ s.leg3_hit_ratio
  pub pair : t.fo_pair_obj ≡ s.fo_pair_obj
  pub packs : t.nm_pack ≡ s.nm_pack
  pub sides : t.sides ≡ s.sides
  pub holder2 :
      (prepared : OeRequestTr) (side : ℤ) (p : ℕ)
      → ordered t.holders.pf_mkt_sell prepared side p
        ≡ ordered s.holders.pf_mkt_sell prepared side p
  pub holder3 :
      (prepared : OeRequestTr) (side : ℤ) (p : ℕ)
      → ordered t.holders.pf_mkt_sell2 prepared side p
        ≡ ordered s.holders.pf_mkt_sell2 prepared side p

pub Kept-refl : (s : Strategy) → Kept s s
Kept-refl s = record {
  counters = refl;
  lot = refl;
  ratio2 = refl;
  ratio3 = refl;
  pair = refl;
  packs = refl;
  sides = refl;
  holder2 = λ prepared side p. refl;
  holder3 = λ prepared side p. refl;
}

pub Kept-trans : (s t u : Strategy) → Kept s t → Kept t u → Kept s u
Kept-trans s t u h k = record {
  counters = k.counters ∙ h.counters;
  lot = k.lot ∙ h.lot;
  ratio2 = k.ratio2 ∙ h.ratio2;
  ratio3 = k.ratio3 ∙ h.ratio3;
  pair = k.pair ∙ h.pair;
  packs = k.packs ∙ h.packs;
  sides = k.sides ∙ h.sides;
  holder2 = λ prepared side p. k.holder2 prepared side p ∙ h.holder2 prepared side p;
  holder3 = λ prepared side p. k.holder3 prepared side p ∙ h.holder3 prepared side p;
}

-- From w to v orders went to the market queue, and nothing else happened.
pub record Sends (w v : World) (ds : List PfHolder) : Type 0 where
  pub queue : v.fill.mkt.the_queue ≡ w.fill.mkt.the_queue ++ ds
  pub bid : v.fill.bid ≡ w.fill.bid
  pub kept : Kept w.stg v.stg

Sends-none : (w : World) → Sends w w []
Sends-none w = record {
  queue = sym (append-nil w.fill.mkt.the_queue);
  bid = refl;
  kept = Kept-refl w.stg;
}

Sends-trans :
    (w v u : World) (ds es : List PfHolder) → Sends w v ds → Sends v u es → Sends w u (ds ++ es)
Sends-trans w v u ds es h k = record {
  queue = k.queue ∙ ap (λ xs. xs ++ es) h.queue ∙ append_assoc w.fill.mkt.the_queue ds es;
  bid = k.bid ∙ h.bid;
  kept = Kept-trans w.stg v.stg u.stg h.kept k.kept;
}

holder_again :
    (pf : PfHolder) (o prepared : OeRequestTr) (side : ℤ) (p : ℕ)
    → ordered (record pf { size = pos 136; oetr = o }) prepared side p ≡ ordered pf prepared side p
holder_again pf o prepared side zero = refl
holder_again pf o prepared side (suc p) = refl

hit_leg2-Kept :
    (s : Strategy) (o : OeRequestTr)
    → Kept s (record s {
      holders = record (s.holders) {
        pf_mkt_sell = record (s.holders.pf_mkt_sell) { size = pos 136; oetr = o };
      };
    })
hit_leg2-Kept s o = record {
  counters = refl;
  lot = refl;
  ratio2 = refl;
  ratio3 = refl;
  pair = refl;
  packs = refl;
  sides = refl;
  holder2 = holder_again s.holders.pf_mkt_sell o;
  holder3 = λ prepared side p. refl;
}

hit_leg3-Kept :
    (s : Strategy) (o : OeRequestTr)
    → Kept s (record s {
      holders = record (s.holders) {
        pf_mkt_sell2 = record (s.holders.pf_mkt_sell2) { size = pos 136; oetr = o };
      };
    })
hit_leg3-Kept s o = record {
  counters = refl;
  lot = refl;
  ratio2 = refl;
  ratio3 = refl;
  pair = refl;
  packs = refl;
  sides = refl;
  holder3 = holder_again s.holders.pf_mkt_sell2 o;
  holder2 = λ prepared side p. refl;
}

positive : (p : ℕ) → ltb_ℤ (pos 0) (pos (suc p)) ≡ true
positive p = ground arith

hit_leg2-Sends :
    (hit : FloatHit) (t : TradeConfirmTr) (w : World) (p : ℕ)
    → leg2_hit_qty hit t w.stg ≡ pos p
    → Sends w
        (hit_leg2 hit t w)
        (ordered w.stg.holders.pf_mkt_sell w.stg.nm_pack.near_month_market (leg2_side t w.stg) p)
unfolding hit_leg2 send_pf_mkt_sell mkt_queue push
hit_leg2-Sends hit t w zero e = rw e (Sends-none w)
hit_leg2-Sends hit t w (suc p) e =
    rw (e, positive p) record { queue = refl; bid = refl; kept = hit_leg2-Kept w.stg _ }

hit_leg3-Sends :
    (hit : FloatHit) (t : TradeConfirmTr) (w : World) (p : ℕ)
    → leg3_hit_qty hit t w.stg ≡ pos p
    → Sends w
        (hit_leg3 hit t w)
        (ordered w.stg.holders.pf_mkt_sell2 w.stg.nm_pack.near_month_market2 (leg3_side t w.stg) p)
unfolding hit_leg3 send_pf_mkt_sell2 mkt_queue push
hit_leg3-Sends hit t w zero e = rw e (Sends-none w)
hit_leg3-Sends hit t w (suc p) e =
    rw (e, positive p) record { queue = refl; bid = refl; kept = hit_leg3-Kept w.stg _ }

-- A strategy whose sides are those of its subscription orders a leg on the side that goes with the
-- fill.
=?ℤ_sym : (a b : ℤ) → (a =?ℤ b) ≡ (b =?ℤ a)
=?ℤ_sym a b = ground arith

pub leg2_side-side_of :
    (side : Bool) (t : TradeConfirmTr) (s : Strategy)
    → s.sides.create ≡ s.fo_pair_obj.token_far_side
    → is_create_fill t s ≡ side
    → leg2_side t s ≡ side_of leg2 side s
leg2_side-side_of true t s agree e = rw (agree, =?ℤ_sym s.fo_pair_obj.token_far_side, e) refl
leg2_side-side_of false t s agree e = rw (agree, =?ℤ_sym s.fo_pair_obj.token_far_side, e) refl

pub leg3_side-side_of :
    (side : Bool) (t : TradeConfirmTr) (s : Strategy)
    → s.sides.create ≡ s.fo_pair_obj.token_far_side
    → is_create_fill t s ≡ side
    → leg3_side t s ≡ side_of leg3 side s
leg3_side-side_of true t s agree e = rw (agree, =?ℤ_sym s.fo_pair_obj.token_far_side, e) refl
leg3_side-side_of false t s agree e = rw (agree, =?ℤ_sym s.fo_pair_obj.token_far_side, e) refl

leg3_hit_qty-Kept :
    (hit : FloatHit) (t : TradeConfirmTr) (s u : Strategy)
    → Kept s u
    → leg3_hit_qty hit t u ≡ leg3_hit_qty hit t s
unfolding leg3_hit_qty
leg3_hit_qty-Kept hit t s u k = simp (k.counters, k.lot, k.ratio3, k.pair) refl

-- A fill of leg 1 that makes the hits come to p and q units: the orders that go to the market queue.
pub trade_far-Sends :
    (hit : FloatHit) (t : TradeConfirmTr) (w : World) (p q : ℕ)
    → leg2_hit_qty hit t (count_far t w.stg) ≡ pos p
    → leg3_hit_qty hit t (count_far t w.stg) ≡ pos q
    → let s = count_far t w.stg in
      Sends
        (record w { stg = s })
        (trade_far hit t w)
        (ordered s.holders.pf_mkt_sell s.nm_pack.near_month_market (leg2_side t s) p
          ++ ordered s.holders.pf_mkt_sell2 s.nm_pack.near_month_market2 (leg3_side t s) q)
unfolding trade_far
trade_far-Sends hit t w p q two three =
    let counted : World = record w { stg = count_far t w.stg } in
    let s : Strategy = counted.stg in
    let hedged : World = hit_leg2 hit t counted in
    let first = hit_leg2-Sends hit t counted p two in
    let k : Kept s hedged.stg = first.kept in
    let next = hit_leg3-Sends hit t hedged q (leg3_hit_qty-Kept hit t s hedged.stg k ∙ three) in
    let same =
      ap
        (λ packs.
          ordered hedged.stg.holders.pf_mkt_sell2 packs.near_month_market2 (leg3_side t hedged.stg)
            q)
        k.packs
      ∙ ap
          (λ sides.
            ordered hedged.stg.holders.pf_mkt_sell2 s.nm_pack.near_month_market2
              (if sides.create =?ℤ htons t.buy_sell_indicator
                then sides.create_leg3
                else sides.reverse_leg3)
              q)
          k.sides
      ∙ k.holder3 s.nm_pack.near_month_market2 (leg3_side t s) q in
    Sends-trans counted hedged (hit_leg3 hit t hedged) _ _ first
      (subst (λ ds. Sends hedged (hit_leg3 hit t hedged) ds) same next)
