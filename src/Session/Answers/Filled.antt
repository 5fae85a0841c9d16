-- ===== src/Session/Answers/Filled.antt =====
-- What BindConnection (OrderServer-20151216-AtHome/src/TapSignOn.cpp) does with the last fill of an
-- order.
use jansan.Common.{◌≡◌, refl, ◌∙◌, ap, true, none, List, [], ◌∷◌, ℤ, pos, ltb_ℤ, leb_ℤ, =?ℤ_refl}
use jansan.Common.Words.{ntohl}
use jansan.Messages.{PfHolder, TradeConfirmTr, OeResponseTr}
use jansan.Session.Answers.{
  OrderMap, IsOrderMap, fills, published, to_admin, Desk, get_record_by_order, fill_passed_on,
  on_fill, on_change, look_up,
}
use jansan.Session.Answers.Routes.{IsHeld, change_unknown}

module _ (b : OrderMap) (h : IsOrderMap b) where
  look_up_last :
      (n remaining : ℤ) (d : PfHolder) (s : Desk b)
      → leb_ℤ remaining (pos 0) ≡ true
      → IsHeld b n d s
      → look_up b n remaining s ≡ (d, record s { out_pf = b.erase n s.out_pf })
  unfolding get_record_by_order
  look_up_last n remaining d s last e = rw (e, last) refl

  on_fill_last :
      (t : TradeConfirmTr) (d : PfHolder) (s : Desk b)
      → ltb_ℤ (pos 0) d.pf ≡ true
      → leb_ℤ (ntohl t.remaining_volume) (pos 0) ≡ true
      → IsHeld b t.response_order_number d s
      → on_fill b t s ≡ (
        record s { out_pf = b.erase t.response_order_number s.out_pf },
        published d.subscription_tag (fills t) ∷ to_admin d.cid d.pf t ∷ [],
      )
  unfolding on_fill
  on_fill_last t d s real last e =
      ap {A = PfHolder × Desk b} (λ x. (x.1, fill_passed_on x.0 t))
        (look_up_last t.response_order_number (ntohl t.remaining_volume) d s last e)
      ∙ rw real refl

  -- The fill that leaves nothing of an order is published under the tag of its strategy, and goes to
  -- the administrator with the client and the portfolio; after it no order is held under the number,
  -- and a later change with that number is not published.
  pub on_fill_forgets :
      (t : TradeConfirmTr) (r : OeResponseTr) (d : PfHolder) (s : Desk b)
      → ltb_ℤ (pos 0) d.pf ≡ true
      → leb_ℤ (ntohl t.remaining_volume) (pos 0) ≡ true
      → r.order_number ≡ t.response_order_number
      → IsHeld b t.response_order_number d s
      → ((on_fill b t s).1 ≡ published d.subscription_tag (fills t) ∷ to_admin d.cid d.pf t ∷ [])
        × (b.find t.response_order_number (on_fill b t s).0.out_pf ≡ none)
        × ((on_change b r (on_fill b t s).0).1 ≡ [])
  on_fill_forgets t r d s real last same_number e =
      let filled = on_fill_last t d s real last e in
      let gone : b.find t.response_order_number (b.erase t.response_order_number s.out_pf) ≡ none =
        h.find-erase t.response_order_number t.response_order_number s.out_pf
        ∙ rw (=?ℤ_refl t.response_order_number) refl in
      let gone_now : b.find t.response_order_number (on_fill b t s).0.out_pf ≡ none =
        ap {A = Desk b × List _} (λ x. b.find t.response_order_number x.0.out_pf) filled ∙ gone in
      (
        ap {A = Desk b × List _} (λ x. x.1) filled,
        gone_now,
        change_unknown b r (on_fill b t s).0
            (ap (λ i. b.find i (on_fill b t s).0.out_pf) same_number ∙ gone_now),
      )
