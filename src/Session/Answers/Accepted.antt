-- ===== src/Session/Answers/Accepted.antt =====
-- What BindConnection (OrderServer-20151216-AtHome/src/TapSignOn.cpp) does with the acceptance of
-- an order.
use jansan.Common.{
  ◌≡◌, refl, sym, ◌∙◌, ap, subst, true, false, none, List, [], ◌∷◌, ◌++◌, ℤ, pos, ◌=?ℤ◌, ltb_ℤ,
  arith, =?ℤ_refl,
}
use jansan.Common.Words.{htons, ntohs}
use jansan.Messages.{PfHolder, zero_holder, OeResponseTr, OmRequestTr}
use jansan.Queue.{mkt_queue}
use jansan.Session.Holder.{Wanted, find_by_token, get_pf}
use jansan.Session.Holder.Found.{IsNew, answered, get_pf-append, get_pf-IsNew}
use jansan.Session.Answers.{
  OrderMap, IsOrderMap, accepts, Out, published, Desk, get_new, of_response, return_cancel_pack,
  cancel_orphan, on_acceptance, on_change,
}
use jansan.Session.Answers.Routes.{IsHeld, change_unknown}

-- A desk after an acceptance for `d`.
abbrev took : (b : OrderMap) → ℤ → PfHolder → List PfHolder → Desk b → Desk b
took b n d holders s = record s {
  queue_holder = holders;
  out_pf = b.insert n (answered n s.last_seq d) s.out_pf;
}

get_new-get_pf :
    (b : OrderMap) (x : Wanted) (n : ℤ) (d : PfHolder) (holders : List PfHolder) (s : Desk b)
    → get_pf x n s.last_seq s.queue_holder ≡ (answered n s.last_seq d, holders)
    → get_new b x n s ≡ (answered n s.last_seq d, took b n d holders s)
unfolding get_new
get_new-get_pf b x n d holders s e =
    ap {A = PfHolder × List PfHolder}
      (λ r. (r.0, record s { queue_holder = r.1; out_pf = b.insert r.0.order_no r.0 s.out_pf })) e

-- A cancellation of the order that the exchange describes in an acceptance, with nothing else in
-- it. The numbers of the message are read in the host's byte order.
pub record Cancels (r : OeResponseTr) (m : OmRequestTr) : Type 0 where
  pub code : htons m.transaction_code ≡ pos 20070
  pub by : m.modified_cancelled_by ≡ b'T'
  pub contract :
      (m.token_no ≡ r.token_no)
      × (m.origin.instrument_name ≡ r.origin.instrument_name)
      × (m.origin.symbol ≡ r.origin.symbol)
      × (m.origin.expiry_date ≡ r.origin.expiry_date)
      × (m.origin.strike_price ≡ r.origin.strike_price)
      × (m.origin.option_type ≡ r.origin.option_type)
  pub number : m.order_number ≡ r.order_number
  pub side : m.buy_sell_indicator ≡ r.buy_sell_indicator
  pub amounts :
      (m.volume ≡ r.volume)
      × (m.disclosed_volume ≡ r.disclosed_volume)
      × (m.disclosed_volume_remaining ≡ r.disclosed_volume_remaining)
      × (m.total_volume_remaining ≡ r.total_volume_remaining)
      × (m.volume_filled_today ≡ r.volume_filled_today)
  pub price : m.price ≡ r.price
  pub times : (m.entry_date_time ≡ r.entry_date_time) × (m.last_modified ≡ r.last_modified)
  pub member :
      (m.origin.user_id ≡ r.origin.user_id)
      × (m.origin.account_number ≡ r.origin.account_number)
      × (m.origin.branch_id ≡ r.origin.branch_id)
      × (m.origin.trader_id ≡ r.origin.trader_id)
      × (m.origin.broker_id ≡ r.origin.broker_id)
  pub flags : (m.origin.flag_in ≡ 8) × (m.origin.flag_out ≡ 16)
  pub frame : (htons m.origin.packet_length ≡ pos 164) × (htons m.origin.msg_count ≡ pos 1)
  pub unset : (m.sequence_number ≡ pos 0) × (m.check_sum ≡ []) × (m.others ≡ [])

return_cancel_pack-Cancels : (r : OeResponseTr) → Cancels r (return_cancel_pack r)
unfolding return_cancel_pack ntohs
return_cancel_pack-Cancels r = record {
  code = refl;
  by = refl;
  contract = (refl, refl, refl, refl, refl, refl);
  number = refl;
  side = refl;
  amounts = (refl, refl, refl, refl, refl);
  price = refl;
  times = (refl, refl);
  member = (refl, refl, refl, refl, refl);
  flags = (refl, refl);
  frame = (refl, refl);
  unset = (refl, refl, refl);
}

module _ (b : OrderMap) where
  accepted_lem :
      (r : OeResponseTr) (front rest : List PfHolder) (d : PfHolder) (s : Desk b)
      → IsNew (of_response r) front
      → find_by_token (of_response r) d ≡ true
      → s.queue_holder ≡ front ++ d ∷ rest
      → ltb_ℤ (pos 0) d.pf ≡ true
      → on_acceptance b r s
        ≡ (took b r.order_number d (front ++ rest) s, published d.subscription_tag (accepts r) ∷ [])
  unfolding on_acceptance
  accepted_lem r front rest d s new fits waits real =
      let not_zero : (d.pf =?ℤ pos 0) ≡ false = ground arith in
      let found =
        ap (get_pf (of_response r) r.order_number s.last_seq) waits
        ∙ get_pf-append (of_response r) r.order_number s.last_seq front rest d new fits in
      rw (get_new-get_pf b (of_response r) r.order_number d (front ++ rest) s found, not_zero, real)
        refl

  -- The exchange accepts an order that fits none that waits. Then nothing is published, the orders
  -- that wait are those that waited, and one message of 164 bytes goes to the market orders: a
  -- cancellation, with transaction code 20070, of the order with the number, contract, side,
  -- volumes and price of the acceptance, with no sequence number and no check sum yet.
  pub on_acceptance_orphan :
      (r : OeResponseTr) (s : Desk b)
      → IsNew (of_response r) s.queue_holder
      → ((on_acceptance b r s).1 ≡ [])
        × ((on_acceptance b r s).0.queue_holder ≡ s.queue_holder)
        × ((d : PfHolder) × ((on_acceptance b r s).0.fill ≡ mkt_queue d s.fill)
            × (d.size ≡ pos 164)
            × (d.subscription_tag ≡ s.pf_orphan.subscription_tag)
            × Cancels r d.omtr)
  unfolding on_acceptance cancel_orphan
  on_acceptance_orphan r s new =
      let found =
        get_new-get_pf b (of_response r) r.order_number zero_holder s.queue_holder s
          (get_pf-IsNew (of_response r) r.order_number s.last_seq s.queue_holder new) in
      let d : PfHolder = record s.pf_orphan { size = pos 164; omtr = return_cancel_pack r } in
      (rw found refl, rw found refl, (d, rw found refl, refl, refl, return_cancel_pack-Cancels r))

module _ (b : OrderMap) (h : IsOrderMap b) where
  -- The exchange accepts an order that waits for its answer, under a number that no order has, and no
  -- holder of the map is taken for the same as its holder. Then the acceptance is published under the
  -- tag of the strategy, the order does not wait any more, and it is held under its number.
  pub on_acceptance-IsHeld :
      (r : OeResponseTr) (front rest : List PfHolder) (d : PfHolder) (s : Desk b)
      → IsNew (of_response r) front
      → find_by_token (of_response r) d ≡ true
      → s.queue_holder ≡ front ++ d ∷ rest
      → ltb_ℤ (pos 0) d.pf ≡ true
      → b.find r.order_number s.out_pf ≡ none
      → b.clashes (answered r.order_number s.last_seq d) s.out_pf ≡ false
      → ((on_acceptance b r s).1 ≡ published d.subscription_tag (accepts r) ∷ [])
        × ((on_acceptance b r s).0.queue_holder ≡ front ++ rest)
        × IsHeld b r.order_number (answered r.order_number s.last_seq d) (on_acceptance b r s).0
  on_acceptance-IsHeld r front rest d s new fits waits real unknown free =
      subst
        (λ (x : Desk b × List Out).
          (x.1 ≡ published d.subscription_tag (accepts r) ∷ [])
          × (x.0.queue_holder ≡ front ++ rest)
          × IsHeld b r.order_number (answered r.order_number s.last_seq d) x.0)
        (sym (accepted_lem b r front rest d s new fits waits real)) (refl, refl, held)
    where
      held :
          IsHeld b r.order_number
            (answered r.order_number s.last_seq d)
            (took b r.order_number d (front ++ rest) s)
      held =
          h.find-insert r.order_number r.order_number (answered r.order_number s.last_seq d)
            s.out_pf free
          ∙ rw (=?ℤ_refl r.order_number, unknown) refl

  -- The same, but a holder of the map is taken for the same as the order's holder. Then the
  -- acceptance is published under the tag of the strategy, but the order is held nowhere: a later
  -- confirmation with its number is not published.
  pub on_acceptance_clash :
      (r later : OeResponseTr) (front rest : List PfHolder) (d : PfHolder) (s : Desk b)
      → IsNew (of_response r) front
      → find_by_token (of_response r) d ≡ true
      → s.queue_holder ≡ front ++ d ∷ rest
      → ltb_ℤ (pos 0) d.pf ≡ true
      → b.find r.order_number s.out_pf ≡ none
      → b.clashes (answered r.order_number s.last_seq d) s.out_pf ≡ true
      → later.order_number ≡ r.order_number
      → ((on_acceptance b r s).1 ≡ published d.subscription_tag (accepts r) ∷ [])
        × ((on_acceptance b r s).0.queue_holder ≡ front ++ rest)
        × ((on_change b later (on_acceptance b r s).0).1 ≡ [])
  on_acceptance_clash r later front rest d s new fits waits real unknown clash same_number =
      subst
        (λ (x : Desk b × List Out).
          (x.1 ≡ published d.subscription_tag (accepts r) ∷ [])
          × (x.0.queue_holder ≡ front ++ rest)
          × ((on_change b later x.0).1 ≡ []))
        (sym (accepted_lem b r front rest d s new fits waits real))
        (
          refl,
          refl,
          change_unknown b later (took b r.order_number d (front ++ rest) s) still_unknown,
        )
    where
      still_unknown :
          b.find later.order_number (took b r.order_number d (front ++ rest) s).out_pf ≡ none
      still_unknown =
          ap (b.find later.order_number)
            (h.insert_clash r.order_number (answered r.order_number s.last_seq d) s.out_pf clash)
          ∙ ap (λ i. b.find i s.out_pf) same_number
          ∙ unknown
