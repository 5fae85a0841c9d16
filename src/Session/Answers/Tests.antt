-- ===== src/Session/Answers/Tests.antt =====
-- The answers of BindConnection (OrderServer-20151216-AtHome/src/TapSignOn.cpp) about one order.
use jansan.Common.{
  Bool, true, false, ◌≡◌, refl, Option, none, some, List, [], ◌∷◌, ℤ, pos, ◌=?ℤ◌, if◌then◌else◌,
}
use jansan.Common.Words.{ntohl, swap32, word, signed}
use jansan.Messages.{PfHolder, zero_holder, zero_origin, OeResponseTr, OeRequest, TradeConfirmTr}
use jansan.Queue.{ConcurrentQueue, mkt_queue}
use jansan.Session.Holder.Found.{answered}
use jansan.Session.Answers.{
  OrderMap, IsOrderMap, kept_or, Answer, accepts, changes, rejects, fills, published, to_admin,
  Desk, on_fill, on_change, on_acceptance, run_answers,
}
use jansan.Session.Answers.Routes.{IsHeld, about, under}
use jansan.Session.Answers.Routes.Runs.{run_answers-under}
use jansan.Session.Answers.Accepted.{
  Cancels, on_acceptance-IsHeld, on_acceptance_clash, on_acceptance_orphan,
}
use jansan.Session.Answers.Filled.{on_fill_forgets}

-- A map that has the operations of the container, with holders told apart by their portfolio: the
-- holder of each number, and the portfolios that have one.
abbrev Held : Type 0
Held = (ℤ → Option PfHolder) × (ℤ → Bool)

abbrev freed : Option PfHolder → (ℤ → Bool) → ℤ → Bool
freed none has p = has p
freed (some d) has p = if d.pf =?ℤ p then false else has p

abbrev by_portfolio : OrderMap
by_portfolio = record {
  Map = Held;
  find = λ k m. m.0 k;
  insert = λ k d m. if m.1 d.pf then m else (
    λ j. if k =?ℤ j then kept_or (m.0 k) d else m.0 j,
    λ p. if d.pf =?ℤ p then true else m.1 p,
  );
  erase = λ k m. (λ j. if k =?ℤ j then none else m.0 j, freed (m.0 k) m.1);
  clashes = λ d m. m.1 d.pf;
}

by_portfolio-IsOrderMap : IsOrderMap by_portfolio
by_portfolio-IsOrderMap = record {
  find-insert = λ k j d m free. rw free refl;
  insert_clash = λ k d m clash. rw clash refl;
  find-erase = λ k j m. refl;
}

abbrev order : PfHolder
order = record zero_holder { pf = pos 7; cid = pos 3; subscription_tag = pos 1337 }

abbrev response : OeResponseTr
response = record {
  open_close = 79;
  origin = zero_origin;
  reserved1l = 0;
  others = [];
  error_code = pos 0;
  token_no = pos 0;
  order_number = pos 1000001;
  buy_sell_indicator = pos 0;
  disclosed_volume = pos 0;
  disclosed_volume_remaining = pos 0;
  total_volume_remaining = pos 0;
  volume = pos 0;
  volume_filled_today = pos 0;
  price = pos 0;
  entry_date_time = pos 0;
  last_modified = pos 0;
  filler = pos 0;
}

abbrev rejection : OeRequest
rejection = record {
  error_code = pos 0;
  token_no = pos 0;
  order_number = pos 1000001;
  buy_sell_indicator = pos 0;
  volume = pos 0;
  price = pos 0;
}

abbrev last_fill : TradeConfirmTr
last_fill = record {
  response_order_number = pos 1000001;
  buy_sell_indicator = pos 0;
  remaining_volume = pos 0;
  fill_quantity = pos 0;
  token = pos 0;
}

abbrev no_orders : ConcurrentQueue
no_orders = record { the_queue = []; count = pos 0 }

abbrev waiting : Desk by_portfolio
waiting = record {
  out_pf = (λ k. none, λ p. false);
  queue_holder = order ∷ [];
  last_seq = pos 5;
  pf_orphan = zero_holder;
  fill = record { bid = no_orders; mkt = no_orders };
}

abbrev held : Desk by_portfolio
held = record waiting {
  out_pf = (λ k. if pos 1000001 =?ℤ k then some order else none, λ p. p =?ℤ pos 7);
  queue_holder = [];
}

abbrev answers : List Answer
answers =
    changes response
    ∷ rejects rejection
    ∷ changes (record response { order_number = pos 1000002 })
    ∷ accepts (record response { order_number = pos 1000003 })
    ∷ []

run_answers-under_example :
    IsHeld by_portfolio (pos 1000001) order (run_answers by_portfolio answers held).0
    × (about (pos 1000001) (run_answers by_portfolio answers held).1
        ≡ under (pos 1337) (pos 1000001) answers)
run_answers-under_example =
    run_answers-under by_portfolio by_portfolio-IsOrderMap (pos 1000001) order answers held refl
      refl (tt, (tt, (tt, (refl, tt)))) refl

on_acceptance-IsHeld_example :
    ((on_acceptance by_portfolio response waiting).1 ≡ published (pos 1337) (accepts response) ∷ [])
    × ((on_acceptance by_portfolio response waiting).0.queue_holder ≡ [])
    × IsHeld by_portfolio
        (pos 1000001)
        (answered (pos 1000001) (pos 5) order)
        (on_acceptance by_portfolio response waiting).0
on_acceptance-IsHeld_example =
    on_acceptance-IsHeld by_portfolio by_portfolio-IsOrderMap response [] [] order waiting tt refl
      refl refl refl refl

on_acceptance_orphan_example :
    ((on_acceptance by_portfolio response held).1 ≡ [])
    × ((on_acceptance by_portfolio response held).0.queue_holder ≡ held.queue_holder)
    × ((d : PfHolder) × ((on_acceptance by_portfolio response held).0.fill ≡ mkt_queue d held.fill)
        × (d.size ≡ pos 164)
        × (d.subscription_tag ≡ pos 0)
        × Cancels response d.omtr)
on_acceptance_orphan_example = on_acceptance_orphan by_portfolio response held tt

-- A second order of the same portfolio.
abbrev second : Desk by_portfolio
second = record held { queue_holder = order ∷ [] }

abbrev second_response : OeResponseTr
second_response = record response { order_number = pos 1000002 }

on_acceptance_clash_example :
    ((on_acceptance by_portfolio second_response second).1
      ≡ published (pos 1337) (accepts second_response) ∷ [])
    × ((on_acceptance by_portfolio second_response second).0.queue_holder ≡ [])
    × ((on_change by_portfolio second_response
          (on_acceptance by_portfolio second_response second).0).1
        ≡ [])
on_acceptance_clash_example =
    on_acceptance_clash by_portfolio by_portfolio-IsOrderMap second_response second_response [] []
      order second tt refl refl refl refl refl refl

nothing_left : ntohl (pos 0) ≡ pos 0
unfolding ntohl swap32 word signed
nothing_left = refl

on_fill_forgets_example :
    ((on_fill by_portfolio last_fill held).1
      ≡ published (pos 1337) (fills last_fill) ∷ to_admin (pos 3) (pos 7) last_fill ∷ [])
    × (by_portfolio.find (pos 1000001) (on_fill by_portfolio last_fill held).0.out_pf ≡ none)
    × ((on_change by_portfolio response (on_fill by_portfolio last_fill held).0).1 ≡ [])
on_fill_forgets_example =
    on_fill_forgets by_portfolio by_portfolio-IsOrderMap last_fill response order held refl
      (rw nothing_left refl) refl refl
