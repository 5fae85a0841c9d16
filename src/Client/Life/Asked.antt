-- ===== src/Client/Life/Asked.antt =====
-- Every action on an AutoClient (OrderServer-20151216-AtHome, src/AutoClient.cpp) keeps what
-- `SubStatus` and `SymbolDictionary` say of its calls on the data socket.
use jansan.Common.{
  ◌≡◌, refl, ◌∙◌, ap, arith, true, ◌||◌, Option, none, some, ℤ, pos, ◌=?ℤ◌, =?ℤ_refl, leb_ℤ,
  if_intro,
}
use jansan.Common.Maps.{lookup, or_new}
use jansan.Common.Words.{htonl}
use jansan.Messages.{FoPair, FoPairDiff, OeRequestTr, OmRequestTr}
use jansan.Tag.{e_order}
use jansan.Client.{Machine, Node, AutoClient}
use jansan.Client.Pairs.{
  handle_subscription, handle_un_subscription, handle_difference, open_portfolio, wire,
  subscribe_token_on_false, with_entry, subscribe_tokens, dropped, differed, fresh_node,
}
use jansan.Client.Manual.{manual_order_entry, manual_order_mod_cncl_entry, modified}
use jansan.Client.Reports.{
  Report, confirmation, mod_confirmation, cxl_confirmation, trade_confirmation, cxl_rej, mod_rej,
  error, unknown, manual, to_manual, order_confirmation_tr, order_mod_confirmation_tr,
}
use jansan.Client.Life.{
  IfSome, Action, subscribes, un_subscribes, differs, orders, modifies, quotes, reports, act,
}
use jansan.Client.Life.Keeps.{Moved, deliver-IfSome, on_report-IfSome}
use jansan.Client.Life.Calls.{listed, set_symbols-listed, touched-listed}
use jansan.Client.Life.Subscribed.{
  IsKept, on_false-IsKept, on_false-symbols, Kin, Kin-IsKept, Kin-refl,
}

module _ (m : Machine) where
  subscribe_tokens-IsKept :
      (p : FoPair) (c : AutoClient m.hub)
      → ((t : ℤ)
          → (p.token_three =?ℤ t || p.token_far =?ℤ t || p.token_near =?ℤ t) ≡ true
          → listed t (lookup t c.symbol_dictionary) ≡ true)
      → IsKept c
      → IsKept (subscribe_tokens m p c)
  subscribe_tokens-IsKept p c seen k =
      let far = subscribe_token_on_false p.token_far c in
      let near = subscribe_token_on_false p.token_near far in
      let far_symbols = on_false-symbols p.token_far c in
      let near_symbols = on_false-symbols p.token_near far ∙ far_symbols in
      on_false-IsKept p.token_three near
        (ap (λ x. listed p.token_three (lookup p.token_three x)) near_symbols
          ∙ seen p.token_three (ground (arith, =?ℤ_refl p.token_three)))
        (on_false-IsKept p.token_near far
          (ap (λ x. listed p.token_near (lookup p.token_near x)) far_symbols
            ∙ seen p.token_near (ground (arith, =?ℤ_refl p.token_near)))
          (on_false-IsKept p.token_far c (seen p.token_far (ground (arith, =?ℤ_refl p.token_far)))
            k))

  with_entry-Kin :
      (p : FoPair) (c : AutoClient m.hub) (o : Option Node) → Kin c (with_entry m p c o)
  with_entry-Kin p c none = record { sub_status = refl; calls = refl; symbols = λ t was. was }
  with_entry-Kin p c (some node) = Kin-refl c

  wire-Kin : (p : FoPair) (node : Node) (c : AutoClient m.hub) → Kin c (wire m p node c)
  unfolding wire
  wire-Kin p node c = record {
    sub_status = refl;
    calls = refl;
    symbols = λ t was. set_symbols-listed p t c.symbol_dictionary ∙ ground (arith, was);
  }

  wire-listed :
      (p : FoPair) (node : Node) (c : AutoClient m.hub) (t : ℤ)
      → (p.token_three =?ℤ t || p.token_far =?ℤ t || p.token_near =?ℤ t) ≡ true
      → listed t (lookup t (wire m p node c).symbol_dictionary) ≡ true
  unfolding wire
  wire-listed p node c t own = set_symbols-listed p t c.symbol_dictionary ∙ ground (arith, own)

  handle_subscription-IsKept :
      (p : FoPair) (c : AutoClient m.hub) → IsKept c → IsKept (handle_subscription m p c)
  unfolding handle_subscription open_portfolio
  handle_subscription-IsKept p c k =
      let opened_ = open_portfolio m p c in
      let node =
        or_new (fresh_node m opened_.next_address) (lookup p.portfolio_name opened_.stg_class) in
      if_intro IsKept (leb_ℤ p.portfolio_name (pos 0)) (λ _. k)
        λ _. subscribe_tokens-IsKept p (wire m p node opened_) (wire-listed p node opened_) (
          Kin-IsKept opened_ (wire m p node opened_) (wire-Kin p node opened_)
            (Kin-IsKept c opened_ (with_entry-Kin p c (lookup p.portfolio_name c.stg_class)) k))

  dropped-Kin : (pf : ℤ) (c : AutoClient m.hub) (o : Option Node) → Kin c (dropped pf c o)
  dropped-Kin pf c none = Kin-refl c
  dropped-Kin pf c (some node) = record { sub_status = refl; calls = refl; symbols = λ t was. was }

  differed-Kin :
      (d : FoPairDiff) (c : AutoClient m.hub) (o : Option Node) → Kin c (differed m d c o)
  differed-Kin d c none = record { sub_status = refl; calls = refl; symbols = λ t was. was }
  differed-Kin d c (some node) = record { sub_status = refl; calls = refl; symbols = λ t was. was }

  modified-Kin :
      (o : OmRequestTr) (c : AutoClient m.hub) (old : Option OmRequestTr) → Kin c (modified o c old)
  modified-Kin o c none = Kin-refl c
  modified-Kin o c (some old) = record { sub_status = refl; calls = refl; symbols = λ t was. was }

  manual_order_entry-Kin :
      (o : OeRequestTr) (c : AutoClient m.hub) → Kin c (manual_order_entry m o c)
  unfolding manual_order_entry
  manual_order_entry-Kin o c = record {
    sub_status = refl;
    calls = refl;
    symbols = λ t was. touched-listed (htonl o.token_no) t c.symbol_dictionary was;
  }

  manual-Kin : (report : Report) (c : AutoClient m.hub) → Kin c (manual m report c)
  unfolding order_confirmation_tr order_mod_confirmation_tr
  manual-Kin (confirmation r) c = record { sub_status = refl; calls = refl; symbols = λ t was. was }
  manual-Kin (mod_confirmation r) c = record {
    sub_status = refl;
    calls = refl;
    symbols = λ t was. was;
  }
  manual-Kin (cxl_confirmation stack r) c = Kin-refl c
  manual-Kin (trade_confirmation t) c = Kin-refl c
  manual-Kin (cxl_rej q) c = Kin-refl c
  manual-Kin (mod_rej q) c = Kin-refl c
  manual-Kin (error q) c = Kin-refl c
  manual-Kin unknown c = Kin-refl c

  to_manual-IsKept :
      (report : Report) (c : AutoClient m.hub) → IsKept c → IsKept (to_manual m report c)
  unfolding to_manual
  to_manual-IsKept report c k =
      if_intro IsKept (leb_ℤ (pos 999) c.current.pf_num)
        (λ _.
          if_intro IsKept (c.current.msg_type =?ℤ e_order)
            (λ _. Kin-IsKept c (manual m report c) (manual-Kin report c) k) λ _. k)
        λ _. k

  IsKept-Moved : Moved m IsKept
  IsKept-Moved cls fill n c k = record { told = k.told; known = k.known }

  pub act-IsKept : (a : Action) (c : AutoClient m.hub) → IsKept c → IfSome IsKept (act m a c)
  unfolding act handle_un_subscription handle_difference manual_order_mod_cncl_entry
  act-IsKept (subscribes p) c k = handle_subscription-IsKept p c k
  act-IsKept (un_subscribes p) c k =
      let o = lookup p.portfolio_name c.stg_class in
      Kin-IsKept c (dropped p.portfolio_name c o) (dropped-Kin p.portfolio_name c o) k
  act-IsKept (differs d) c k =
      let o = lookup d.portfolio_name c.stg_class in
      Kin-IsKept c (differed m d c o) (differed-Kin d c o) k
  act-IsKept (orders o) c k = Kin-IsKept c (manual_order_entry m o c) (manual_order_entry-Kin o c) k
  act-IsKept (modifies o) c k =
      let old = lookup o.order_number c.manual_order_store in
      Kin-IsKept c (modified o c old) (modified-Kin o c old) k
  act-IsKept (quotes fp) c k = deliver-IfSome m IsKept IsKept-Moved fp c k
  act-IsKept (reports tag report) c k =
      on_report-IfSome m IsKept IsKept-Moved tag report c
        (record { told = k.told; known = k.known }) (to_manual-IsKept report)
