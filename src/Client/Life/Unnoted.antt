-- ===== src/Client/Life/Unnoted.antt =====
-- What becomes of orders that are placed by hand in the life of an AutoClient
-- (OrderServer-20151216-AtHome, src/AutoClient.cpp).
use jansan.Common.{
  ◌≡◌, refl, sym, ◌∙◌, ap, subst, arith, false, Option, none, some, List, [], ℤ, pos, leb_ℤ,
  if_intro,
}
use jansan.Common.Maps.{lookup, or_new}
use jansan.Messages.{OmRequestTr, FoPair, FoPairDiff}
use jansan.Client.{Machine, Node, AutoClient}
use jansan.Client.Tags.Decode.{BelowManual, decode_pf_num}
use jansan.Client.Manual.{manual_order_entry, manual_order_mod_cncl_entry, modified}
use jansan.Client.Pairs.{
  handle_subscription, handle_un_subscription, handle_difference, open_portfolio, wire,
  subscribe_token_on_false, with_entry, subscribe_tokens, dropped, differed, fresh_node,
}
use jansan.Client.Life.Keeps.{Moved, deliver-IfSome, on_report-IfSome}
use jansan.Client.Life.{
  IfSome, Action, subscribes, un_subscribes, differs, orders, modifies, quotes, reports, act, live,
  live-IfSome,
}
use jansan.Client.Reports.{Report, to_manual}

module _ (m : Machine) where
  -- No order is noted in `ManualOrderStore`, and the last tag was not one of a manual order.
  pub record IsUnnoted (c : AutoClient m.hub) : Type 0 where
    pub below : BelowManual c.current
    pub empty : c.manual_order_store ≡ []

  to_manual-IsUnnoted :
      (report : Report) (d : AutoClient m.hub) → IsUnnoted d → IsUnnoted (to_manual m report d)
  unfolding to_manual
  to_manual-IsUnnoted report d h =
      let not_manual : leb_ℤ (pos 999) d.current.pf_num ≡ false = ground (arith, h.below) in
      rw not_manual h

  IsUnnoted-Moved : Moved m IsUnnoted
  IsUnnoted-Moved cls fill n c h = record { below = h.below; empty = h.empty }

  -- The two fields that count.
  abbrev Alike : AutoClient m.hub → AutoClient m.hub → Type 0
  Alike c d = (d.current ≡ c.current) × (d.manual_order_store ≡ c.manual_order_store)

  Alike-IsUnnoted : (c d : AutoClient m.hub) → Alike c d → IsUnnoted c → IsUnnoted d
  Alike-IsUnnoted c d (now, store) h = record {
    below = subst BelowManual (sym now) h.below;
    empty = store ∙ h.empty;
  }

  tokens-Alike :
      (t : ℤ) (c d : AutoClient m.hub) → Alike c d → Alike c (subscribe_token_on_false t d)
  unfolding subscribe_token_on_false
  tokens-Alike t c d h = if_intro (Alike c) (or_new false (lookup t d.sub_status)) (λ _. h) λ _. h

  with_entry-Alike :
      (p : FoPair) (c : AutoClient m.hub) (o : Option Node) → Alike c (with_entry m p c o)
  with_entry-Alike p c none = (refl, refl)
  with_entry-Alike p c (some node) = (refl, refl)

  subscribe_tokens-Alike :
      (p : FoPair) (c d : AutoClient m.hub) → Alike c d → Alike c (subscribe_tokens m p d)
  subscribe_tokens-Alike p c d h =
      let far = subscribe_token_on_false p.token_far d in
      tokens-Alike p.token_three c (subscribe_token_on_false p.token_near far)
        (tokens-Alike p.token_near c far (tokens-Alike p.token_far c d h))

  handle_subscription-Alike :
      (p : FoPair) (c : AutoClient m.hub) → Alike c (handle_subscription m p c)
  unfolding handle_subscription open_portfolio wire
  handle_subscription-Alike p c =
      let opened_ = open_portfolio m p c in
      let node =
        or_new (fresh_node m opened_.next_address) (lookup p.portfolio_name opened_.stg_class) in
      if_intro (Alike c) (leb_ℤ p.portfolio_name (pos 0)) (λ _. (refl, refl))
        λ _.
          subscribe_tokens-Alike p c (wire m p node opened_)
            (with_entry-Alike p c (lookup p.portfolio_name c.stg_class))

  dropped-Alike : (pf : ℤ) (c : AutoClient m.hub) (o : Option Node) → Alike c (dropped pf c o)
  dropped-Alike pf c none = (refl, refl)
  dropped-Alike pf c (some node) = (refl, refl)

  differed-Alike :
      (d : FoPairDiff) (c : AutoClient m.hub) (o : Option Node) → Alike c (differed m d c o)
  differed-Alike d c none = (refl, refl)
  differed-Alike d c (some node) = (refl, refl)

  modified-Alike :
      (o : OmRequestTr) (c : AutoClient m.hub) (known : Option OmRequestTr)
      → Alike c (modified o c known)
  modified-Alike o c none = (refl, refl)
  modified-Alike o c (some known) = (refl, refl)

  act-IsUnnoted : (a : Action) (c : AutoClient m.hub) → IsUnnoted c → IfSome IsUnnoted (act m a c)
  unfolding act handle_un_subscription handle_difference manual_order_entry
      manual_order_mod_cncl_entry
  act-IsUnnoted (subscribes p) c h =
      Alike-IsUnnoted c (handle_subscription m p c) (handle_subscription-Alike p c) h
  act-IsUnnoted (un_subscribes p) c h =
      let o = lookup p.portfolio_name c.stg_class in
      Alike-IsUnnoted c (dropped p.portfolio_name c o) (dropped-Alike p.portfolio_name c o) h
  act-IsUnnoted (differs d) c h =
      let o = lookup d.portfolio_name c.stg_class in
      Alike-IsUnnoted c (differed m d c o) (differed-Alike d c o) h
  act-IsUnnoted (orders o) c h = record { below = h.below; empty = h.empty }
  act-IsUnnoted (modifies o) c h =
      let known = lookup o.order_number c.manual_order_store in
      Alike-IsUnnoted c (modified o c known) (modified-Alike o c known) h
  act-IsUnnoted (quotes fp) c h = deliver-IfSome m IsUnnoted IsUnnoted-Moved fp c h
  act-IsUnnoted (reports tag report) c h =
      on_report-IfSome m IsUnnoted IsUnnoted-Moved tag report c
        (record { below = decode_pf_num tag c.current h.below; empty = h.empty })
        (to_manual-IsUnnoted report)

  abbrev Ignores : AutoClient m.hub → Type 0
  Ignores d = (o : OmRequestTr) → manual_order_mod_cncl_entry o d ≡ d

  unnoted-Ignores : (d : AutoClient m.hub) → IsUnnoted d → Ignores d
  unfolding manual_order_mod_cncl_entry lookup
  unnoted-Ignores d h o = ap (λ x. modified o d (lookup o.order_number x)) h.empty

  -- A client that starts with no manual order noted, and has read no tag of a manual order, ignores
  -- every modification and every cancellation of a manual order, whatever happened before: the answers
  -- that would note an order are never recognised, since their portfolio number 999 is not read out of
  -- a tag.
  pub live-Ignores :
      (later : List Action) (c d : AutoClient m.hub)
      → IsUnnoted c
      → live m later c ≡ some d
      → (o : OmRequestTr) → manual_order_mod_cncl_entry o d ≡ d
  live-Ignores later c d h done =
      unnoted-Ignores d
        (subst (IfSome IsUnnoted) done (live-IfSome m IsUnnoted act-IsUnnoted later c h))
