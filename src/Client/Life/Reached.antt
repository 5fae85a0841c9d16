-- ===== src/Client/Life/Reached.antt =====
-- Whether a strategy that a price reaches in OrderServer-20151216-AtHome/src/AutoClient.cpp is still
-- there, after subscriptions and unsubscriptions.
use jansan.Common.{◌≡◌, refl, sym, subst, Option, none, some, List, [], ◌∷◌}
use jansan.Common.Maps.{lookup}
use jansan.Messages.{OmRequestTr, FinalPrice}
use jansan.Client.{IsHub, Machine, AutoClient}
use jansan.Client.Pairs.{handle_un_subscription, handle_difference}
use jansan.Client.Manual.{manual_order_entry, manual_order_mod_cncl_entry, modified}
use jansan.Client.Prices.{deliver}
use jansan.Client.Life.{
  IfSome, Action, subscribes, un_subscribes, differs, orders, modifies, quotes, reports, act, live,
  then_live,
}
use jansan.Client.Life.Wired.{IsWired, deliver-Priced, on_report-IsWired}
use jansan.Client.Life.Rewired.{dropped-IsWired, handle_subscription-IsWired, differed-IsWired}

module _ (m : Machine) (laws : IsHub m.hub) where
  modified-IsWired :
      (o : OmRequestTr) (c : AutoClient m.hub) (old : Option OmRequestTr)
      → IsWired m c
      → IsWired m (modified o c old)
  modified-IsWired o c none w = w
  modified-IsWired o c (some old) w = w

  -- A subscription is of a portfolio that is not there.
  abbrev pub IsNew : Action → AutoClient m.hub → Type 0
  IsNew (subscribes p) c = lookup p.portfolio_name c.stg_class ≡ none
  IsNew _ c = Unit {0}

  abbrev AreNewNext : (AutoClient m.hub → Type 0) → Option (AutoClient m.hub) → Type 0
  AreNewNext P none = Unit {0}
  AreNewNext P (some c) = P c

  -- All the subscriptions of a life are.
  abbrev pub AreNew : List Action → AutoClient m.hub → Type 0
  AreNew [] c = Unit {0}
  AreNew (a ∷ later) c = IsNew a c × AreNewNext (AreNew later) (act m a c)

  act-IsWired :
      (a : Action) (c : AutoClient m.hub) → IsNew a c → IsWired m c → IfSome (IsWired m) (act m a c)
  unfolding act handle_un_subscription handle_difference manual_order_entry
      manual_order_mod_cncl_entry deliver
  act-IsWired (subscribes p) c new w = handle_subscription-IsWired m laws p c new w
  act-IsWired (un_subscribes p) c new w =
      dropped-IsWired m laws p.portfolio_name c (lookup p.portfolio_name c.stg_class) refl w
  act-IsWired (differs d) c new w =
      differed-IsWired m laws d c (lookup d.portfolio_name c.stg_class) refl w
  act-IsWired (orders o) c new w = w
  act-IsWired (modifies o) c new w =
      modified-IsWired o c (lookup o.order_number c.manual_order_store) w
  act-IsWired (quotes fp) c new w =
      let priced = deliver-Priced m fp c w in
      subst (IfSome (IsWired m)) (sym priced.called) priced.wired
  act-IsWired (reports tag report) c new w = on_report-IsWired m tag report c w

  live-IsWired :
      (later : List Action) (c : AutoClient m.hub)
      → AreNew later c
      → IsWired m c
      → IfSome (IsWired m) (live m later c)
  unfolding live
  live-IsWired [] c new w = w
  live-IsWired (a ∷ later) c (new, next) w =
      after (act m a c) next (act-IsWired a c new w) (live-IsWired later)
    where
      after :
          (o : Option (AutoClient m.hub))
          → AreNewNext (AreNew later) o
          → IfSome (IsWired m) o
          → ((d : AutoClient m.hub)
              → AreNew later d
              → IsWired m d
              → IfSome (IsWired m) (live m later d))
          → IfSome (IsWired m) (then_live m (live m later) o)
      after none next w rest = tt
      after (some d) next w rest = rest d next w

  -- As long as no portfolio is subscribed again while its strategy is there, every price finds each
  -- strategy that its signal is connected to: no price is handed to an object that has been destroyed.
  -- The client starts with signals that have no slot, or whose slots have their strategies.
  pub live-deliver :
      (later : List Action) (c d : AutoClient m.hub)
      → IsWired m c
      → AreNew later c
      → live m later c ≡ some d
      → (fp : FinalPrice) → (e : AutoClient m.hub) × (deliver fp d ≡ some e)
  unfolding deliver
  live-deliver later c d w new done fp =
      let priced =
        deliver-Priced m fp d (subst (IfSome (IsWired m)) done (live-IsWired later c new w)) in
      (priced.after, priced.called)
