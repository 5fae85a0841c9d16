-- ===== src/Client/Life.antt =====
-- The life of a client: what reaches an AutoClient (OrderServer-20151216-AtHome, src/AutoClient.cpp)
-- from its user, from the market and from the exchange, one thing after the other.
pub mod Keeps
pub mod Unnoted
pub mod Calls
pub mod Subscribed
pub mod Asked
pub mod Turned
pub mod Silent
pub mod Wired
pub mod Rewired
pub mod Reached
use jansan.Common.{Option, none, some, List, [], ◌∷◌, ℤ}
use jansan.Messages.{FinalPrice, FoPair, FoPairDiff, OeRequestTr, OmRequestTr}
use jansan.Client.{Hub, Machine, AutoClient}
use jansan.Client.Pairs.{handle_subscription, handle_un_subscription, handle_difference}
use jansan.Client.Manual.{manual_order_entry, manual_order_mod_cncl_entry}
use jansan.Client.Prices.{deliver}
use jansan.Client.Reports.{Report, Packet, on_report}

pub data Action : Type 0 where
  subscribes : FoPair → Action
  un_subscribes : FoPair → Action
  differs : FoPairDiff → Action
  orders : OeRequestTr → Action
  modifies : OmRequestTr → Action
  quotes : FinalPrice → Action
  reports : ℤ → Report → Action

module _ (m : Machine) where
  abbrev pub client_of : Option (AutoClient m.hub × List Packet) → Option (AutoClient m.hub)
  client_of none = none
  client_of (some (c, ps)) = some c

  -- `none` once the program has stopped, or has called a strategy that is gone.
  unfoldable pub act : Action → AutoClient m.hub → Option (AutoClient m.hub)
  act (subscribes p) c = some (handle_subscription m p c)
  act (un_subscribes p) c = some (handle_un_subscription p c)
  act (differs d) c = some (handle_difference m d c)
  act (orders o) c = some (manual_order_entry m o c)
  act (modifies o) c = some (manual_order_mod_cncl_entry o c)
  act (quotes fp) c = deliver fp c
  act (reports tag report) c = client_of (on_report m tag report c)

  abbrev pub then_live :
      (AutoClient m.hub → Option (AutoClient m.hub))
      → Option (AutoClient m.hub)
      → Option (AutoClient m.hub)
  then_live k none = none
  then_live k (some c) = k c

  unfoldable pub live : List Action → AutoClient m.hub → Option (AutoClient m.hub)
  live [] c = some c
  live (a ∷ later) c = then_live (live later) (act a c)

-- What holds of a client, if there is one.
abbrev pub IfSome : {h : Hub} → (AutoClient h → Type 0) → Option (AutoClient h) → Type 0
IfSome P none = Unit {0}
IfSome P (some c) = P c

-- A predicate that every action keeps holds at the end of a life.
pub live-IfSome :
    (m : Machine) (P : AutoClient m.hub → Type 0)
    → ((a : Action) (c : AutoClient m.hub) → P c → IfSome P (act m a c))
    → (later : List Action) (c : AutoClient m.hub) → P c
    → IfSome P (live m later c)
unfolding live
live-IfSome m P keeps [] c h = h
live-IfSome m P keeps (a ∷ later) c h =
    after (act m a c) (keeps a c h) (live-IfSome m P keeps later)
  where
    after :
        (o : Option (AutoClient m.hub))
        → IfSome P o
        → ((d : AutoClient m.hub) → P d → IfSome P (live m later d))
        → IfSome P (then_live m (live m later) o)
    after none h rest = tt
    after (some d) h rest = rest d h
