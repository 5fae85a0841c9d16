-- ===== src/Client/Reports.antt =====
-- The loop of AutoClient::Eventsubscriber (OrderServer-20151216-AtHome/src/AutoClient.cpp), with the
-- answers to manual orders, ORDER_CONFIRMATION_TR and ORDER_MOD_CONFIRMATION_TR.
pub mod Steps
use jansan.Common.{
  ℕ, ◌+◌, Bool, true, false, Option, none, some, List, [], ◌∷◌, ◌++◌, ℤ, pos, ◌=?ℤ◌, leb_ℤ,
  if◌then◌else◌,
}
use jansan.Common.Maps.{lookup, assign, or_new}
use jansan.Common.Words.{htons, htonl}
use jansan.Messages.{OmRequestTr, OeRequestTr, OeResponseTr, OeRequest, TradeConfirmTr, zero_om}
use jansan.Tag.{e_order}
use jansan.Strategy.{World}
use jansan.Strategy.Events.{Event, step}
use jansan.Strategy.Events as Events
use jansan.Client.{Hub, Machine, Node, AutoClient}
use jansan.Client.Tags.{Address, decode}
use jansan.Client.Packs.{return_modification_pack}
use jansan.Client.Pairs.{fresh_node}

-- The answers, by their transaction codes: 20073, 20074, 20075, 20222, 2072, 2042, 2231, and any other.
-- With 20075 stands what the handler's local object holds before.
pub data Report : Type 0 where
  confirmation : OeResponseTr → Report
  mod_confirmation : OeResponseTr → Report
  cxl_confirmation : OeRequestTr → OeResponseTr → Report
  trade_confirmation : TradeConfirmTr → Report
  cxl_rej : OeRequest → Report
  mod_rej : OeRequest → Report
  error : OeRequest → Report
  unknown : Report

-- The handler that an answer is given to.
abbrev pub event_of : Report → Option Event
event_of (confirmation r) = some (Events.Event.confirms r)
event_of (mod_confirmation r) = some (Events.Event.mod_confirms r)
event_of (cxl_confirmation stack r) = some (Events.Event.cxl_confirms stack r)
event_of (trade_confirmation t) = some (Events.Event.trades t)
event_of (cxl_rej q) = some (Events.Event.cxl_rejects q)
event_of (mod_rej q) = some (Events.Event.mod_rejects q)
event_of (error q) = some (Events.Event.errors q)
event_of unknown = none

-- ORDER_CONFIRMATION_TR and ORDER_MOD_CONFIRMATION_TR copy these fields.
abbrev confirmed : OeResponseTr → OmRequestTr → OmRequestTr
confirmed r o = record o {
  order_number = r.order_number;
  disclosed_volume = r.disclosed_volume;
  disclosed_volume_remaining = r.disclosed_volume_remaining;
  total_volume_remaining = r.total_volume_remaining;
  volume = r.volume;
  volume_filled_today = r.volume_filled_today;
  price = r.price;
  entry_date_time = r.entry_date_time;
  last_modified = r.last_modified;
  filler = r.filler;
  buy_sell_indicator = r.buy_sell_indicator;
}

-- What SendClientPacket gives to the client's front end: the numbers that were read, and the answer.
abbrev pub Packet : Type 0
Packet = ℤ × ℤ × Report

module _ (m : Machine) where
  unfoldable pub order_confirmation_tr : OeResponseTr → AutoClient m.hub → AutoClient m.hub
  order_confirmation_tr r c =
      let pack = return_modification_pack m (htonl r.token_no) (htons r.buy_sell_indicator) c in
      record c {
        manual_order_store = assign r.order_number (confirmed r pack) c.manual_order_store;
      }

  unfoldable pub order_mod_confirmation_tr : OeResponseTr → AutoClient m.hub → AutoClient m.hub
  order_mod_confirmation_tr r c =
      let old = or_new zero_om (lookup r.order_number c.manual_order_store) in
      record c { manual_order_store = assign r.order_number (confirmed r old) c.manual_order_store }

  abbrev pub stepped : ℤ → Node → AutoClient m.hub → Option World → Option (AutoClient m.hub)
  stepped pf node c none = none
  stepped pf node c (some w) =
      some (record c {
        stg_class = assign pf (record node { stg = w.stg }) c.stg_class;
        fill = w.fill;
      })

  -- `_StgClass[PFNum].…`, which makes the entry that is not there.
  abbrev pub entry : ℤ → AutoClient m.hub → Node
  entry pf c = or_new (fresh_node m c.next_address) (lookup pf c.stg_class)

  abbrev next_free : Option Node → ℕ → ℕ
  next_free none n = n + 1
  next_free (some node) n = n

  abbrev pub opened : ℤ → AutoClient m.hub → AutoClient m.hub
  opened pf c = record c { next_address = next_free (lookup pf c.stg_class) c.next_address }

  abbrev pub hand_over : Option Event → ℤ → AutoClient m.hub → Option (AutoClient m.hub)
  hand_over none pf c = some c
  hand_over (some e) pf c =
      stepped pf (entry pf c) (opened pf c)
        (step m.hit e (record { stg = (entry pf c).stg; fill = c.fill }))

  abbrev pub manual : Report → AutoClient m.hub → AutoClient m.hub
  manual (confirmation r) c = order_confirmation_tr r c
  manual (mod_confirmation r) c = order_mod_confirmation_tr r c
  manual _ c = c

  unfoldable pub to_manual : Report → AutoClient m.hub → AutoClient m.hub
  to_manual report c =
      if leb_ℤ (pos 999) c.current.pf_num
      then (if c.current.msg_type =?ℤ e_order then manual report c else c)
      else c

  unfoldable pub to_strategy : Report → AutoClient m.hub → Option (AutoClient m.hub)
  to_strategy report c =
      if c.current.msg_type =?ℤ e_order
      then hand_over (event_of report) c.current.pf_num c
      else some c

  abbrev pub packet_of : Report → AutoClient m.hub → Packet
  packet_of report c = (c.current.cid, c.current.pf_num, report)

  abbrev pub finish : Report → Option (AutoClient m.hub) → Option (AutoClient m.hub × List Packet)
  finish report none = none
  finish report (some c) = some (to_manual report c, packet_of report c ∷ [])

  -- One round; `none` is a division by zero in a handler.
  unfoldable pub on_report : ℤ → Report → AutoClient m.hub → Option (AutoClient m.hub × List Packet)
  on_report tag report c =
      finish report (to_strategy report (record c { current = decode tag c.current }))

  abbrev then_run :
      (AutoClient m.hub → Option (AutoClient m.hub × List Packet))
      → Option (AutoClient m.hub × List Packet)
      → Option (AutoClient m.hub × List Packet)
  then_run k none = none
  then_run k (some (c, ps)) = elim (k c) [ none ↦ none | some (d, qs) ↦ some (d, ps ++ qs) ]

  unfoldable pub run_reports :
      List (ℤ × Report) → AutoClient m.hub → Option (AutoClient m.hub × List Packet)
  run_reports [] c = some (c, [])
  run_reports ((tag, report) ∷ rs) c = then_run (run_reports rs) (on_report tag report c)
