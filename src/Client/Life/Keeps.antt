-- ===== src/Client/Life/Keeps.antt =====
-- What a price and an answer of the exchange leave as it was in an AutoClient
-- (OrderServer-20151216-AtHome, src/AutoClient.cpp): for a predicate that does not look at the
-- strategies and the queues.
use jansan.Common.{ℕ, Option, none, some, List, [], ◌∷◌, ℤ, ◌=?ℤ◌, if_intro}
use jansan.Common.Maps.{assign}
use jansan.Messages.{FinalPrice}
use jansan.Queue.{FillData}
use jansan.Tag.{e_order}
use jansan.Strategy.{World}
use jansan.Strategy.Quote.{on_data}
use jansan.Strategy.Events.{Event, step}
use jansan.Client.{Machine, Node, AutoClient}
use jansan.Client.Tags.{decode}
use jansan.Client.Prices.{deliver, call_slots, entry_at, handed, and_on, write_at}
use jansan.Client.Reports.{
  Report, event_of, stepped, entry, opened, hand_over, to_manual, to_strategy, finish, on_report,
}
use jansan.Client.Life.{IfSome, client_of}

module _ (m : Machine) where
  abbrev pub Moved : (AutoClient m.hub → Type 0) → Type 0
  Moved P =
      (cls : List (ℤ × Node)) (fill : FillData) (n : ℕ) (c : AutoClient m.hub)
      → P c
      → P (record c { stg_class = cls; fill = fill; next_address = n })

  module _ (P : AutoClient m.hub → Type 0) (moved : Moved P) where
    handed-IfSome :
        (fp : FinalPrice) (a : ℕ) (c : AutoClient m.hub) (o : Option Node)
        → P c
        → IfSome P (handed fp a c o)
    handed-IfSome fp a c none h = tt
    handed-IfSome fp a c (some node) h =
        let w : World = on_data fp (record { stg = node.stg; fill = c.fill }) in
        moved (write_at a w.stg c.stg_class) w.fill c.next_address c h

    call_slots-IfSome :
        (fp : FinalPrice) (ss : List (ℕ × ℕ)) (c : AutoClient m.hub)
        → P c
        → IfSome P (call_slots fp ss c)
    unfolding call_slots
    call_slots-IfSome fp [] c h = h
    call_slots-IfSome fp ((conn, a) ∷ ss) c h =
        on_rest (handed fp a c (entry_at a c.stg_class))
          (handed-IfSome fp a c (entry_at a c.stg_class) h) (call_slots-IfSome fp ss)
      where
        on_rest :
            (o : Option (AutoClient m.hub))
            → IfSome P o
            → ((d : AutoClient m.hub) → P d → IfSome P (call_slots fp ss d))
            → IfSome P (and_on (call_slots fp ss) o)
        on_rest none h rest = tt
        on_rest (some d) h rest = rest d h

    stepped-IfSome :
        (pf : ℤ) (node : Node) (n : ℕ) (c : AutoClient m.hub) (o : Option World)
        → P c
        → IfSome P (stepped m pf node (record c { next_address = n }) o)
    stepped-IfSome pf node n c none h = tt
    stepped-IfSome pf node n c (some w) h =
        moved (assign pf (record node { stg = w.stg }) c.stg_class) w.fill n c h

    hand_over-IfSome :
        (o : Option Event) (pf : ℤ) (c : AutoClient m.hub) → P c → IfSome P (hand_over m o pf c)
    hand_over-IfSome none pf c h = h
    hand_over-IfSome (some e) pf c h =
        stepped-IfSome pf (entry m pf c) (opened m pf c).next_address c
          (step m.hit e (record { stg = (entry m pf c).stg; fill = c.fill })) h

    -- A price keeps what does not look at the strategies and the queues.
    pub deliver-IfSome : (fp : FinalPrice) (c : AutoClient m.hub) → P c → IfSome P (deliver fp c)
    unfolding deliver
    deliver-IfSome fp c h = call_slots-IfSome fp (m.hub.slots fp.token c.data_pack) c h

    -- So does an answer, if reading its tag and noting a manual order keep it.
    pub on_report-IfSome :
        (tag : ℤ) (report : Report) (c : AutoClient m.hub)
        → P (record c { current = decode tag c.current })
        → ((d : AutoClient m.hub) → P d → P (to_manual m report d))
        → IfSome P (client_of m (on_report m tag report c))
    unfolding on_report to_strategy
    on_report-IfSome tag report c h notes =
        let read : AutoClient m.hub = record c { current = decode tag c.current } in
        if_intro (λ o. IfSome P (client_of m (finish m report o)))
          (read.current.msg_type =?ℤ e_order)
          (λ _.
            finished (hand_over m (event_of report) read.current.pf_num read)
              (hand_over-IfSome (event_of report) read.current.pf_num read h))
          λ _. notes read h
      where
        finished :
            (o : Option (AutoClient m.hub))
            → IfSome P o
            → IfSome P (client_of m (finish m report o))
        finished none h = tt
        finished (some d) h = notes d h
