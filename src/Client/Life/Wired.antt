-- ===== src/Client/Life/Wired.antt =====
-- Whether a price reaches only strategies that are there, in the life of an AutoClient
-- (OrderServer-20151216-AtHome, src/AutoClient.cpp).
use jansan.Common.{ℕ, ◌≡◌, refl, sym, subst, Option, none, some, List, [], ◌∷◌, ℤ, ◌=?ℤ◌, if_intro}
use jansan.Common.Maps.{assign}
use jansan.Messages.{FinalPrice}
use jansan.Tag.{e_order}
use jansan.Strategy.{World}
use jansan.Strategy.Quote.{on_data}
use jansan.Strategy.Events.{Event, step}
use jansan.Client.{Machine, Node, AutoClient}
use jansan.Client.Tags.{decode}
use jansan.Client.Pairs.{fresh_node}
use jansan.Client.Prices.{call_slots, entry_at, write_at}
use jansan.Client.Prices.Slots.{
  Each, Each-map, Owner, Onto, Owner-Onto, Onto-refl, Onto-assign, Onto-write_at, entry_at-some,
}
use jansan.Client.Reports.{
  Report, event_of, stepped, entry, opened, hand_over, to_manual, to_strategy, finish, on_report,
}
use jansan.Client.Reports.Steps.{to_manual-Same}
use jansan.Client.Life.{IfSome, client_of}

module _ (m : Machine) where
  -- The slots of every signal have their owners.
  abbrev pub IsWired : AutoClient m.hub → Type 0
  IsWired c = (j : ℤ) → Each (Owner c.stg_class) (m.hub.slots j c.data_pack)

  pub Onto-IsWired :
      (c d : AutoClient m.hub)
      → Onto c.stg_class d.stg_class
      → d.data_pack ≡ c.data_pack
      → IsWired c
      → IsWired d
  Onto-IsWired c d onto hub w j =
      subst (λ x. Each (Owner d.stg_class) (m.hub.slots j x)) (sym hub)
        (Each-map (Owner c.stg_class) (Owner d.stg_class) (Owner-Onto c.stg_class d.stg_class onto)
          (m.hub.slots j c.data_pack) (w j))

  -- The client after a price.
  pub record Priced (fp : FinalPrice) (ss : List (ℕ × ℕ)) (c : AutoClient m.hub) : Type 0 where
    pub after : AutoClient m.hub
    pub called : call_slots fp ss c ≡ some after
    pub wired : IsWired after

  call_slots-Priced :
      (fp : FinalPrice) (ss : List (ℕ × ℕ)) (c : AutoClient m.hub)
      → Each (Owner c.stg_class) ss
      → IsWired c
      → Priced fp ss c
  unfolding call_slots
  call_slots-Priced fp [] c owners w = record { after = c; called = refl; wired = w }
  call_slots-Priced fp ((conn, a) ∷ ss) c (o, owners) w =
      let found = entry_at-some o.pf o.node c.stg_class o.there in
      let node : Node = found.0 in
      let there = subst (λ x. entry_at x c.stg_class ≡ some node) o.address found.1 in
      let q : World = on_data fp (record { stg = node.stg; fill = c.fill }) in
      let d : AutoClient m.hub = record c {
        stg_class = write_at a q.stg c.stg_class;
        fill = q.fill;
      } in
      let onto = Onto-write_at a q.stg c.stg_class in
      let rest =
        call_slots-Priced fp ss d
          (Each-map (Owner c.stg_class) (Owner d.stg_class)
            (Owner-Onto c.stg_class d.stg_class onto) ss owners)
          (Onto-IsWired c d onto refl w) in
      record { after = rest.after; called = rw there rest.called; wired = rest.wired }

  pub deliver-Priced :
      (fp : FinalPrice) (c : AutoClient m.hub)
      → IsWired c
      → Priced fp (m.hub.slots fp.token c.data_pack) c
  deliver-Priced fp c w = call_slots-Priced fp (m.hub.slots fp.token c.data_pack) c (w fp.token) w

  stepped-IsWired :
      (pf : ℤ) (n : ℕ) (c : AutoClient m.hub) (o : Option World)
      → IsWired c
      → IfSome IsWired (stepped m pf (entry m pf c) (record c { next_address = n }) o)
  stepped-IsWired pf n c none w = tt
  stepped-IsWired pf n c (some x) w =
      Onto-IsWired c
        (record c {
          next_address = n;
          stg_class = assign pf (record (entry m pf c) { stg = x.stg }) c.stg_class;
          fill = x.fill;
        })
        (Onto-assign pf (fresh_node m c.next_address) x.stg c.stg_class) refl w

  hand_over-IsWired :
      (o : Option Event) (pf : ℤ) (c : AutoClient m.hub)
      → IsWired c
      → IfSome IsWired (hand_over m o pf c)
  hand_over-IsWired none pf c w = w
  hand_over-IsWired (some e) pf c w =
      stepped-IsWired pf (opened m pf c).next_address c
        (step m.hit e (record { stg = (entry m pf c).stg; fill = c.fill })) w

  to_manual-IsWired :
      (report : Report) (c : AutoClient m.hub) → IsWired c → IsWired (to_manual m report c)
  to_manual-IsWired report c w =
      let same = to_manual-Same m report c in
      Onto-IsWired c (to_manual m report c)
        (subst (Onto c.stg_class) (sym same.0) (Onto-refl c.stg_class)) same.2 w

  pub on_report-IsWired :
      (tag : ℤ) (report : Report) (c : AutoClient m.hub)
      → IsWired c
      → IfSome IsWired (client_of m (on_report m tag report c))
  unfolding on_report to_strategy
  on_report-IsWired tag report c w =
      let read : AutoClient m.hub = record c { current = decode tag c.current } in
      if_intro (λ o. IfSome IsWired (client_of m (finish m report o)))
        (read.current.msg_type =?ℤ e_order)
        (λ _.
          finished (hand_over m (event_of report) read.current.pf_num read)
            (hand_over-IsWired (event_of report) read.current.pf_num read w))
        λ _. to_manual-IsWired report read w
    where
      finished :
          (o : Option (AutoClient m.hub))
          → IfSome IsWired o
          → IfSome IsWired (client_of m (finish m report o))
      finished none h = tt
      finished (some d) h = to_manual-IsWired report d h
