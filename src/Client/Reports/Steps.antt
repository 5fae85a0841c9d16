-- ===== src/Client/Reports/Steps.antt =====
-- Which strategy an answer reaches in AutoClient::Eventsubscriber
-- (OrderServer-20151216-AtHome/src/AutoClient.cpp).
use jansan.Common.{
  ℕ, ◌<◌, ◌≤◌, ◌≡◌, refl, ◌∙◌, ap, false, none, some, [], ◌∷◌, ℤ, pos, ◌=?ℤ◌, =?ℤ_refl, leb_ℤ,
  if_intro,
}
use jansan.Common.Maps.{lookup, assign, lookup-assign}
use jansan.Common.Words.{word}
use jansan.Messages.{TradeConfirmTr}
use jansan.Tag.{e_order, subscription_tag}
use jansan.Strategy.{World, construct}
use jansan.Strategy.Events.{Event, step}
use jansan.Strategy.Trade.{trade_confirmation_tr}
use jansan.Client.{Machine, AutoClient}
use jansan.Client.Tags.{decode}
use jansan.Client.Tags.Decode.{address, decode-subscription_tag}
use jansan.Client.Pairs.{fresh_node}
use jansan.Client.Reports.{
  Report, confirmation, mod_confirmation, cxl_confirmation, trade_confirmation, cxl_rej, mod_rej,
  error, unknown, event_of, entry, opened, manual, to_manual, to_strategy, finish, on_report,
  order_confirmation_tr, order_mod_confirmation_tr,
}

module _ (m : Machine) where
  -- The world of the strategy of a portfolio.
  abbrev pub world_of : ℤ → AutoClient m.hub → World
  world_of pf c = record { stg = (entry m pf c).stg; fill = c.fill }

  -- The client after the strategy of a portfolio, and only it, has come to a world.
  pub record Moves (pf : ℤ) (w : World) (c d : AutoClient m.hub) : Type 0 where
    pub moved : lookup pf d.stg_class ≡ some (record (entry m pf c) { stg = w.stg })
    pub queues : d.fill ≡ w.fill
    pub others : (q : ℤ) → (pf =?ℤ q) ≡ false → lookup q d.stg_class ≡ lookup q c.stg_class
    pub wiring : d.data_pack ≡ c.data_pack

  abbrev pub Same : AutoClient m.hub → AutoClient m.hub → Type 0
  Same d d' = (d'.stg_class ≡ d.stg_class) × (d'.fill ≡ d.fill) × (d'.data_pack ≡ d.data_pack)

  manual-Same : (report : Report) (d : AutoClient m.hub) → Same d (manual m report d)
  unfolding order_confirmation_tr order_mod_confirmation_tr
  manual-Same (confirmation r) d = (refl, refl, refl)
  manual-Same (mod_confirmation r) d = (refl, refl, refl)
  manual-Same (cxl_confirmation stack r) d = (refl, refl, refl)
  manual-Same (trade_confirmation t) d = (refl, refl, refl)
  manual-Same (cxl_rej q) d = (refl, refl, refl)
  manual-Same (mod_rej q) d = (refl, refl, refl)
  manual-Same (error q) d = (refl, refl, refl)
  manual-Same unknown d = (refl, refl, refl)

  pub to_manual-Same : (report : Report) (d : AutoClient m.hub) → Same d (to_manual m report d)
  unfolding to_manual
  to_manual-Same report d =
      if_intro (Same d) (leb_ℤ (pos 999) d.current.pf_num)
        (λ _.
          if_intro (Same d) (d.current.msg_type =?ℤ e_order) (λ _. manual-Same report d)
            λ _. (refl, refl, refl))
        λ _. (refl, refl, refl)

  Moves-Same :
      (pf : ℤ) (w : World) (c d d' : AutoClient m.hub)
      → Moves pf w c d
      → Same d d'
      → Moves pf w c d'
  Moves-Same pf w c d d' h (cls, fill, hub) = record {
    moved = ap (lookup pf) cls ∙ h.moved;
    queues = fill ∙ h.queues;
    others = λ q ne. ap (lookup q) cls ∙ h.others q ne;
    wiring = hub ∙ h.wiring;
  }

  stepped-Moves :
      (pf : ℤ) (w : World) (c : AutoClient m.hub) (d : AutoClient m.hub)
      → d.stg_class ≡ c.stg_class
      → d.data_pack ≡ c.data_pack
      → Moves pf w c (record d {
        stg_class = assign pf (record (entry m pf c) { stg = w.stg }) d.stg_class;
        fill = w.fill;
      })
  stepped-Moves pf w c d cls hub = record {
    moved =
        lookup-assign pf pf (record (entry m pf c) { stg = w.stg }) d.stg_class
        ∙ rw (=?ℤ_refl pf) refl;
    queues = refl;
    others = λ q ne.
        lookup-assign pf q (record (entry m pf c) { stg = w.stg }) d.stg_class
        ∙ rw ne (ap (lookup q) cls);
    wiring = hub;
  }

  -- The client has read the numbers of a tag.
  abbrev pub reading : ℤ → AutoClient m.hub → AutoClient m.hub
  reading tag c = record c { current = decode tag c.current }

  -- An answer under the tag of a strategy goes to its handler for that answer, in the strategy of that
  -- portfolio, and to no other: if the handler comes to an end, so does the round, the strategy and the
  -- queues are as the handler left them, no other strategy is changed, and the front end gets the
  -- answer with the client's and the portfolio's number. The client number has three digits, the
  -- portfolio number one or two. A strategy that is not there is made first.
  pub on_report-Moves :
      (cid pf : ℕ) (report : Report) (e : Event) (w : World) (c : AutoClient m.hub)
      → 100 ≤ cid
      → cid < 1000
      → 0 < pf
      → pf < 100
      → event_of report ≡ some e
      → step m.hit e (world_of (pos pf) c) ≡ some w
      → (d : AutoClient m.hub) × (on_report m (subscription_tag (pos cid) (pos pf)) report c
          ≡ some (d, (pos cid, pos pf, report) ∷ []))
        × Moves (pos pf) w c d
  unfolding on_report to_strategy
  on_report-Moves cid pf report e w c lo hi pf_lo pf_hi known done =
      let read : AutoClient m.hub = record c { current = address 65 cid pf } in
      let node = entry m (pos pf) c in
      let open_ = opened m (pos pf) read in
      let d : AutoClient m.hub = record open_ {
        stg_class = assign (pos pf) (record node { stg = w.stg }) open_.stg_class;
        fill = w.fill;
      } in
      (
        to_manual m report d,
        ap (λ a. finish m report (to_strategy m report (record c { current = a })))
              (decode-subscription_tag cid pf c.current lo hi pf_lo pf_hi)
            ∙ rw (known, done) refl,
        Moves-Same (pos pf) w c d (to_manual m report d)
            (stepped-Moves (pos pf) w c open_ refl refl) (to_manual-Same report d),
      )

  -- A fill for a portfolio that has no strategy stops the program: the entry that is made for it has no
  -- board lot, and the handler divides by it.
  pub on_report_stops :
      (cid pf : ℕ) (t : TradeConfirmTr) (c : AutoClient m.hub)
      → 100 ≤ cid
      → cid < 1000
      → 0 < pf
      → pf < 100
      → lookup (pos pf) c.stg_class ≡ none
      → on_report m (subscription_tag (pos cid) (pos pf)) (trade_confirmation t) c ≡ none
  unfolding on_report to_strategy step trade_confirmation_tr fresh_node construct word
  on_report_stops cid pf t c lo hi pf_lo pf_hi gone =
      ap
        (λ a.
          finish m (trade_confirmation t)
            (to_strategy m (trade_confirmation t) (record c { current = a })))
        (decode-subscription_tag cid pf c.current lo hi pf_lo pf_hi)
      ∙ rw gone refl
