-- ===== src/Handler/History.antt =====
-- The history of ClientHandler (OrderServer-20151216-AtHome/src/ClientHandler.cpp): the packets of the
-- front ends, and what the market and the exchange send to its clients in between, in their order.
use jansan.Common.{
  ◌≡◌, refl, sym, ◌∙◌, ap, subst, arith, false, Option, none, some, List, [], ◌∷◌, ℤ, pos, ltb_ℤ,
  if_intro,
}
use jansan.Common.Maps.{lookup, assign, or_new}
use jansan.Client.{Machine, AutoClient}
use jansan.Client.Life.{IfSome, Action, act}
use jansan.Client.Life.Calls.{replay}
use jansan.Client.Life.Subscribed.{IsKept}
use jansan.Handler.Kept.{All, AllOf, working-IsKept, assign-All, acts, dispatch-All}
use jansan.Handler.{Server, Request, Sent, working}
use jansan.Handler.Receive.{dispatch, replied, recieve}

module _ (m : Machine) (blank : AutoClient m.hub) (signals : m.hub.Signals) where
  -- What happens to the server: a packet of a front end, or something that reaches one of its clients.
  pub data Happening : Type 0 where
    recieves : Request → Happening
    reaches : ℤ → Action → Happening

  abbrev served : Option (Server m × List Sent) → Option (Server m)
  served none = none
  served (some (s, sent)) = some s

  abbrev acted : ℤ → Server m → Option (AutoClient m.hub) → Option (Server m)
  acted cid s none = none
  acted cid s (some c) = some (record s { stg_map = assign cid c s.stg_map; fill = c.fill })

  abbrev reached : ℤ → Action → Server m → Option (AutoClient m.hub) → Option (Server m)
  reached cid a s none = some s
  reached cid a s (some c) = acted cid s (act m a (working m s c))

  unfoldable pub happen : Happening → Server m → Option (Server m)
  happen (recieves r) s = served (recieve m blank signals r s)
  happen (reaches cid a) s = reached cid a s (lookup cid s.stg_map)

  abbrev then_happen : (Server m → Option (Server m)) → Option (Server m) → Option (Server m)
  then_happen k none = none
  then_happen k (some s) = k s

  -- `none` once the program has done something undefined, or has stopped.
  unfoldable pub history : List Happening → Server m → Option (Server m)
  history [] s = some s
  history (x ∷ later) s = then_happen (history later) (happen x s)

  abbrev IfAll : Option (Server m) → Type 0
  IfAll none = Unit {0}
  IfAll (some s) = (All m blank signals) s

  replied-All :
      (r : Request) (x : Server m × List Sent)
      → (AllOf m blank signals) x
      → IfAll (served (some (replied m r x)))
  replied-All r (s, sent) all = all

  recieve-All :
      (r : Request) (s : Server m)
      → (All m blank signals) s
      → IfAll (served (recieve m blank signals r s))
  unfolding recieve
  recieve-All r s all =
      if_intro (λ x. IfAll (served x)) (ltb_ℤ r.size (pos 1)) (λ _. all)
        λ _.
          if_intro (λ x. IfAll (served x)) (ltb_ℤ r.size (pos 6)) (λ _. tt)
            λ _.
              if_intro (λ x. IfAll (served x)) (ltb_ℤ (pos 1024) r.size) (λ _. tt)
                λ _.
                  replied-All r (dispatch m blank signals r s)
                    (dispatch-All m blank signals r s all)

  acted-All :
      (cid : ℤ) (s : Server m) (o : Option (AutoClient m.hub))
      → IfSome IsKept o
      → (All m blank signals) s
      → IfAll (acted cid s o)
  acted-All cid s none k all = tt
  acted-All cid s (some c) k all =
      assign-All m blank signals cid c s
        (record s { stg_map = assign cid c s.stg_map; fill = c.fill }) refl k all

  reached-All :
      (cid : ℤ) (a : Action) (s : Server m) (o : Option (AutoClient m.hub))
      → lookup cid s.stg_map ≡ o
      → (All m blank signals) s
      → IfAll (reached cid a s o)
  reached-All cid a s none gone all = all
  reached-All cid a s (some c) there all =
      acted-All cid s (act m a (working m s c))
        (acts m blank signals a (working m s c)
          (working-IsKept m blank signals s c (all cid c there)))
        all

  happen-All : (x : Happening) (s : Server m) → (All m blank signals) s → IfAll (happen x s)
  unfolding happen
  happen-All (recieves r) s all = recieve-All r s all
  happen-All (reaches cid a) s all = reached-All cid a s (lookup cid s.stg_map) refl all

  history-All :
      (later : List Happening) (s : Server m) → (All m blank signals) s → IfAll (history later s)
  unfolding history
  history-All [] s all = all
  history-All (x ∷ later) s all = after (happen x s) (happen-All x s all) (history-All later)
    where
      after :
          (o : Option (Server m))
          → IfAll o
          → ((d : Server m) → (All m blank signals) d → IfAll (history later d))
          → IfAll (then_happen (history later) o)
      after none h rest = tt
      after (some d) h rest = rest d h

  none_yet : (s : Server m) → s.stg_map ≡ [] → (All m blank signals) s
  unfolding lookup
  none_yet s empty q c there = absurd (gone (sym (ap (lookup q) empty) ∙ there))
    where
      gone : {x : AutoClient m.hub} → ¬ (none ≡ some x)
      gone e = ground (arith, e)

  -- Of a server that starts without clients, each client that it has at any later time has asked the
  -- data socket in turns: of each token, a subscription, an unsubscription, and so on; and its
  -- `SubStatus` says which was the last.
  pub history-replay :
      (later : List Happening) (s s' : Server m)
      → s.stg_map ≡ []
      → history later s ≡ some s'
      → (cid : ℤ) (c : AutoClient m.hub) → lookup cid s'.stg_map ≡ some c
      → (t : ℤ) → replay t c.calls false ≡ some (or_new false (lookup t c.sub_status))
  history-replay later s s' empty done cid c there t =
      ((subst IfAll done (history-All later s (none_yet s empty))) cid c there).told t
