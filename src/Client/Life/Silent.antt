-- ===== src/Client/Life/Silent.antt =====
-- What is left of the subscriptions of an AutoClient (OrderServer-20151216-AtHome, src/AutoClient.cpp)
-- when it is disposed.
use jansan.Common.{
  pos, ◌≡◌, refl, ◌∙◌, ap, subst, false, Option, none, some, List, [], ◌∷◌, ℤ, ◌=?ℤ◌, ◌++◌,
  if◌then◌else◌, if_intro,
}
use jansan.Common.Maps.{lookup, or_new}
use jansan.Client.{
  Hub, Machine, Node, NfToken, SockCall, subscribe_token, un_subscribe_token, AutoClient,
}
use jansan.Client.Pairs.{zero_token, un_subscribe_token_on_true}
use jansan.Client.Stop.{
  touch, stopped_at, stop_strategy, stop_symbol, stop_symbols, stop_all_order, dispose,
}
use jansan.Client.Life.{IfSome, Action, live, live-IfSome}
use jansan.Client.Life.Calls.{replay}
use jansan.Client.Life.Subscribed.{IsKept}
use jansan.Client.Life.Asked.{act-IsKept}
use jansan.Client.Life.Turned.{stop_all_order-Silent, drop_symbols-calls}

-- The calls that are made on one socket.
abbrev pub calls_at : ℤ → List SockCall → List SockCall
calls_at sock [] = []
calls_at sock (subscribe_token s t ∷ cs) =
    let rest = calls_at sock cs in if s =?ℤ sock then subscribe_token s t ∷ rest else rest
calls_at sock (un_subscribe_token s t ∷ cs) =
    let rest = calls_at sock cs in if s =?ℤ sock then un_subscribe_token s t ∷ rest else rest

calls_at-append :
    (sock s t : ℤ) (cs : List SockCall)
    → (s =?ℤ sock) ≡ false
    → calls_at sock (cs ++ un_subscribe_token s t ∷ []) ≡ calls_at sock cs
calls_at-append sock s t [] ne = rw ne refl
calls_at-append sock s t (subscribe_token r x ∷ cs) ne =
    ap (λ rest. if r =?ℤ sock then subscribe_token r x ∷ rest else rest)
      (calls_at-append sock s t cs ne)
calls_at-append sock s t (un_subscribe_token r x ∷ cs) ne =
    ap (λ rest. if r =?ℤ sock then un_subscribe_token r x ∷ rest else rest)
      (calls_at-append sock s t cs ne)

module _ {h : Hub} where
  -- Every call from one client to the next is made on its socket.
  record Elsewhere (c d : AutoClient h) : Type 0 where
    sock : d.datasock ≡ c.datasock
    others : (s : ℤ) → (c.datasock =?ℤ s) ≡ false → calls_at s d.calls ≡ calls_at s c.calls

  Elsewhere-Elsewhere : (c d e : AutoClient h) → Elsewhere c d → Elsewhere d e → Elsewhere c e
  Elsewhere-Elsewhere c d e first second = record {
    sock = second.sock ∙ first.sock;
    others = λ s ne. second.others s (ap (λ x. x =?ℤ s) first.sock ∙ ne) ∙ first.others s ne;
  }

  on_true-Elsewhere : (t : ℤ) (c : AutoClient h) → Elsewhere c (un_subscribe_token_on_true t c)
  unfolding un_subscribe_token_on_true
  on_true-Elsewhere t c =
      if_intro (Elsewhere c) (or_new false (lookup t c.sub_status))
        (λ _. record { sock = refl; others = λ s ne. calls_at-append s c.datasock t c.calls ne })
        λ _. record { sock = refl; others = λ s ne. refl }

  stopped_at-Elsewhere :
      (pf : ℤ) (c : AutoClient h) (o : Option Node) → Elsewhere c (stopped_at pf c o)
  stopped_at-Elsewhere pf c none = record { sock = refl; others = λ s ne. refl }
  stopped_at-Elsewhere pf c (some node) = record { sock = refl; others = λ s ne. refl }

  stop_symbol-Elsewhere : (it : NfToken) (c : AutoClient h) → Elsewhere c (stop_symbol it c)
  unfolding stop_symbol stop_strategy
  stop_symbol-Elsewhere it c =
      let far = touch it.far_token c in
      let pf = (or_new zero_token (lookup it.far_token far.symbol_dictionary)).pf_number in
      let c1 = un_subscribe_token_on_true it.far_token far in
      let c2 = un_subscribe_token_on_true it.near_token c1 in
      let c3 = un_subscribe_token_on_true it.token_three c2 in
      let near = touch it.near_token c3 in
      let last = on_true-Elsewhere it.token_three c2 in
      let stopped = stopped_at-Elsewhere pf near (lookup pf near.stg_class) in
      let to_third =
        Elsewhere-Elsewhere c c2 c3
          (Elsewhere-Elsewhere c c1 c2
            (record {
              sock = (on_true-Elsewhere it.far_token far).sock;
              others = (on_true-Elsewhere it.far_token far).others;
            })
            (on_true-Elsewhere it.near_token c1))
          last in
      Elsewhere-Elsewhere c c3 (stop_strategy pf near) to_third
        (record { sock = stopped.sock; others = stopped.others })

  stop_symbols-Elsewhere :
      (its : List (ℤ × NfToken)) (c : AutoClient h) → Elsewhere c (stop_symbols its c)
  unfolding stop_symbols
  stop_symbols-Elsewhere [] c = record { sock = refl; others = λ s ne. refl }
  stop_symbols-Elsewhere ((k, it) ∷ its) c =
      Elsewhere-Elsewhere c (stop_symbol it c) (stop_symbols its (stop_symbol it c))
        (stop_symbol-Elsewhere it c) (stop_symbols-Elsewhere its (stop_symbol it c))

-- When a client is disposed after any life, every token that it had subscribed is unsubscribed:
-- of each token, its calls were a subscription and an unsubscription in turns, and the last was an
-- unsubscription, if there was one. But the calls of Dispose are made on the socket 0, since Datasock
-- has been cleared before: what was asked on every other socket stays as it was. The client starts
-- with `SubStatus` saying of each token whether the last of such calls subscribed it, and with an entry
-- of `SymbolDictionary` that names the token, if it did.
pub dispose-Silent :
    (m : Machine) (later : List Action) (c d : AutoClient m.hub)
    → IsKept c
    → live m later c ≡ some d
    → ((t : ℤ) → replay t (dispose d).calls false ≡ some false)
      × ((s : ℤ) → (pos 0 =?ℤ s) ≡ false → calls_at s (dispose d).calls ≡ calls_at s d.calls)
unfolding dispose stop_all_order
dispose-Silent m later c d k done =
    let kept = subst (IfSome IsKept) done (live-IfSome m IsKept (act-IsKept m) later c k) in
    let cleared : AutoClient m.hub = record d { datasock = pos 0 } in
    let stopped = stop_all_order cleared in
    let same = drop_symbols-calls stopped.symbol_dictionary stopped in
    (
      λ t.
          ap (λ cs. replay t cs false) same
          ∙ stop_all_order-Silent cleared t (record { told = kept.told; known = kept.known }),
      λ s ne.
          ap (calls_at s) same ∙ (stop_symbols-Elsewhere d.symbol_dictionary cleared).others s ne,
    )
