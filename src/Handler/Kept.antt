-- ===== src/Handler/Kept.antt =====
-- What all the clients of ClientHandler (OrderServer-20151216-AtHome/src/ClientHandler.cpp) keep,
-- whatever the front ends send, and whatever the market and the exchange send in between.
use jansan.Common.{
  ◌≡◌, refl, sym, ◌∙◌, ap, subst, arith, Option, none, some, List, ℤ, pos, ◌=?ℤ◌, if_intro,
  Bool-cases, inl, inr,
}
use jansan.Common.Maps.{lookup, assign, lookup-assign, lookup-remove, or_new}
use jansan.Common.Words.{htons}
use jansan.Contracts.{ContractDetails}
use jansan.Client.{Machine, AutoClient}
use jansan.Client.Life.{IfSome, Action, subscribes, un_subscribes, differs, orders, modifies, act}
use jansan.Client.Life.Subscribed.{IsKept}
use jansan.Client.Life.Asked.{act-IsKept}
use jansan.Handler.{
  Server, SignIn, Request, Sent, e_login, e_iocpair, e_iocpairdiff, e_iocpairunsub, e_manual_ord,
  disposed, logged_out, logged_in, login, working, loaded, new_client, in_it_cim,
}
use jansan.Handler.Receive.{is_for_client, manual_ord, asked, for_client, dispatch}

module _ (m : Machine) (blank : AutoClient m.hub) (signals : m.hub.Signals) where
  abbrev pub All : Server m → Type 0
  All s = (q : ℤ) (c : AutoClient m.hub) → lookup q s.stg_map ≡ some c → IsKept c

  abbrev pub AllOf : Server m × List Sent → Type 0
  AllOf (s, sent) = All s

  unwrapped : {c d : AutoClient m.hub} → some c ≡ some d → c ≡ d
  unwrapped {c = c} e = ap (λ (o : Option (AutoClient m.hub)). or_new c o) e

  pub working-IsKept : (s : Server m) (c : AutoClient m.hub) → IsKept c → IsKept (working m s c)
  working-IsKept s c k = record { told = k.told; known = k.known }

  pub assign-All :
      (cid : ℤ) (c : AutoClient m.hub) (s s' : Server m)
      → s'.stg_map ≡ assign cid c s.stg_map
      → IsKept c
      → All s
      → All s'
  assign-All cid c s s' now k all q d there = elim (Bool-cases (cid =?ℤ q)) [
    | inl same ↦
        subst IsKept
          (unwrapped (
            sym (lookup-assign cid q c s.stg_map ∙ rw same refl) ∙ ap (lookup q) (sym now) ∙ there))
          k
    | inr other ↦
        all q d
          (sym (lookup-assign cid q c s.stg_map ∙ rw other refl) ∙ ap (lookup q) (sym now) ∙ there)
  ]

  disposed-All : (cid : ℤ) (c : AutoClient m.hub) (s : Server m) → All s → All (disposed m cid c s)
  unfolding disposed
  disposed-All cid c s all q d there = elim (Bool-cases (cid =?ℤ q)) [
    | inl same ↦ absurd (gone (sym (lookup-remove cid q s.stg_map ∙ rw same refl) ∙ there))
    | inr other ↦ all q d (sym (lookup-remove cid q s.stg_map ∙ rw other refl) ∙ there)
  ]
    where
      gone : {x : AutoClient m.hub} → ¬ (none ≡ some x)
      gone e = ground (arith, e)

  new_client-IsKept :
      (all : List (ℤ × ContractDetails)) (cid : ℤ)
      → IsKept (in_it_cim m all (new_client m blank signals cid))
  unfolding in_it_cim lookup
  new_client-IsKept all cid = record {
    told = λ t. refl;
    known = λ t on. absurd (ground (arith, on));
  }

  logged_out-All :
      (cid : ℤ) (s : Server m) (o : Option (AutoClient m.hub)) → All s → All (logged_out m cid s o)
  logged_out-All cid s none all = all
  logged_out-All cid s (some c) all = disposed-All cid c s all

  logged_in-All :
      (pack : SignIn) (s : Server m) (o : Option (AutoClient m.hub))
      → All s
      → AllOf (logged_in m blank signals pack s o)
  logged_in-All pack s (some c) all = disposed-All pack.clint_id c s all
  logged_in-All pack s none all =
      let c = in_it_cim m (loaded m s).cimlist (new_client m blank signals pack.clint_id) in
      assign-All pack.clint_id c s (record s { stg_map = assign pack.clint_id c s.stg_map }) refl
        (new_client-IsKept (loaded m s).cimlist pack.clint_id) all

  login-All : (pack : SignIn) (s : Server m) → All s → AllOf (login m blank signals pack s)
  unfolding login
  login-All pack s all =
      if_intro AllOf (pack.transection_code =?ℤ pos 2320)
        (λ _. logged_out-All pack.clint_id s (lookup pack.clint_id s.stg_map) all)
        λ _. logged_in-All pack s (lookup pack.clint_id s.stg_map) all

  -- What an action that has an outcome leaves.
  pub acts : (a : Action) (c : AutoClient m.hub) → IsKept c → IfSome IsKept (act m a c)
  acts a c k = act-IsKept m a c k

  manual_ord-IsKept : (r : Request) (c : AutoClient m.hub) → IsKept c → IsKept (manual_ord m r c)
  unfolding manual_ord act
  manual_ord-IsKept r c k =
      if_intro IsKept (htons r.t_code =?ℤ pos 20000) (λ _. acts (orders r.moe) c k)
        λ _.
          if_intro IsKept (htons r.t_code =?ℤ pos 20040) (λ _. acts (modifies r.mom) c k)
            λ _.
              if_intro IsKept (htons r.t_code =?ℤ pos 20070) (λ _. acts (modifies r.mom) c k) λ _. k

  asked-IsKept : (r : Request) (c : AutoClient m.hub) → IsKept c → IsKept (asked m r c)
  unfolding asked act
  asked-IsKept r c k =
      if_intro IsKept (r.transection_code =?ℤ e_iocpair) (λ _. acts (subscribes r.fo_pair) c k)
        λ _.
          if_intro IsKept (r.transection_code =?ℤ e_iocpairdiff)
            (λ _. acts (differs r.fo_pair_diff) c k)
            λ _.
              if_intro IsKept (r.transection_code =?ℤ e_iocpairunsub)
                (λ _. acts (un_subscribes r.fo_pair) c k)
                λ _.
                  if_intro IsKept (r.transection_code =?ℤ e_manual_ord)
                    (λ _. manual_ord-IsKept r c k) λ _. k

  for_client-All :
      (r : Request) (s : Server m) (o : Option (AutoClient m.hub))
      → lookup r.clint_id s.stg_map ≡ o
      → All s
      → AllOf (for_client m r s o)
  for_client-All r s none gone all = all
  for_client-All r s (some c) there all =
      let c' = asked m r (working m s c) in
      assign-All r.clint_id c' s (record s { stg_map = assign r.clint_id c' s.stg_map }) refl
        (asked-IsKept r (working m s c) (working-IsKept s c (all r.clint_id c there))) all

  pub dispatch-All : (r : Request) (s : Server m) → All s → AllOf (dispatch m blank signals r s)
  unfolding dispatch
  dispatch-All r s all =
      if_intro AllOf (r.transection_code =?ℤ e_login) (λ _. login-All r.sign_in s all)
        λ _.
          if_intro AllOf (is_for_client r.transection_code)
            (λ _. for_client-All r s (lookup r.clint_id s.stg_map) refl all) λ _. all
