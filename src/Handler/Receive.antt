-- ===== src/Handler/Receive.antt =====
-- RecieveDataAsServer of ClientHandler (OrderServer-20151216-AtHome/src/ClientHandler.cpp): one
-- packet of a front end.
use jansan.Common.{
  Bool, Option, none, some, ◌||◌, List, [], ◌∷◌, ◌++◌, ℤ, pos, ◌=?ℤ◌, ltb_ℤ, if◌then◌else◌,
}
use jansan.Common.Maps.{lookup, assign}
use jansan.Common.Words.{htons}
use jansan.Tag.{concat}
use jansan.Client.{Machine, AutoClient}
use jansan.Client.Pairs.{handle_subscription, handle_un_subscription, handle_difference}
use jansan.Client.Manual.{manual_order_entry, manual_order_mod_cncl_entry}
use jansan.Handler.{
  Server, Request, Sent, pf_update, reply, e_login, e_iocpair, e_iocpairunsub, e_iocpairdiff,
  e_manual_ord, working, login,
}

-- eCANCELALL, eSTOP_ALL and eDelete are 82, 83 and 84.
abbrev pub is_for_client : ℤ → Bool
is_for_client code =
    code =?ℤ pos 82
    || code =?ℤ pos 83
    || code =?ℤ e_iocpair
    || code =?ℤ e_iocpairunsub
    || code =?ℤ e_iocpairdiff
    || code =?ℤ pos 84
    || code =?ℤ e_manual_ord

module _ (m : Machine) where
  -- The manual orders, by the transaction code in the packet.
  unfoldable pub manual_ord : Request → AutoClient m.hub → AutoClient m.hub
  manual_ord r c =
      let t_code = htons r.t_code in
      if t_code =?ℤ pos 20000
      then manual_order_entry m r.moe c
      else if t_code =?ℤ pos 20040
      then manual_order_mod_cncl_entry r.mom c
      else if t_code =?ℤ pos 20070
      then manual_order_mod_cncl_entry r.mom c
      else c

  -- The inner switch; eCANCELALL, eSTOP_ALL and eDelete have no case in it.
  unfoldable pub asked : Request → AutoClient m.hub → AutoClient m.hub
  asked r c =
      if r.transection_code =?ℤ e_iocpair
      then handle_subscription m r.fo_pair c
      else if r.transection_code =?ℤ e_iocpairdiff
      then handle_difference m r.fo_pair_diff c
      else if r.transection_code =?ℤ e_iocpairunsub
      then handle_un_subscription r.fo_pair c
      else if r.transection_code =?ℤ e_manual_ord
      then manual_ord r c
      else c

  -- A subscription is also told to the data server.
  unfoldable pub published : Request → List Sent
  published r =
      if r.transection_code =?ℤ e_iocpair
      then pf_update (concat e_iocpair r.clint_id) r.fo_pair ∷ []
      else []

  abbrev pub for_client : Request → Server m → Option (AutoClient m.hub) → Server m × List Sent
  for_client r s none = (s, [])
  for_client r s (some c) =
      let c' = asked r (working m s c) in
      (record s { stg_map = assign r.clint_id c' s.stg_map; fill = c'.fill }, published r)

  abbrev pub replied : Request → Server m × List Sent → Server m × List Sent
  replied r (s, sent) = (s, sent ++ reply r ∷ [])

  module _ (blank : AutoClient m.hub) (signals : m.hub.Signals) where
    -- The outer switch.
    unfoldable pub dispatch : Request → Server m → Server m × List Sent
    dispatch r s =
        if r.transection_code =?ℤ e_login
        then login m blank signals r.sign_in s
        else if is_for_client r.transection_code
        then for_client r s (lookup r.clint_id s.stg_map)
        else (s, [])

    -- One round of RecieveDataAsServer. A packet that is shorter than the header has memcpy copy a
    -- negative number of bytes, and one that is longer than the buffer has it read behind the buffer:
    -- both are undefined.
    unfoldable pub recieve : Request → Server m → Option (Server m × List Sent)
    recieve r s =
        if ltb_ℤ r.size (pos 1)
        then some (s, [])
        else if ltb_ℤ r.size (pos 6)
        then none
        else if ltb_ℤ (pos 1024) r.size
        then none
        else some (replied r (dispatch r s))
