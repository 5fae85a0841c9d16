-- ===== src/Handler/Replies.antt =====
-- What one packet of a front end does and leaves alone in RecieveDataAsServer of ClientHandler
-- (OrderServer-20151216-AtHome/src/ClientHandler.cpp).
use jansan.Common.{
  ◌≡◌, refl, sym, ◌∙◌, arith, false, Option, none, some, List, [], ◌∷◌, ◌++◌, ℤ, pos, ◌≤ℤ◌, ◌=?ℤ◌,
  ltb_ℤ, if◌then◌else◌, if_intro,
}
use jansan.Common.Maps.{lookup, lookup-assign, lookup-remove}
use jansan.Client.{Machine, AutoClient}
use jansan.Handler.{
  Server, SignIn, Request, Sent, reply, e_login, disposed, logged_out, logged_in, login, working,
  loaded, new_client, in_it_cim,
}
use jansan.Handler.Receive.{is_for_client, asked, for_client, dispatch, replied, recieve}
use jansan.Handler.Presence.{server_of}

-- The client that a packet is about: a sign-in names it in its body.
abbrev pub about : Request → ℤ
about r = if r.transection_code =?ℤ e_login then r.sign_in.clint_id else r.clint_id

module _ (m : Machine) (blank : AutoClient m.hub) (signals : m.hub.Signals) where
  abbrev sent_by : Server m × List Sent → List Sent
  sent_by (s, sent) = sent

  disposed-others :
      (cid q : ℤ) (c : AutoClient m.hub) (s : Server m)
      → (cid =?ℤ q) ≡ false
      → lookup q (disposed m cid c s).stg_map ≡ lookup q s.stg_map
  unfolding disposed
  disposed-others cid q c s ne = lookup-remove cid q s.stg_map ∙ rw ne refl

  logged_out-others :
      (cid q : ℤ) (s : Server m) (o : Option (AutoClient m.hub))
      → (cid =?ℤ q) ≡ false
      → lookup q (logged_out m cid s o).stg_map ≡ lookup q s.stg_map
  logged_out-others cid q s none ne = refl
  logged_out-others cid q s (some c) ne = disposed-others cid q c s ne

  logged_in-others :
      (pack : SignIn) (q : ℤ) (s : Server m) (o : Option (AutoClient m.hub))
      → (pack.clint_id =?ℤ q) ≡ false
      → lookup q (server_of m blank signals (logged_in m blank signals pack s o)).stg_map
        ≡ lookup q s.stg_map
  logged_in-others pack q s (some c) ne = disposed-others pack.clint_id q c s ne
  logged_in-others pack q s none ne =
      lookup-assign pack.clint_id q
        (in_it_cim m (loaded m s).cimlist (new_client m blank signals pack.clint_id)) s.stg_map
      ∙ rw ne refl

  login-others :
      (pack : SignIn) (q : ℤ) (s : Server m)
      → (pack.clint_id =?ℤ q) ≡ false
      → lookup q (server_of m blank signals (login m blank signals pack s)).stg_map
        ≡ lookup q s.stg_map
  unfolding login
  login-others pack q s ne =
      if_intro (λ x. lookup q (server_of m blank signals x).stg_map ≡ lookup q s.stg_map)
        (pack.transection_code =?ℤ pos 2320)
        (λ _. logged_out-others pack.clint_id q s (lookup pack.clint_id s.stg_map) ne)
        λ _. logged_in-others pack q s (lookup pack.clint_id s.stg_map) ne

  for_client-others :
      (r : Request) (q : ℤ) (s : Server m) (o : Option (AutoClient m.hub))
      → (r.clint_id =?ℤ q) ≡ false
      → lookup q (server_of m blank signals (for_client m r s o)).stg_map ≡ lookup q s.stg_map
  for_client-others r q s none ne = refl
  for_client-others r q s (some c) ne =
      lookup-assign r.clint_id q (asked m r (working m s c)) s.stg_map ∙ rw ne refl

  dispatch-others :
      (r : Request) (q : ℤ) (s : Server m)
      → (about r =?ℤ q) ≡ false
      → lookup q (server_of m blank signals (dispatch m blank signals r s)).stg_map
        ≡ lookup q s.stg_map
  unfolding dispatch
  dispatch-others r q s ne =
      if_intro (λ x. lookup q (server_of m blank signals x).stg_map ≡ lookup q s.stg_map)
        (r.transection_code =?ℤ e_login)
        (λ signs. login-others r.sign_in q s (sym (rw signs refl) ∙ ne))
        λ other.
          if_intro (λ x. lookup q (server_of m blank signals x).stg_map ≡ lookup q s.stg_map)
            (is_for_client r.transection_code)
            (λ _. for_client-others r q s (lookup r.clint_id s.stg_map) (sym (rw other refl) ∙ ne))
            λ _. refl

  -- A packet that has a header and fits the buffer is answered with itself, after all else that it
  -- has sent, and changes no client but the one that it is about: every other client is as before.
  pub recieve-others :
      (r : Request) (s : Server m)
      → pos 6 ≤ℤ r.size
      → r.size ≤ℤ pos 1024
      → (s' : Server m) × (sent : List Sent) × (recieve m blank signals r s
          ≡ some (s', sent ++ reply r ∷ []))
        × ((q : ℤ) → (about r =?ℤ q) ≡ false → lookup q s'.stg_map ≡ lookup q s.stg_map)
  unfolding recieve
  recieve-others r s lo hi =
      let x = dispatch m blank signals r s in
      let a : ltb_ℤ r.size (pos 1) ≡ false = ground arith in
      let b : ltb_ℤ r.size (pos 6) ≡ false = ground arith in
      let c : ltb_ℤ (pos 1024) r.size ≡ false = ground arith in
      (server_of m blank signals x, sent_by x, rw (a, b, c) refl, λ q ne. dispatch-others r q s ne)

  -- A packet that is no sign-in, and names a client that has no AutoClient, changes nothing; the front
  -- end gets it back like one that was carried out.
  recieve-unknown :
      (r : Request) (s : Server m)
      → pos 6 ≤ℤ r.size
      → r.size ≤ℤ pos 1024
      → (r.transection_code =?ℤ e_login) ≡ false
      → lookup r.clint_id s.stg_map ≡ none
      → recieve m blank signals r s ≡ some (s, reply r ∷ [])
  unfolding recieve dispatch
  recieve-unknown r s lo hi other gone =
      let a : ltb_ℤ r.size (pos 1) ≡ false = ground arith in
      let b : ltb_ℤ r.size (pos 6) ≡ false = ground arith in
      let c : ltb_ℤ (pos 1024) r.size ≡ false = ground arith in
      rw (a, b, c, other, gone)
        (if_intro (λ x. some (replied m r x) ≡ some (s, reply r ∷ []))
          (is_for_client r.transection_code) (λ _. refl) λ _. refl)
