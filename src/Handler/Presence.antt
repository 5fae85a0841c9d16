-- ===== src/Handler/Presence.antt =====
-- Which clients have an AutoClient, and which packets reach it: Login and RecieveDataAsServer of
-- ClientHandler (OrderServer-20151216-AtHome/src/ClientHandler.cpp).
use jansan.Common.{
  ◌≡◌, refl, sym, ◌∙◌, ap, subst, Bool, true, false, not, Option, none, some, List, ℤ, pos, ◌=?ℤ◌,
  =?ℤ→eq, if◌then◌else◌, if_intro, Bool-cases, inl, inr,
}
use jansan.Common.Maps.{lookup, lookup-assign, lookup-remove}
use jansan.Client.{Machine, AutoClient}
use jansan.Handler.{
  Server, SignIn, Request, Sent, e_login, disposed, logged_out, logged_in, login, working, loaded,
  new_client, in_it_cim,
}
use jansan.Handler.Receive.{is_for_client, asked, for_client, dispatch}

abbrev pub is_some : {A : Type 0} → Option A → Bool
is_some none = false
is_some (some x) = true

module _ (m : Machine) (blank : AutoClient m.hub) (signals : m.hub.Signals) where
  abbrev pub server_of : Server m × List Sent → Server m
  server_of (s, sent) = s

  abbrev pub present : ℤ → Server m → Bool
  present q s = is_some (lookup q s.stg_map)

  -- A login of a client that is there takes it away, as a logout does.
  abbrev pub after_login : SignIn → ℤ → Bool → Bool
  after_login pack q on =
      if pack.clint_id =?ℤ q
      then (if pack.transection_code =?ℤ pos 2320 then false else not on)
      else on

  disposed-present :
      (cid q : ℤ) (c : AutoClient m.hub) (s : Server m)
      → present q (disposed m cid c s) ≡ (if cid =?ℤ q then false else present q s)
  unfolding disposed
  disposed-present cid q c s = ap is_some (lookup-remove cid q s.stg_map) ∙ split (cid =?ℤ q)
    where
      split :
          (b : Bool)
          → is_some (if b then none else lookup q s.stg_map) ≡ (if b then false else present q s)
      split true = refl
      split false = refl

  logged_out-present :
      (pack : SignIn) (q : ℤ) (s : Server m) (o : Option (AutoClient m.hub))
      → lookup pack.clint_id s.stg_map ≡ o
      → pack.transection_code ≡ pos 2320
      → present q (logged_out m pack.clint_id s o) ≡ after_login pack q (present q s)
  logged_out-present pack q s none gone code = elim (Bool-cases (pack.clint_id =?ℤ q)) [
    | inl same ↦
        rw (same, code)
          (subst (λ x. present x s ≡ false) (=?ℤ→eq pack.clint_id q same) (ap is_some gone))
    | inr other ↦ rw other refl
  ]
  logged_out-present pack q s (some c) there code =
      disposed-present pack.clint_id q c s ∙ rw code refl

  stays : (cond : Bool) (s : Server m) → (if cond then s else s).stg_map ≡ s.stg_map
  stays true s = refl
  stays false s = refl

  logged_in-present :
      (pack : SignIn) (q : ℤ) (s : Server m) (o : Option (AutoClient m.hub))
      → lookup pack.clint_id s.stg_map ≡ o
      → (pack.transection_code =?ℤ pos 2320) ≡ false
      → present q (server_of (logged_in m blank signals pack s o))
        ≡ after_login pack q (present q s)
  logged_in-present pack q s (some c) there code =
      disposed-present pack.clint_id q c s ∙ elim (Bool-cases (pack.clint_id =?ℤ q)) [
        | inl same ↦
            rw (same, code)
              (subst (λ x. false ≡ not (present x s)) (=?ℤ→eq pack.clint_id q same)
                (ap (λ x. not (is_some x)) (sym there)))
        | inr other ↦ rw other refl
      ]
  logged_in-present pack q s none gone code =
      let c = in_it_cim m (loaded m s).cimlist (new_client m blank signals pack.clint_id) in
      ap is_some (lookup-assign pack.clint_id q c s.stg_map)
      ∙ elim (Bool-cases (pack.clint_id =?ℤ q)) [
        | inl same ↦
            rw (same, code)
              (subst (λ x. true ≡ not (present x s)) (=?ℤ→eq pack.clint_id q same)
                (ap (λ x. not (is_some x)) (sym gone)))
        | inr other ↦ rw other refl
      ]

  login-present :
      (pack : SignIn) (q : ℤ) (s : Server m)
      → present q (server_of (login m blank signals pack s)) ≡ after_login pack q (present q s)
  unfolding login
  login-present pack q s =
      if_intro (λ x. present q (server_of x) ≡ after_login pack q (present q s))
        (pack.transection_code =?ℤ pos 2320)
        (λ code.
          logged_out-present pack q s (lookup pack.clint_id s.stg_map) refl
            (=?ℤ→eq pack.transection_code (pos 2320) code))
        λ code. logged_in-present pack q s (lookup pack.clint_id s.stg_map) refl code

  for_client-present :
      (r : Request) (q : ℤ) (s : Server m) (o : Option (AutoClient m.hub))
      → lookup r.clint_id s.stg_map ≡ o
      → present q (server_of (for_client m r s o)) ≡ present q s
  for_client-present r q s none gone = refl
  for_client-present r q s (some c) there =
      ap is_some (lookup-assign r.clint_id q (asked m r (working m s c)) s.stg_map)
      ∙ elim (Bool-cases (r.clint_id =?ℤ q)) [
        | inl same ↦
            rw same
              (subst (λ x. true ≡ present x s) (=?ℤ→eq r.clint_id q same) (ap is_some (sym there)))
        | inr other ↦ rw other refl
      ]

  -- The clients that have an AutoClient change with the sign-ins alone: after a logout the client of
  -- the sign-in has none; after any other sign-in it has one just if it had none before; every other
  -- client, and with every other packet each client, has one just if it had one before.
  pub dispatch-present :
      (r : Request) (q : ℤ) (s : Server m)
      → present q (server_of (dispatch m blank signals r s)) ≡ (
          if r.transection_code =?ℤ e_login
          then after_login r.sign_in q (present q s)
          else present q s)
  unfolding dispatch
  dispatch-present r q s = elim (Bool-cases (r.transection_code =?ℤ e_login)) [
    | inl signs ↦ rw signs (login-present r.sign_in q s)
    | inr other ↦ rw other (
        if_intro (λ x. present q (server_of x) ≡ present q s) (is_for_client r.transection_code)
          (λ _. for_client-present r q s (lookup r.clint_id s.stg_map) refl) λ _. refl)
  ]
