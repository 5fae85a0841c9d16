-- ===== src/Client/Pairs.antt =====
-- What a client asks of AutoClient (OrderServer-20151216-AtHome/src/AutoClient.cpp) about a pair:
-- HandleOnFOPairSubscription, HandleOnFOPairUnSubscription and HandleOnFOPairDiff, with
-- SubscribeTokenOnFalse and UnSubscribeTokenOnTrue.
use jansan.Common.{
  ℕ, ◌+◌, true, false, Option, none, some, List, [], ◌∷◌, ◌++◌, ℤ, pos, ◌=?ℤ◌, leb_ℤ, if◌then◌else◌,
}
use jansan.Common.Maps.{lookup, assign, remove, or_new}
use jansan.Common.Words.{ntohs}
use jansan.Messages.{FoPair, FoPairDiff, NearMonthPacket, buy, sell}
use jansan.Strategy.{Strategy, construct}
use jansan.Strategy.Subscribe.{on_subscription, on_un_subscription, on_difference}
use jansan.Client.{Hub, Machine, Node, NfToken, subscribe_token, un_subscribe_token, AutoClient}
use jansan.Client.Packs.{init_token_details, return_near_pack, return_modification_pack}

-- An entry that `_StgClass[…]` makes.
unfoldable pub fresh_node : Machine → ℕ → Node
fresh_node m address = record {
  address = address;
  stg = construct m.stg;
  ct1 = none;
  ct2 = none;
  ct3 = none;
}

abbrev pub disconnect_if : (h : Hub) → Option ℕ → h.Signals → h.Signals
disconnect_if h none s = s
disconnect_if h (some c) s = h.disconnect c s

module _ {h : Hub} where
  -- SubscribeTokenOnFalse
  unfoldable pub subscribe_token_on_false : ℤ → AutoClient h → AutoClient h
  subscribe_token_on_false token c =
      if or_new false (lookup token c.sub_status) then c else record c {
        sub_status = assign token true c.sub_status;
        calls = c.calls ++ subscribe_token c.datasock token ∷ [];
      }

  -- UnSubscribeTokenOnTrue
  unfoldable pub un_subscribe_token_on_true : ℤ → AutoClient h → AutoClient h
  un_subscribe_token_on_true token c =
      if or_new false (lookup token c.sub_status)
      then record c {
        sub_status = assign token false c.sub_status;
        calls = c.calls ++ un_subscribe_token c.datasock token ∷ [];
      }
      else c

  abbrev pub dropped : ℤ → AutoClient h → Option Node → AutoClient h
  dropped pf c none = c
  dropped pf c (some node) = record c {
    fill = (on_un_subscription (record { stg = node.stg; fill = c.fill })).fill;
    data_pack =
        disconnect_if h node.ct3 (disconnect_if h node.ct2 (disconnect_if h node.ct1 c.data_pack));
    stg_class = remove pf c.stg_class;
  }

  unfoldable pub handle_un_subscription : FoPair → AutoClient h → AutoClient h
  handle_un_subscription p c = dropped p.portfolio_name c (lookup p.portfolio_name c.stg_class)

abbrev pub zero_token : NfToken
zero_token = record {
  near_token = pos 0;
  far_token = pos 0;
  token_three = pos 0;
  pf_number = pos 0;
  blq = pos 0;
}

abbrev pub set_symbol : FoPair → ℤ → List (ℤ × NfToken) → List (ℤ × NfToken)
set_symbol p token dict =
    assign token
      (record (or_new zero_token (lookup token dict)) {
        near_token = p.token_near;
        far_token = p.token_far;
        token_three = p.token_three;
        pf_number = p.portfolio_name;
      })
      dict

unfoldable pub set_symbols : FoPair → List (ℤ × NfToken) → List (ℤ × NfToken)
set_symbols p dict =
    set_symbol p p.token_three (set_symbol p p.token_far (set_symbol p p.token_near dict))

module _ (m : Machine) where
  -- The entry of a portfolio that is not there yet.
  abbrev pub made : FoPair → AutoClient m.hub → Node
  made p c =
      let node = fresh_node m c.next_address in
      record node {
        stg = record (node.stg) {
          client_id = c.client_id;
          blq = init_token_details m p.token_far c;
        };
      }

  abbrev pub with_entry : FoPair → AutoClient m.hub → Option Node → AutoClient m.hub
  with_entry p c none = record c {
    stg_class = assign p.portfolio_name (made p c) c.stg_class;
    next_address = c.next_address + 1;
  }
  with_entry p c (some node) = c

  unfoldable pub open_portfolio : FoPair → AutoClient m.hub → AutoClient m.hub
  open_portfolio p c = with_entry p c (lookup p.portfolio_name c.stg_class)

  -- The packs of a pair.
  abbrev packs : FoPair → ℤ → AutoClient m.hub → NearMonthPacket
  packs p far_blq c = record {
    near_month_market = return_near_pack m p.token_near buy (pos 1) far_blq c;
    near_month_market2 = return_near_pack m p.token_three buy (pos 1) far_blq c;
    far_month = return_near_pack m p.token_far buy (pos 1) (pos 0) c;
    far_month_mod_buy = return_modification_pack m p.token_far buy c;
    far_month_mod_sell = return_modification_pack m p.token_far sell c;
  }

  -- The packs are made once for each entry: the first one has a transaction code from then on.
  unfoldable pub with_packs : FoPair → ℤ → AutoClient m.hub → Strategy → Strategy
  with_packs p far_blq c s =
      if s.nm_pack.far_month.transaction_code =?ℤ ntohs (pos 20000)
      then s
      else record s { nm_pack = packs p far_blq c }

  unfoldable pub wire : FoPair → Node → AutoClient m.hub → AutoClient m.hub
  wire p node c =
      let far = m.hub.connect p.token_far node.address c.data_pack in
      let near = m.hub.connect p.token_near node.address far.1 in
      let third = m.hub.connect p.token_three node.address near.1 in
      let dict = set_symbols p c.symbol_dictionary in
      let far_blq = (or_new zero_token (lookup p.token_far dict)).blq in
      record c {
        stg_class =
            assign p.portfolio_name
              (record node {
                stg = with_packs p far_blq c (on_subscription p node.stg);
                ct1 = some far.0;
                ct2 = some near.0;
                ct3 = some third.0;
              })
              c.stg_class;
        data_pack = third.1;
        symbol_dictionary = dict;
      }

  abbrev pub subscribe_tokens : FoPair → AutoClient m.hub → AutoClient m.hub
  subscribe_tokens p c =
      subscribe_token_on_false p.token_three
        (subscribe_token_on_false p.token_near (subscribe_token_on_false p.token_far c))

  unfoldable pub handle_subscription : FoPair → AutoClient m.hub → AutoClient m.hub
  handle_subscription p c =
      if leb_ℤ p.portfolio_name (pos 0)
      then c
      else (let opened = open_portfolio p c in
          let node =
            or_new (fresh_node m opened.next_address) (lookup p.portfolio_name opened.stg_class) in
          subscribe_tokens p (wire p node opened))

  -- The entry that a difference makes: no client number is set, and no price reaches it.
  abbrev pub made_by_difference : FoPairDiff → AutoClient m.hub → Node
  made_by_difference d c =
      let node = fresh_node m c.next_address in
      record node {
        stg = record (node.stg) {
          blq =
              if leb_ℤ node.stg.blq (pos 0)
              then init_token_details m d.fo_pair.token_far c
              else node.stg.blq;
        };
      }

  abbrev pub differed : FoPairDiff → AutoClient m.hub → Option Node → AutoClient m.hub
  differed d c none =
      let node = made_by_difference d c in
      record c {
        stg_class =
            assign d.portfolio_name (record node { stg = on_difference d node.stg }) c.stg_class;
        next_address = c.next_address + 1;
      }
  differed d c (some node) = record c {
    stg_class =
        assign d.portfolio_name (record node { stg = on_difference d node.stg }) c.stg_class;
  }

  unfoldable pub handle_difference : FoPairDiff → AutoClient m.hub → AutoClient m.hub
  handle_difference d c = differed d c (lookup d.portfolio_name c.stg_class)
