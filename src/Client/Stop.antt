-- ===== src/Client/Stop.antt =====
-- The end of a client: StopAllOrder and Dispose of AutoClient (OrderServer-20151216-AtHome,
-- src/AutoClient.cpp). CancelAllOrder changes nothing of what is modelled: it only prints. Dispose also
-- closes sockets and releases threads.
use jansan.Common.{Option, none, some, List, [], ◌∷◌, ℤ, pos}
use jansan.Common.Maps.{lookup, assign, remove, or_new}
use jansan.Strategy.Subscribe.{on_un_subscription}
use jansan.Client.{Hub, Node, NfToken, AutoClient}
use jansan.Client.Pairs.{zero_token, un_subscribe_token_on_true}

module _ {h : Hub} where
  -- `SymbolDictionary[…]` makes the entry that is not there.
  abbrev pub touch : ℤ → AutoClient h → AutoClient h
  touch token c = record c {
    symbol_dictionary =
        assign token (or_new zero_token (lookup token c.symbol_dictionary)) c.symbol_dictionary;
  }

  abbrev pub stopped_at : ℤ → AutoClient h → Option Node → AutoClient h
  stopped_at pf c none = c
  stopped_at pf c (some node) =
      let w = on_un_subscription (record { stg = node.stg; fill = c.fill }) in
      record c { stg_class = assign pf (record node { stg = w.stg }) c.stg_class; fill = w.fill }

  unfoldable pub stop_strategy : ℤ → AutoClient h → AutoClient h
  stop_strategy pf c = stopped_at pf c (lookup pf c.stg_class)

  -- One round of the loop of StopAllOrder.
  unfoldable pub stop_symbol : NfToken → AutoClient h → AutoClient h
  stop_symbol it c =
      let seen = touch it.far_token c in
      let pf = (or_new zero_token (lookup it.far_token seen.symbol_dictionary)).pf_number in
      stop_strategy pf (
        touch it.near_token (
          un_subscribe_token_on_true it.token_three (
            un_subscribe_token_on_true it.near_token
              (un_subscribe_token_on_true it.far_token seen))))

  -- The loop visits the entries that are there when it starts: those that `touch` makes have the
  -- token 0.
  unfoldable pub stop_symbols : List (ℤ × NfToken) → AutoClient h → AutoClient h
  stop_symbols [] c = c
  stop_symbols ((k, it) ∷ its) c = stop_symbols its (stop_symbol it c)

  unfoldable pub stop_all_order : AutoClient h → AutoClient h
  stop_all_order c = stop_symbols c.symbol_dictionary c

  -- One round of the loop of Dispose over the first entry of `SymbolDictionary`.
  unfoldable pub drop_symbol : NfToken → AutoClient h → AutoClient h
  drop_symbol it c = record c {
    stg_class = remove it.pf_number c.stg_class;
    data_pack = h.erase it.near_token (h.erase it.far_token c.data_pack);
  }

  unfoldable pub drop_symbols : List (ℤ × NfToken) → AutoClient h → AutoClient h
  drop_symbols [] c = record c { symbol_dictionary = [] }
  drop_symbols ((k, it) ∷ its) c = drop_symbols its (drop_symbol it c)

  -- Datasock is set to NULL before StopAllOrder is called.
  unfoldable pub dispose : AutoClient h → AutoClient h
  dispose c =
      let stopped = stop_all_order (record c { datasock = pos 0 }) in
      drop_symbols stopped.symbol_dictionary stopped
