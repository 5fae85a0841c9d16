-- ===== src/Client/Manual.antt =====
-- The orders that a client places by hand: ManualOrderEntry and ManualOrder_Mod_CNclEntry of AutoClient
-- (OrderServer-20151216-AtHome/src/AutoClient.cpp).
use jansan.Common.{Option, none, some, pos}
use jansan.Common.Maps.{lookup, assign, or_new}
use jansan.Common.Words.{htonl, htons, to_short}
use jansan.Messages.{OeRequestTr, OmRequestTr}
use jansan.Queue.{bid_queue}
use jansan.Queue.Hash.{my_hash}
use jansan.Tag.{concat, e_order, to_long}
use jansan.Client.{Hub, Machine, AutoClient}
use jansan.Client.Packs.{return_near_pack}
use jansan.Client.Pairs.{zero_token}

-- `SymbolDictionary[…]` makes the entry that is not there.
unfoldable pub manual_order_entry :
    (m : Machine) → OeRequestTr → AutoClient m.hub → AutoClient m.hub
manual_order_entry m moe c =
    let token = htonl moe.token_no in
    let symbol = or_new zero_token (lookup token c.symbol_dictionary) in
    let pack = return_near_pack m token (htons moe.buy_sell_indicator) (pos 1) symbol.blq c in
    let order : OeRequestTr = record pack {
      disclosed_volume = moe.volume;
      volume = moe.volume;
      price = moe.price;
    } in
    let sh = record (c.manual_sh) {
      qty1 = htonl moe.volume;
      price1 = htonl moe.price;
      side1 = htons moe.buy_sell_indicator;
      token1 = token;
    } in
    let pf = record (c.manual_pf) {
      hash_key = to_long (pos (my_hash m.hash sh));
      side = sh.side1;
      cid = c.client_id;
      pf = pos 999;
      subscription_tag = concat (concat e_order c.client_id) (to_short (pos 999));
      oetr = order;
      size = pos 136;
    } in
    record c {
      symbol_dictionary = assign token symbol c.symbol_dictionary;
      manual_sh = sh;
      manual_pf = pf;
      fill = bid_queue pf c.fill;
    }

abbrev pub modified : {h : Hub} → OmRequestTr → AutoClient h → Option OmRequestTr → AutoClient h
modified mom c none = c
modified mom c (some known) =
    let order : OmRequestTr = record known {
      transaction_code = mom.transaction_code;
      disclosed_volume = mom.volume;
      volume = mom.volume;
      price = mom.price;
    } in
    let pf = record (c.manual_pf) { size = pos 164; omtr = order } in
    record c { manual_pf = pf; fill = bid_queue pf c.fill }

-- A modification or a cancellation of an order that `ManualOrderStore` knows.
unfoldable pub manual_order_mod_cncl_entry : {h : Hub} → OmRequestTr → AutoClient h → AutoClient h
manual_order_mod_cncl_entry mom c = modified mom c (lookup mom.order_number c.manual_order_store)
