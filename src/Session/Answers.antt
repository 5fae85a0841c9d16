-- ===== src/Session/Answers.antt =====
-- The answers of the exchange in TapSignOn::BindConnection (OrderServer-20151216-AtHome,
-- src/TapSignOn.cpp) with TapSignOn::ReturnCancelPack, and the orders by number of class PFHashMap
-- (PFMap.h). An answer goes to the strategies under the subscription tag of the holder that is
-- found for it. The container boost::bimap<double, PFHolder> is not part of the repository:
-- OrderMap has its operations.
pub mod Routes
pub mod Accepted
pub mod Filled
pub mod Tests
use jansan.Common.{
  ◌≡◌, ℕ, Bool, true, false, Option, none, some, List, [], ◌∷◌, ◌++◌, ℤ, pos, ◌=?ℤ◌, ltb_ℤ, leb_ℤ,
  if◌then◌else◌,
}
use jansan.Common.Words.{htons, ntohl, ntohs}
use jansan.Messages.{
  PfHolder, zero_holder, zero_om, OmRequestTr, OeResponseTr, OeRequest, TradeConfirmTr,
}
use jansan.Queue.{FillData, mkt_queue}
use jansan.Session.Holder.{Wanted, get_pf}

pub record OrderMap : Type 1 where
  pub Map : Type 0
  -- left.equal_range, whose first entry is the only one
  pub find : ℤ → Map → Option PfHolder
  pub insert : ℤ → PfHolder → Map → Map
  -- left.erase at the entry of a key
  pub erase : ℤ → Map → Map
  -- The right side has a holder that `operator<` does not tell from this one.
  pub clashes : PfHolder → Map → Bool

abbrev pub kept_or : Option PfHolder → PfHolder → Option PfHolder
kept_or none d = some d
kept_or (some c) d = some c

-- An entry is refused if its number is there, or an equivalent holder.
pub record IsOrderMap (b : OrderMap) : Type 0 where
  pub find-insert :
      (k j : ℤ) (d : PfHolder) (m : b.Map)
      → b.clashes d m ≡ false
      → b.find j (b.insert k d m) ≡ (if k =?ℤ j then kept_or (b.find k m) d else b.find j m)
  pub insert_clash : (k : ℤ) (d : PfHolder) (m : b.Map) → b.clashes d m ≡ true → b.insert k d m ≡ m
  pub find-erase :
      (k j : ℤ) (m : b.Map) → b.find j (b.erase k m) ≡ (if k =?ℤ j then none else b.find j m)

-- The answers that are passed on, by their transaction codes: 20073; 20074 and 20075; 2042, 2072 and
-- 2231; 20222.
pub data Answer : Type 0 where
  accepts : OeResponseTr → Answer
  changes : OeResponseTr → Answer
  rejects : OeRequest → Answer
  fills : TradeConfirmTr → Answer

-- What goes to PubSock, under a tag, and to AdminSock, for a client and a portfolio.
pub data Out : Type 0 where
  published : ℤ → Answer → Out
  to_admin : ℤ → ℤ → TradeConfirmTr → Out

pub record Desk (b : OrderMap) : Type 0 where
  pub out_pf : b.Map
  pub queue_holder : List PfHolder
  pub last_seq : ℤ
  pub pf_orphan : PfHolder
  pub fill : FillData

abbrev taken_at : (b : OrderMap) → ℤ → ℤ → b.Map → Option PfHolder → PfHolder × b.Map
taken_at b key remaining m none = (zero_holder, m)
taken_at b key remaining m (some d) = (d, if leb_ℤ remaining (pos 0) then b.erase key m else m)

-- GetRecordByOrder
unfoldable pub get_record_by_order : (b : OrderMap) → ℤ → ℤ → b.Map → PfHolder × b.Map
get_record_by_order b key remaining m = taken_at b key remaining m (b.find key m)

-- GetPF, and its AddRecord(_RetVal, true).
unfoldable pub get_new : (b : OrderMap) → Wanted → ℤ → Desk b → PfHolder × Desk b
get_new b x number s =
    let r = get_pf x number s.last_seq s.queue_holder in
    (r.0, record s { queue_holder = r.1; out_pf = b.insert r.0.order_no r.0 s.out_pf })

abbrev pub look_up : (b : OrderMap) → ℤ → ℤ → Desk b → PfHolder × Desk b
look_up b number remaining s =
    let r = get_record_by_order b number remaining s.out_pf in (r.0, record s { out_pf = r.1 })

abbrev pub of_response : OeResponseTr → Wanted
of_response r = record {
  token = r.token_no;
  price = r.price;
  qty = r.volume;
  side = r.buy_sell_indicator;
}

abbrev pub of_rejection : OeRequest → Wanted
of_rejection q = record {
  token = q.token_no;
  price = q.price;
  qty = q.volume;
  side = q.buy_sell_indicator;
}

abbrev pub passed_on : PfHolder → Answer → List Out
passed_on ph a = if ltb_ℤ (pos 0) ph.pf then published ph.subscription_tag a ∷ [] else []

-- Cases 2042, 2072 and 2231.
abbrev pub known_first : (b : OrderMap) → OeRequest → Desk b → PfHolder × Desk b
known_first b q s =
    if ltb_ℤ (pos 0) q.order_number then look_up b q.order_number (pos 1) s else (zero_holder, s)

unfoldable pub on_rejection : (b : OrderMap) → OeRequest → Desk b → Desk b × List Out
on_rejection b q s =
    let known = known_first b q s in
    let r =
      if known.0.pf =?ℤ pos 0 then get_new b (of_rejection q) q.order_number known.1 else known in
    (r.1, passed_on r.0 (rejects q))

-- Cases 20074 and 20075.
unfoldable pub on_change : (b : OrderMap) → OeResponseTr → Desk b → Desk b × List Out
on_change b r s =
    let known = look_up b r.order_number (pos 1) s in (known.1, passed_on known.0 (changes r))

abbrev pub fill_passed_on : PfHolder → TradeConfirmTr → List Out
fill_passed_on ph t =
    if ltb_ℤ (pos 0) ph.pf
    then published ph.subscription_tag (fills t) ∷ to_admin ph.cid ph.pf t ∷ []
    else []

-- Case 20222.
unfoldable pub on_fill : (b : OrderMap) → TradeConfirmTr → Desk b → Desk b × List Out
on_fill b t s =
    let known = look_up b t.response_order_number (ntohl t.remaining_volume) s in
    (known.1, fill_passed_on known.0 t)

unfoldable pub return_cancel_pack : OeResponseTr → OmRequestTr
return_cancel_pack r = record zero_om {
  transaction_code = htons (pos 20070);
  token_no = r.token_no;
  order_number = r.order_number;
  buy_sell_indicator = r.buy_sell_indicator;
  disclosed_volume = r.disclosed_volume;
  disclosed_volume_remaining = r.disclosed_volume_remaining;
  total_volume_remaining = r.total_volume_remaining;
  volume = r.volume;
  volume_filled_today = r.volume_filled_today;
  price = r.price;
  entry_date_time = r.entry_date_time;
  last_modified = r.last_modified;
  filler = r.filler;
  open_close = r.open_close;
  reserved_add = r.reserved1l;
  modified_cancelled_by = b'T';
  origin = record (r.origin) {
    flag_in = 8;
    flag_out = 16;
    packet_length = ntohs (pos 164);
    msg_count = ntohs (pos 1);
  };
}

-- An order that no strategy is known for is cancelled.
unfoldable pub cancel_orphan : (b : OrderMap) → OeResponseTr → Desk b → Desk b
cancel_orphan b r s =
    let orphan = record s.pf_orphan { size = pos 164; omtr = return_cancel_pack r } in
    record s { pf_orphan = orphan; fill = mkt_queue orphan s.fill }

-- Case 20073.
unfoldable pub on_acceptance : (b : OrderMap) → OeResponseTr → Desk b → Desk b × List Out
on_acceptance b r s =
    let found = get_new b (of_response r) r.order_number s in
    (
      if found.0.pf =?ℤ pos 0 then cancel_orphan b r found.1 else found.1,
      passed_on found.0 (accepts r),
    )

unfoldable pub on_answer : (b : OrderMap) → Answer → Desk b → Desk b × List Out
on_answer b (accepts r) s = on_acceptance b r s
on_answer b (changes r) s = on_change b r s
on_answer b (rejects q) s = on_rejection b q s
on_answer b (fills t) s = on_fill b t s

unfoldable pub run_answers : (b : OrderMap) → List Answer → Desk b → Desk b × List Out
run_answers b [] s = (s, [])
run_answers b (a ∷ later) s =
    let first = on_answer b a s in
    let rest = run_answers b later first.0 in (rest.0, first.1 ++ rest.1)
