-- ===== src/Client/Sample.antt =====
-- One client of OrderServer-20151216-AtHome, for the tests: its signals are functions, and it has the
-- strategy of portfolio 7.
use jansan.Common.{ℕ, ◌+◌, refl, List, [], ◌∷◌, ◌++◌, none, ℤ, pos, pos_part, ◌=?ℤ◌, if◌then◌else◌}
use jansan.Messages.{zero_oe, zero_om, zero_holder}
use jansan.Queue.Hash.{StructHash}
use jansan.Strategy.Sample.{sample, world, exact_hit}
use jansan.Client.{Hub, IsHub, without, Machine, Node, AutoClient}

pub record Slots : Type 0 where
  pub next : ℕ
  pub at : ℤ → List (ℕ × ℕ)

abbrev pub no_slots : Slots
no_slots = record { next = 1; at = λ t. [] }

abbrev pub hub : Hub
hub = record {
  Signals = Slots;
  slots = λ j s. s.at j;
  connect = λ t a s. (
    s.next,
    record { next = s.next + 1; at = λ j. if t =?ℤ j then s.at j ++ (s.next, a) ∷ [] else s.at j },
  );
  disconnect = λ c s. record s { at = λ j. without c (s.at j) };
  erase = λ t s. record s { at = λ j. if t =?ℤ j then [] else s.at j };
}

pub hub-IsHub : IsHub hub
hub-IsHub = record {
  slots-connect = λ t j a s. refl;
  slots-disconnect = λ c j s. refl;
  slots-erase = λ t j s. refl;
}

abbrev pub machine : Machine
machine = record {
  hub = hub;
  stg = sample;
  lot = pos 75;
  oe = zero_oe;
  om = zero_om;
  double_bits = λ n. pos_part n;
  hash = λ n. pos_part n;
  hit = exact_hit;
}

abbrev zero_hash : StructHash
zero_hash = record {
  token1 = pos 0;
  token2 = pos 0;
  token3 = pos 0;
  price1 = pos 0;
  price2 = pos 0;
  price3 = pos 0;
  qty1 = pos 0;
  qty2 = pos 0;
  qty3 = pos 0;
  side1 = pos 0;
  side2 = pos 0;
  side3 = pos 0;
}

abbrev pub no_strategy : AutoClient hub
no_strategy = record {
  client_id = pos 123;
  algo_id = pos 201010001823000;
  stg_class = [];
  next_address = 1;
  symbol_dictionary = [];
  data_pack = no_slots;
  sub_status = [];
  datasock = pos 4;
  calls = [];
  cimlist = [];
  manual_order_store = [];
  manual_pf = zero_holder;
  manual_sh = zero_hash;
  current = record { msg_type = pos 65; cid = pos 123; pf_num = pos 7 };
  fill = world.fill;
}

abbrev node : Node
node = record { address = 9; stg = sample; ct1 = none; ct2 = none; ct3 = none }

abbrev pub client : AutoClient hub
client = record no_strategy { stg_class = (pos 7, node) ∷ [] }
