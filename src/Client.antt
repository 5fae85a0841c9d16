-- ===== src/Client.antt =====
-- class AutoClient of OrderServer-20151216-AtHome (include/AutoClient.h, src/AutoClient.cpp): the
-- strategies of one client, by portfolio, and what reaches them. The fields UID, `_FOPAIRDIFF`,
-- `_NMPACK` and `_OrderDetailsBuy`, which are only written, and the threads and sockets are left
-- out.
pub mod Tags
pub mod Packs
pub mod Pairs
pub mod Prices
pub mod Reports
pub mod Manual
pub mod Stop
pub mod Orphan
pub mod Life
pub mod Sample
pub mod Tests
use jansan.Common.{
  ℕ, ◌≡◌, ◌≢◌, Bool, Option, none, some, List, [], ◌∷◌, ◌++◌, ℤ, pos, ◌=?ℤ◌, ◌==◌, if◌then◌else◌,
}
use jansan.Messages.{OeRequestTr, OmRequestTr, PfHolder}
use jansan.Queue.{FillData}
use jansan.Queue.Hash.{StructHash}
use jansan.Contracts.{ContractDetails}
use jansan.Strategy.{Strategy}
use jansan.Strategy.Trade.{FloatHit}
use jansan.Client.Tags.{Address}

-- boost::signals2: the signals of `_DataPack`, by token. A slot is a connection with the strategy that
-- it calls, which is known by the address of its object.
pub record Hub : Type 1 where
  pub Signals : Type 0
  pub slots : ℤ → Signals → List (ℕ × ℕ)
  pub connect : ℤ → ℕ → Signals → ℕ × Signals
  pub disconnect : ℕ → Signals → Signals
  -- the signal of a token is erased from `_DataPack`
  pub erase : ℤ → Signals → Signals

abbrev pub without : ℕ → List (ℕ × ℕ) → List (ℕ × ℕ)
without c [] = []
without c ((d, a) ∷ ss) = let rest = without c ss in if d == c then rest else (d, a) ∷ rest

-- A new slot is called after the others, and a connection that is closed has no slot.
pub record IsHub (h : Hub) : Type 0 where
  pub slots-connect :
      (t j : ℤ) (a : ℕ) (s : h.Signals)
      → h.slots j (h.connect t a s).1
        ≡ (if t =?ℤ j then h.slots j s ++ ((h.connect t a s).0, a) ∷ [] else h.slots j s)
  pub slots-disconnect :
      (c : ℕ) (j : ℤ) (s : h.Signals) → h.slots j (h.disconnect c s) ≡ without c (h.slots j s)
  pub slots-erase :
      (t j : ℤ) (s : h.Signals) → h.slots j (h.erase t s) ≡ (if t =?ℤ j then [] else h.slots j s)

-- What the code gets from outside: the signals; what memory holds that an object without an
-- initialiser is made of; the bit pattern of a `long` as `double`; `std::hash` of a number; and the
-- products in single precision.
pub record Machine : Type 1 where
  pub hub : Hub
  pub stg : Strategy
  pub lot : ℤ
  pub oe : OeRequestTr
  pub om : OmRequestTr
  pub double_bits : ℤ → ℕ
  pub hash : ℤ → ℕ
  pub hit : FloatHit

-- An entry of `_StgClass`, with its address and its connections `_ct1` to `_ct3`.
pub record Node : Type 0 where
  pub address : ℕ
  pub stg : Strategy
  pub ct1 : Option ℕ
  pub ct2 : Option ℕ
  pub ct3 : Option ℕ

-- NFToken
pub record NfToken : Type 0 where
  pub near_token : ℤ
  pub far_token : ℤ
  pub token_three : ℤ
  pub pf_number : ℤ
  pub blq : ℤ

-- Calls that change what a socket delivers: the socket, and the token.
pub data SockCall : Type 0 where
  subscribe_token : ℤ → ℤ → SockCall
  un_subscribe_token : ℤ → ℤ → SockCall

-- `next_address` is where the next entry of `_StgClass` is made, `fill` is the global `_FillData`, and
-- `calls` are the calls of
-- SubscribeToken and UnSubscribeToken so far.
pub record AutoClient (h : Hub) : Type 0 where
  pub client_id : ℤ
  pub algo_id : ℤ
  pub stg_class : List (ℤ × Node)
  pub next_address : ℕ
  pub symbol_dictionary : List (ℤ × NfToken)
  pub data_pack : h.Signals
  pub sub_status : List (ℤ × Bool)
  pub datasock : ℤ
  pub calls : List SockCall
  pub cimlist : List (ℤ × ContractDetails)
  pub manual_order_store : List (ℤ × OmRequestTr)
  pub manual_pf : PfHolder
  pub manual_sh : StructHash
  pub current : Address
  pub fill : FillData
