-- ===== src/Handler.antt =====
-- class ClientHandler of OrderServer-20151216-AtHome (include/ClientHandler.h, src/ClientHandler.cpp):
-- it answers the packets of the front ends, and gives what they ask for to the AutoClient of that
-- client. The global `_ContMap` and `_FillData` are part of its state. The signals OnLogin, OnHeartBeat
-- and OnOrder, which are never raised, and AutoCountID, which is only printed, are left out.
pub mod Receive
pub mod Kept
pub mod History
pub mod Presence
pub mod Replies
pub mod Tests
use jansan.Common.{
  Bool, true, Option, none, some, List, [], ◌∷◌, ℤ, pos, ◌+ℤ◌, ◌=?ℤ◌, if◌then◌else◌,
}
use jansan.Common.Maps.{lookup, assign, remove, or_new}
use jansan.Common.Words.{to_int}
use jansan.Messages.{FoPair, FoPairDiff, OeRequestTr, OmRequestTr}
use jansan.Queue.{FillData}
use jansan.Contracts.{ContractDetails}
use jansan.Client.{Machine, AutoClient}
use jansan.Client.Stop.{dispose}

-- MessageType
abbrev pub e_login : ℤ
e_login = pos 67

abbrev pub e_iocpair : ℤ
e_iocpair = pos 73

abbrev pub e_iocpairunsub : ℤ
e_iocpairunsub = pos 74

abbrev pub e_iocpairdiff : ℤ
e_iocpairdiff = pos 75

abbrev pub e_manual_ord : ℤ
e_manual_ord = pos 85

-- C_SignIn, the fields that are read or set.
pub record SignIn : Type 0 where
  pub transection_code : ℤ
  pub clint_id : ℤ
  pub status : ℤ

-- A packet of a front end: the number of its bytes, InHeader, and the bytes after that as each of the
-- types that they are copied into; `t_code` are the bytes 26 and 27 of them.
pub record Request : Type 0 where
  pub size : ℤ
  pub transection_code : ℤ
  pub clint_id : ℤ
  pub sign_in : SignIn
  pub fo_pair : FoPair
  pub fo_pair_diff : FoPairDiff
  pub t_code : ℤ
  pub moe : OeRequestTr
  pub mom : OmRequestTr

-- What is sent: ClientUpdateMsg on FESock of the client, PFUpdateMsg on IPCSock, and the reply.
pub data Sent : Type 0 where
  client_update : ℤ → SignIn → Sent
  pf_update : ℤ → FoPair → Sent
  reply : Request → Sent

module _ (m : Machine) where
  pub record Server : Type 0 where
    pub stg_map : List (ℤ × AutoClient m.hub)
    pub cimlist : List (ℤ × ContractDetails)
    pub load_cim_list : Bool
    pub cont_map : List ContractDetails
    pub auto_stg_id : ℤ
    pub fill : FillData

  -- A client works on the queues that all of them share.
  abbrev pub working : Server → AutoClient m.hub → AutoClient m.hub
  working s c = record c { fill = s.fill }

  abbrev with_contracts :
      List ContractDetails → List (ℤ × ContractDetails) → List (ℤ × ContractDetails)
  with_contracts [] list = list
  with_contracts (cd ∷ cds) list = with_contracts cds (assign cd.token cd list)

  unfoldable pub contract_filefun : Server → Server
  contract_filefun s = record s { cimlist = with_contracts s.cont_map s.cimlist }

  -- std::map::insert of a range: an entry that is there stays.
  abbrev kept_or_new : ℤ × ContractDetails → List (ℤ × ContractDetails) → List (ℤ × ContractDetails)
  kept_or_new (k, cd) list = assign k (or_new cd (lookup k list)) list

  abbrev inserted :
      List (ℤ × ContractDetails) → List (ℤ × ContractDetails) → List (ℤ × ContractDetails)
  inserted [] list = list
  inserted (e ∷ es) list = inserted es (kept_or_new e list)

  unfoldable pub in_it_cim : List (ℤ × ContractDetails) → AutoClient m.hub → AutoClient m.hub
  in_it_cim all c = record c { cimlist = inserted all c.cimlist }

  -- Dispose, and the entry of the client is erased.
  unfoldable pub disposed : ℤ → AutoClient m.hub → Server → Server
  disposed cid c s = record s {
    stg_map = remove cid s.stg_map;
    fill = (dispose (working s c)).fill;
  }

  abbrev pub logged_out : ℤ → Server → Option (AutoClient m.hub) → Server
  logged_out cid s none = s
  logged_out cid s (some c) = disposed cid c s

  -- `new AutoClient()`, on what memory holds, with no signals.
  abbrev pub new_client : AutoClient m.hub → m.hub.Signals → ℤ → AutoClient m.hub
  new_client blank signals cid = record blank {
    client_id = cid;
    algo_id = pos 201010001823000;
    stg_class = [];
    symbol_dictionary = [];
    data_pack = signals;
    sub_status = [];
    calls = [];
    cimlist = [];
    manual_order_store = [];
  }

  abbrev pub loaded : Server → Server
  loaded s = if s.load_cim_list then s else record (contract_filefun s) { load_cim_list = true }

  module _ (blank : AutoClient m.hub) (signals : m.hub.Signals) where
    -- Login of a client that is there only disposes it; the front end hears nothing then.
    abbrev pub logged_in : SignIn → Server → Option (AutoClient m.hub) → Server × List Sent
    logged_in pack s (some c) = (disposed pack.clint_id c s, [])
    logged_in pack s none =
        let loaded_ = loaded s in
        let c = in_it_cim loaded_.cimlist (new_client blank signals pack.clint_id) in
        (
          record loaded_ {
            stg_map = assign pack.clint_id c s.stg_map;
            auto_stg_id = to_int (s.auto_stg_id +ℤ pos 1);
          },
          client_update pack.clint_id (record pack { status = pos 201 }) ∷ [],
        )

    unfoldable pub login : SignIn → Server → Server × List Sent
    login pack s =
        if pack.transection_code =?ℤ pos 2320
        then (logged_out pack.clint_id s (lookup pack.clint_id s.stg_map), [])
        else logged_in pack s (lookup pack.clint_id s.stg_map)
