-- ===== src/Client/Prices.antt =====
-- AutoClient::Datasubscriber (OrderServer-20151216-AtHome/src/AutoClient.cpp): a price is handed to the
-- strategies that are connected to the signal of its token, one after the other.
pub mod Slots
use jansan.Common.{ℕ, Option, none, some, List, [], ◌∷◌, ℤ, ◌==◌, if◌then◌else◌}
use jansan.Messages.{FinalPrice}
use jansan.Strategy.{Strategy, World}
use jansan.Strategy.Quote.{on_data}
use jansan.Client.{Hub, Node, AutoClient}

-- The entry at an address; `none` if the object there has been destroyed.
unfoldable pub entry_at : ℕ → List (ℤ × Node) → Option Node
entry_at a [] = none
entry_at a ((k, node) ∷ m) = if node.address == a then some node else entry_at a m

-- The object at an address has become this strategy.
unfoldable pub write_at : ℕ → Strategy → List (ℤ × Node) → List (ℤ × Node)
write_at a s [] = []
write_at a s ((k, node) ∷ m) =
    let rest = write_at a s m in
    if node.address == a then (k, record node { stg = s }) ∷ m else (k, node) ∷ rest

module _ {h : Hub} where
  abbrev pub handed : FinalPrice → ℕ → AutoClient h → Option Node → Option (AutoClient h)
  handed fp a c none = none
  handed fp a c (some node) =
      let w = on_data fp (record { stg = node.stg; fill = c.fill }) in
      some (record c { stg_class = write_at a w.stg c.stg_class; fill = w.fill })

  abbrev pub and_on :
      (AutoClient h → Option (AutoClient h)) → Option (AutoClient h) → Option (AutoClient h)
  and_on k none = none
  and_on k (some c) = k c

  -- A call through a slot whose strategy is gone is undefined.
  unfoldable pub call_slots : FinalPrice → List (ℕ × ℕ) → AutoClient h → Option (AutoClient h)
  call_slots fp [] c = some c
  call_slots fp ((conn, a) ∷ ss) c =
      and_on (call_slots fp ss) (handed fp a c (entry_at a c.stg_class))

  unfoldable pub deliver : FinalPrice → AutoClient h → Option (AutoClient h)
  deliver fp c = call_slots fp (h.slots fp.token c.data_pack) c
