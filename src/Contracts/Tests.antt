-- ===== src/Contracts/Tests.antt =====
-- The table of OrderServer-20151216-AtHome/ContractStore.h with contracts of the tokens 3 and 8,
-- which share a chain.
use jansan.Common.{◌≡◌, refl, some, List, [], ◌∷◌, ℤ, pos, ◌=?ℤ◌, if◌then◌else◌}
use jansan.Contracts.{
  zero_contract, ContractDetails, LinkedHash, HashMap, find_chain, insert1, find,
}
use jansan.Contracts.Record.{IsTable, find-insert1}

abbrev contract : ℤ → ContractDetails
contract token = record zero_contract { token = token }

abbrev entry : ℤ → LinkedHash
entry token = record { key = token; value = contract token }

abbrev two : List LinkedHash
two = entry (pos 3) ∷ entry (pos 8) ∷ []

abbrev table : HashMap
table = record { htable = [] ∷ [] ∷ [] ∷ two ∷ [] ∷ [] }

abbrev stack : ContractDetails
stack = contract (pos 0)

find-insert1_example :
    (g : HashMap) × (insert1 (pos 13) (contract (pos 13)) table ≡ some g)
    × IsTable g
    × (find stack (pos 8) g
        ≡ (if pos 13 =?ℤ pos 8 then some (contract (pos 13)) else find stack (pos 8) table))
unfolding find_chain
find-insert1_example = find-insert1 stack (contract (pos 13)) 13 8 table refl refl
