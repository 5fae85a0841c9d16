-- ===== src/Contracts/Lookup.antt =====
-- Chains: what `Find` sees after `Insert1` and `Delete`.
use jansan.Common.{◌≡◌, ◌≢◌, refl, none, some, List, [], ◌∷◌, ◌++◌, ℤ, =?ℤ_refl, arith, =?ℤ→eq}
use jansan.Contracts.{ContractDetails, LinkedHash, insert_chain, find_chain, delete_chain}

-- A key that is not there is found with its value after the insertion.
pub find-insert_fresh :
    (k : ℤ) (v : ContractDetails) (c : List LinkedHash)
    → find_chain k c ≡ none
    → find_chain k (insert_chain k v c) ≡ some v
unfolding find_chain insert_chain
find-insert_fresh k v [] h = rw (=?ℤ_refl k)
find-insert_fresh k v (e ∷ []) h = ground (arith, =?ℤ_refl k)
find-insert_fresh k v (e ∷ f ∷ rest) h = ground (arith, find-insert_fresh k v (f ∷ rest))

-- An insertion under one key changes the look-up of no other.
pub find-insert_other :
    (k j : ℤ) (v : ContractDetails) (c : List LinkedHash)
    → k ≢ j
    → find_chain j (insert_chain k v c) ≡ find_chain j c
unfolding find_chain insert_chain
find-insert_other k j v [] h = ground (arith, =?ℤ→eq k j)
find-insert_other k j v (e ∷ []) h = ground (arith, =?ℤ→eq k j, =?ℤ→eq e.key k)
find-insert_other k j v (e ∷ f ∷ rest) h = ground (arith, find-insert_other k j v (f ∷ rest) h)

-- An insertion under a key that stands in the chain before its last entry is lost: the look-up still
-- gives the old value.
find-insert_stale :
    (k : ℤ) (v old : ContractDetails) (front : List LinkedHash) (last : LinkedHash)
    → find_chain k front ≡ some old
    → find_chain k (insert_chain k v (front ++ last ∷ [])) ≡ some old
unfolding find_chain insert_chain
find-insert_stale k v old [] last h = absurd (cc h)
find-insert_stale k v old (e ∷ []) last h = ground arith
find-insert_stale k v old (e ∷ f ∷ rest) last h =
    ground (arith, find-insert_stale k v old (f ∷ rest) last)

-- A deletion under one key changes the look-up of no other.
find-delete_other :
    (k j : ℤ) (c : List LinkedHash) → k ≢ j → find_chain j (delete_chain k c) ≡ find_chain j c
unfolding find_chain delete_chain
find-delete_other k j [] h = refl
find-delete_other k j (e ∷ rest) h =
    ground (arith, =?ℤ→eq e.key k, =?ℤ→eq e.key j, find-delete_other k j rest h)

-- Deleting a key that was inserted afresh gives the chain back.
delete-insert_fresh :
    (k : ℤ) (v : ContractDetails) (c : List LinkedHash)
    → find_chain k c ≡ none
    → delete_chain k (insert_chain k v c) ≡ c
unfolding find_chain insert_chain delete_chain
delete-insert_fresh k v [] h = rw (=?ℤ_refl k)
delete-insert_fresh k v (e ∷ []) h = ground (arith, =?ℤ_refl k)
delete-insert_fresh k v (e ∷ f ∷ rest) h = ground (arith, delete-insert_fresh k v (f ∷ rest))
