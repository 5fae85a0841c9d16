-- ===== src/Contracts/Record.antt =====
-- The table as a map from tokens to contracts, and `ContractHashMap` over it.
use native.Mathlib.Decide.{ℕ_discrete}
use jansan.Common.{
  ℕ, ◌%◌, ◌<◌, ◌≡◌, ◌≢◌, refl, pos_part, [], ◌∙◌, ap, subst, none, some, List, pos, ◌=?ℤ◌, arith,
  if◌then◌else◌, length, length-set, get_or-set_self, get_or-set_ne, Bool-cases, inl, inr, =?ℤ→eq,
  =?ℤ→ne, false,
}
use jansan.Contracts.{
  ContractDetails, LinkedHash, HashMap, ContractHashMap, insert1, find, find_chain, insert_chain,
  chain, with_chain, missing, found_or, add_record, get_record, hash_func,
}
use jansan.Contracts.Lookup.{find-insert_fresh, find-insert_other}

abbrev pub IsTable : HashMap → Type 0
IsTable h = length h.htable ≡ 5

-- No entry of the table has the token n.
abbrev pub IsFresh : ℕ → HashMap → Type 0
IsFresh n h = find_chain (pos n) (chain h (n % 5)) ≡ none

-- The table after `Insert1` of a contract under the token n.
abbrev inserted : ℕ → ContractDetails → HashMap → HashMap
inserted n v h = with_chain h (n % 5) (insert_chain (pos n) v (chain h (n % 5)))

chain_self :
    (h : HashMap) (i : ℕ) (c : List LinkedHash) → IsTable h → i < 5 → chain (with_chain h i c) i ≡ c
chain_self h i c t l = get_or-set_self h.htable i c _ (omega (arith, t))

find_chain-inserted_other :
    (v : ContractDetails) (n j : ℕ) (h : HashMap)
    → IsTable h
    → pos n ≢ pos j
    → find_chain (pos j) (chain (inserted n v h) (j % 5)) ≡ find_chain (pos j) (chain h (j % 5))
find_chain-inserted_other v n j h t ne =
    let c = insert_chain (pos n) v (chain h (n % 5)) in
    elim (ℕ_discrete (n % 5) (j % 5)) [
      | yes e ↦ rw (← e) (
          ap (find_chain (pos j)) (chain_self h (n % 5) c t (omega arith))
          ∙ find-insert_other (pos n) (pos j) v (chain h (n % 5)) ne)
      | no other ↦ ap (find_chain (pos j)) (get_or-set_ne h.htable (n % 5) (j % 5) c [] other)
    ]

find_chain-inserted_self :
    (v : ContractDetails) (n : ℕ) (h : HashMap)
    → IsTable h
    → IsFresh n h
    → find_chain (pos n) (chain (inserted n v h) (n % 5)) ≡ some v
find_chain-inserted_self v n h t f =
    let c = insert_chain (pos n) v (chain h (n % 5)) in
    ap (find_chain (pos n)) (chain_self h (n % 5) c t (omega arith))
    ∙ find-insert_fresh (pos n) v (chain h (n % 5)) f

found-inserted :
    (stack v : ContractDetails) (n j : ℕ) (h : HashMap)
    → IsTable h
    → IsFresh n h
    → find stack (pos j) (inserted n v h)
      ≡ (if pos n =?ℤ pos j then some v else find stack (pos j) h)
unfolding find hash_func
found-inserted stack v n j h t f = elim (Bool-cases (pos n =?ℤ pos j)) [
  | inl e ↦
      let same : n ≡ j = ap pos_part (=?ℤ→eq (pos n) (pos j) e) in
      rw e (
        ap (λ o. some (found_or (missing stack) o))
          (subst (λ m. find_chain (pos m) (chain (inserted n v h) (m % 5)) ≡ some v) same
            (find_chain-inserted_self v n h t f)))
  | inr ne ↦ rw ne (
      ap (λ o. some (found_or (missing stack) o))
        (find_chain-inserted_other v n j h t (=?ℤ→ne (pos n) (pos j) ne)))
]

-- The table behaves as a map for new tokens: after `Insert1` of a contract whose token is not there,
-- `Find` gives it for its token, and for any other token what it gave before.
pub find-insert1 :
    (stack v : ContractDetails) (n j : ℕ) (h : HashMap)
    → IsTable h
    → IsFresh n h
    → (g : HashMap) × (insert1 (pos n) v h ≡ some g)
      × IsTable g
      × (find stack (pos j) g ≡ (if pos n =?ℤ pos j then some v else find stack (pos j) h))
unfolding insert1 hash_func
find-insert1 stack v n j h t f =
    (inserted n v h, refl, length-set h.htable (n % 5) _ ∙ t, found-inserted stack v n j h t f)

-- `GetRecord` does not look at its argument: whatever contract was added under a new token, it answers
-- with what the table holds for the member `key`, so another contract than the one that was asked for.
get_record-add_record :
    (stack c : ContractDetails) (n j : ℕ) (m : ContractHashMap)
    → c.token ≡ pos n
    → m.key ≡ pos j
    → n ≢ j
    → IsTable m.hash
    → IsFresh n m.hash
    → (g : ContractHashMap) × (add_record c m ≡ some g)
      × (get_record stack (pos n) g ≡ find stack (pos j) m.hash)
unfolding add_record get_record
get_record-add_record stack c n j m ec ek ne t f =
    let (h, added, _, found) = find-insert1 stack c n j m.hash t f in
    let apart : (pos n =?ℤ pos j) ≡ false = ground arith in
    (record m { hash = h }, simp (ec, added, add_record), simp (ek, get_record) (rw apart at found))
