-- ===== src/Contracts.antt =====
-- OrderServer-20151216-AtHome/ContractStore.h: the chained hash table `HashMap` of contracts and the
-- `ContractHashMap` over it, which holds a mutex through each call.
pub mod Lookup
pub mod Record
pub mod Tests
use jansan.Common.{
  ℕ, zero, suc, ◌+◌, ◌%◌, ◌≡◌, Option, none, some, List, [], ◌∷◌, ℤ, pos, negsuc, ◌=?ℤ◌,
  if◌then◌else◌, get_or, set,
}

-- ContractDetails of include/Enums.h. A text is its characters.
pub record ContractDetails : Type 0 where
  pub token : ℤ
  pub asset_token : ℤ
  pub instrument_name : List ℕ
  pub symbol : List ℕ
  pub series : List ℕ
  pub expiry_date : ℤ
  pub strike_price : ℤ
  pub option_type : List ℕ
  pub board_lot_quantity : ℤ

abbrev pub zero_contract : ContractDetails
zero_contract = record {
  token = pos 0;
  asset_token = pos 0;
  instrument_name = [];
  symbol = [];
  series = [];
  expiry_date = pos 0;
  strike_price = pos 0;
  option_type = [];
  board_lot_quantity = pos 0;
}

abbrev pub table_size : ℕ
table_size = 5

-- LinkedHash: a chain is the list of its entries.
pub record LinkedHash : Type 0 where
  pub key : ℤ
  pub value : ContractDetails

pub record HashMap : Type 0 where
  pub htable : List (List LinkedHash)

unfoldable pub create : HashMap
create = record { htable = [] ∷ [] ∷ [] ∷ [] ∷ [] ∷ [] }

-- `key % TABLE_SIZE`, which is negative for some negative keys: then the program reads outside of the
-- table, which is `none` here.
unfoldable pub hash_func : ℤ → Option ℕ
hash_func (pos n) = some (n % 5)
hash_func (negsuc n) = let r = (n + 1) % 5 in elim r [ zero ↦ some 0 | suc _ ↦ none ]

abbrev pub chain : HashMap → ℕ → List LinkedHash
chain h i = get_or h.htable i []

abbrev pub with_chain : HashMap → ℕ → List LinkedHash → HashMap
with_chain h i c = record { htable = set h.htable i c }

-- The walk of `Insert1` goes to the last entry, and compares the key there.
unfoldable pub insert_chain : ℤ → ContractDetails → List LinkedHash → List LinkedHash
insert_chain k v [] = record { key = k; value = v } ∷ []
insert_chain k v (e ∷ []) =
    if e.key =?ℤ k then record e { value = v } ∷ [] else e ∷ record { key = k; value = v } ∷ []
insert_chain k v (e ∷ f ∷ rest) = e ∷ insert_chain k v (f ∷ rest)

-- The walk of `Find` stops at the first entry with the key.
unfoldable pub find_chain : ℤ → List LinkedHash → Option ContractDetails
find_chain k [] = none
find_chain k (e ∷ rest) = if e.key =?ℤ k then some e.value else find_chain k rest

-- `Delete` unlinks the first entry with the key.
unfoldable pub delete_chain : ℤ → List LinkedHash → List LinkedHash
delete_chain k [] = []
delete_chain k (e ∷ rest) = if e.key =?ℤ k then rest else e ∷ delete_chain k rest

abbrev at_chain {ℓ} : {A : Type ℓ} → ℤ → (ℕ → A) → Option A
at_chain k f = elim (hash_func k) [ none ↦ none | some i ↦ some (f i) ]

unfoldable pub insert1 : ℤ → ContractDetails → HashMap → Option HashMap
insert1 k v h = at_chain k (λ i. with_chain h i (insert_chain k v (chain h i)))

-- The contract of a key that is not there: its token is -1, and the rest is what the `stack` holds.
abbrev pub missing : ContractDetails → ContractDetails
missing stack = record stack { token = negsuc 0 }

abbrev pub found_or : ContractDetails → Option ContractDetails → ContractDetails
found_or d none = d
found_or d (some c) = c

unfoldable pub find : ContractDetails → ℤ → HashMap → Option ContractDetails
find stack k h = at_chain k (λ i. found_or (missing stack) (find_chain k (chain h i)))

unfoldable pub delete : ℤ → HashMap → Option HashMap
delete k h = at_chain k (λ i. with_chain h i (delete_chain k (chain h i)))

pub record ContractHashMap : Type 0 where
  pub hash : HashMap
  pub key : ℤ

unfoldable pub add_record : ContractDetails → ContractHashMap → Option ContractHashMap
add_record c m = elim (insert1 c.token c m.hash) [
  | none ↦ none
  | some h ↦ some (record m { hash = h })
]

-- `return hash.Find(key)` reads the member, and not the parameter `Key`.
unfoldable pub get_record : ContractDetails → ℤ → ContractHashMap → Option ContractDetails
get_record stack wanted m = find stack m.key m.hash
