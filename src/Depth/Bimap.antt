-- ===== src/Depth/Bimap.antt =====
-- The container boost::bimap<double, multiset_of<int, std::greater<int>>>, which the books of the
-- market data server use (Depth Data 20151224/TokenWiseClass.h) and which is not part of the
-- repository: its operations, with what its documentation says of them. The left side maps an order
-- number to one price, the right side has the prices from the highest to the lowest. A comment at
-- the declaration says that std::greater does not work as expected there; the laws `highest` and
-- `lowest` state what the library documents for it, and only the published prices rest on them.
pub mod Assoc
use jansan.Common.{◌≡◌, ◌≢◌, Option, none, some, ℤ, ◌=?ℤ◌, ◌≤ℤ◌, if◌then◌else◌}

pub record Bimap : Type 1 where
  pub Map : Type 0
  pub empty : Map
  -- left.find
  pub find : ℤ → Map → Option ℤ
  -- insert, which refuses a key that is there
  pub insert : ℤ → ℤ → Map → Map
  -- left.replace_data at the entry of a key
  pub replace_data : ℤ → ℤ → Map → Map
  -- left.erase at the entry of a key
  pub erase : ℤ → Map → Map
  -- the price of the first and of the last entry on the right
  pub right_first : Map → Option ℤ
  pub right_last : Map → Option ℤ

-- A price is in the map under some key.
abbrev pub Has : (b : Bimap) → ℤ → b.Map → Type 0
Has b p m = (k : ℤ) × (b.find k m ≡ some p)

-- The first entry on the right, if the map is not empty, has the highest price, and the last the
-- lowest.
abbrev pub IsHighest : (b : Bimap) → Option ℤ → b.Map → Type 0
IsHighest b none m = (k : ℤ) → b.find k m ≡ none
IsHighest b (some p) m = Has b p m × ((k q : ℤ) → b.find k m ≡ some q → q ≤ℤ p)

abbrev pub IsLowest : (b : Bimap) → Option ℤ → b.Map → Type 0
IsLowest b none m = (k : ℤ) → b.find k m ≡ none
IsLowest b (some p) m = Has b p m × ((k q : ℤ) → b.find k m ≡ some q → p ≤ℤ q)

abbrev pub or_else : Option ℤ → ℤ → Option ℤ
or_else none p = some p
or_else (some q) p = some q

abbrev pub replaced : Option ℤ → ℤ → Option ℤ
replaced none p = none
replaced (some q) p = some p

pub record IsBimap (b : Bimap) : Type 0 where
  pub find-empty : (k : ℤ) → b.find k b.empty ≡ none
  pub find-insert :
      (k j p : ℤ) (m : b.Map)
      → b.find j (b.insert k p m) ≡ (if k =?ℤ j then or_else (b.find k m) p else b.find j m)
  pub find-replace :
      (k j p : ℤ) (m : b.Map)
      → b.find j (b.replace_data k p m) ≡ (if k =?ℤ j then replaced (b.find k m) p else b.find j m)
  pub find-erase :
      (k j : ℤ) (m : b.Map) → b.find j (b.erase k m) ≡ (if k =?ℤ j then none else b.find j m)
  pub highest : (m : b.Map) → IsHighest b (b.right_first m) m
  pub lowest : (m : b.Map) → IsLowest b (b.right_last m) m
