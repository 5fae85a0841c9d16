-- ===== src/Depth/Book/Abstract.antt =====
-- A book as a trader sees it (Depth Data 20151224/TokenWiseClass.h): on each side, the price of every
-- live order. The operations of `BimapDataClass` are the operations on these two maps.
use jansan.Common.{
  ◌≡◌, refl, Option, none, some, false, ℤ, pos, ◌=?ℤ◌, if◌then◌else◌, if_intro, =?ℤ→eq,
  Option-cases, inl, inr, subst, Bool-cases,
}
use jansan.Depth.Bimap.{Bimap, IsBimap, or_else}
use jansan.Depth.Book.{Book, insert, update_side, update, delete_side, delete, cross_check_price}

abbrev pub Prices : Type 0
Prices = ℤ → Option ℤ

pub record Orders : Type 0 where
  pub bids : Prices
  pub asks : Prices

abbrev pub enter : ℤ → ℤ → Prices → Prices
enter k p f = λ j. if k =?ℤ j then or_else (f k) p else f j

abbrev pub amend : ℤ → ℤ → Prices → Prices
amend k p f = λ j. if k =?ℤ j then some p else f j

abbrev pub withdraw : ℤ → Prices → Prices
withdraw k f = λ j. if k =?ℤ j then none else f j

-- An operation on the side that a message names.
abbrev pub at_side : ℤ → (Prices → Prices) → Orders → Orders
at_side side f o =
    if side =?ℤ pos 1 then record o { bids = f o.bids } else record o { asks = f o.asks }

module _ (b : Bimap) (laws : IsBimap b) (past_end : b.Map → ℤ) where
  abbrev pub IsOf : Prices → b.Map → Type 0
  IsOf f m = (j : ℤ) → b.find j m ≡ f j

  abbrev pub Shows : Orders → Book b → Type 0
  Shows o s = IsOf o.bids s.bid_data × IsOf o.asks s.ask_data

  insert-IsOf : (k p : ℤ) (f : Prices) (m : b.Map) → IsOf f m → IsOf (enter k p f) (b.insert k p m)
  insert-IsOf k p f m h j = rw (laws.find-insert k j p m, h k, h j) refl

  delete_side-IsOf :
      (k : ℤ) (f : Prices) (m : b.Map) → IsOf f m → IsOf (withdraw k f) (delete_side b past_end k m)
  unfolding delete_side
  delete_side-IsOf k f m h j = elim (Option-cases (b.find k m)) [
    | inl e ↦
        rw (e, delete_side)
          (if_intro (λ y. b.find j m ≡ y) (k =?ℤ j)
            (λ q. subst (λ i. b.find i m ≡ none) (=?ℤ→eq k j q) e) λ _. h j)
    | inr (p, e) ↦ rw (e, delete_side, laws.find-erase k j m, h j) refl
  ]

  -- The hypothesis is that what is read at the end of the map is not the number of the order.
  update_side-IsOf :
      (k p : ℤ) (f : Prices) (m : b.Map)
      → IsOf f m
      → (past_end m =?ℤ k) ≡ false
      → (n : b.Map) × (update_side b past_end k p m ≡ some n) × IsOf (amend k p f) n
  unfolding update_side
  update_side-IsOf k p f m h safe = elim (Option-cases (b.find k m)) [
    | inl e ↦ (
      b.insert k p m,
      rw (e, update_side, safe) refl,
      λ j. rw (laws.find-insert k j p m, e, h j) refl,
    )
    | inr (q, e) ↦ (
      b.replace_data k p m,
      rw (e, update_side) refl,
      λ j. rw (laws.find-replace k j p m, e, h j) refl,
    )
  ]

  pub insert-Shows :
      (k p side : ℤ) (o : Orders) (s : Book b)
      → Shows o s
      → Shows (at_side side (enter k p) o) (insert b past_end k p side s)
  unfolding insert cross_check_price
  insert-Shows k p side o s (hb, ha) = elim (Bool-cases (side =?ℤ pos 1)) [
    | inl e ↦ rw e (insert-IsOf k p o.bids s.bid_data hb, ha)
    | inr e ↦ rw e (hb, insert-IsOf k p o.asks s.ask_data ha)
  ]

  -- The published prices are left alone.
  pub insert_fp : (k p side : ℤ) (s : Book b) → (insert b past_end k p side s).fp ≡ s.fp
  unfolding insert cross_check_price
  insert_fp k p side s = elim (Bool-cases (side =?ℤ pos 1)) [
    | inl e ↦ rw e refl
    | inr e ↦ rw e refl
  ]

  pub delete_fp : (k side : ℤ) (s : Book b) → (delete b past_end k side s).fp ≡ s.fp
  unfolding delete
  delete_fp k side s = elim (Bool-cases (side =?ℤ pos 1)) [ inl e ↦ rw e refl | inr e ↦ rw e refl ]

  pub delete-Shows :
      (k side : ℤ) (o : Orders) (s : Book b)
      → Shows o s
      → Shows (at_side side (withdraw k) o) (delete b past_end k side s)
  unfolding delete
  delete-Shows k side o s (hb, ha) = elim (Bool-cases (side =?ℤ pos 1)) [
    | inl e ↦ rw e (delete_side-IsOf k o.bids s.bid_data hb, ha)
    | inr e ↦ rw e (hb, delete_side-IsOf k o.asks s.ask_data ha)
  ]

  pub update-Shows :
      (k p side : ℤ) (o : Orders) (s : Book b)
      → Shows o s
      → ((m : b.Map) → (past_end m =?ℤ k) ≡ false)
      → (t : Book b) × (update b past_end k p side s ≡ some t)
        × Shows (at_side side (amend k p) o) t
        × (t.fp ≡ s.fp)
  unfolding update cross_check_price
  update-Shows k p side o s (hb, ha) safe = elim (Bool-cases (side =?ℤ pos 1)) [
    | inl e ↦
        let (n, eq, h) = update_side-IsOf k p o.bids s.bid_data hb (safe s.bid_data) in
        (record s { bid_data = n }, rw (e, eq) refl, rw e (h, ha), refl)
    | inr e ↦
        let (n, eq, h) = update_side-IsOf k p o.asks s.ask_data ha (safe s.ask_data) in
        (record s { ask_data = n }, rw (e, eq) refl, rw e (hb, h), refl)
  ]
