-- ===== src/Depth/Bimap/Assoc.antt =====
-- A map that has the operations of boost::bimap and keeps what the documentation says of them: a
-- list of order numbers with their prices, in which the first entry of a key counts.
use jansan.Common.{
  ◌≡◌, refl, subst, ◌⊎◌, inl, inr, Option, none, some, List, [], ◌∷◌, ℤ, ◌=?ℤ◌, ◌≤ℤ◌, leb_ℤ,
  if◌then◌else◌, All, =?ℤ→eq, if_intro, arith, sym, ◌∙◌,
}
use jansan.Depth.Bimap.{Bimap, IsBimap, or_else, replaced, IsHighest, IsLowest}

abbrev pub Entries : Type 0
Entries = List (ℤ × ℤ)

abbrev find : ℤ → Entries → Option ℤ
find k [] = none
find k ((j, p) ∷ m) = if j =?ℤ k then some p else find k m

abbrev add : Option ℤ → ℤ → ℤ → Entries → Entries
add none k p m = (k, p) ∷ m
add (some q) k p m = m

abbrev change : Option ℤ → ℤ → ℤ → Entries → Entries
change none k p m = m
change (some q) k p m = (k, p) ∷ m

abbrev drop_key : ℤ → Entries → Entries
drop_key k [] = []
drop_key k ((j, p) ∷ m) = let rest = drop_key k m in if j =?ℤ k then rest else (j, p) ∷ rest

abbrev pick : (ℤ → ℤ → ℤ) → Option ℤ → Option ℤ → Option ℤ
pick prefer none b = b
pick prefer (some p) none = some p
pick prefer (some p) (some q) = some (prefer p q)

abbrev best : (ℤ → ℤ → ℤ) → (ℤ → Option ℤ) → Entries → Option ℤ
best prefer look [] = none
best prefer look ((k, p) ∷ m) = pick prefer (look k) (best prefer look m)

abbrev max_ℤ : ℤ → ℤ → ℤ
max_ℤ p q = if leb_ℤ p q then q else p

abbrev min_ℤ : ℤ → ℤ → ℤ
min_ℤ p q = if leb_ℤ p q then p else q

abbrev pub assoc : Bimap
assoc = record {
  Map = Entries;
  empty = [];
  find = find;
  insert = λ k p m. add (find k m) k p m;
  replace_data = λ k p m. change (find k m) k p m;
  erase = drop_key;
  right_first = λ m. best max_ℤ (λ k. find k m) m;
  right_last = λ m. best min_ℤ (λ k. find k m) m;
}

find-add :
    (k j p : ℤ) (m : Entries) (o : Option ℤ)
    → find k m ≡ o
    → find j (add o k p m) ≡ (if k =?ℤ j then or_else o p else find j m)
find-add k j p m none e = refl
find-add k j p m (some q) e =
    if_intro (λ y. find j m ≡ y) (k =?ℤ j) (λ h. subst (λ i. find i m ≡ some q) (=?ℤ→eq k j h) e)
      λ _. refl

find-change :
    (k j p : ℤ) (m : Entries) (o : Option ℤ)
    → find k m ≡ o
    → find j (change o k p m) ≡ (if k =?ℤ j then replaced o p else find j m)
find-change k j p m none e =
    if_intro (λ y. find j m ≡ y) (k =?ℤ j) (λ h. subst (λ i. find i m ≡ none) (=?ℤ→eq k j h) e)
      λ _. refl
find-change k j p m (some q) e = refl

find-drop_key :
    (k j : ℤ) (m : Entries) → find j (drop_key k m) ≡ (if k =?ℤ j then none else find j m)
find-drop_key k j [] = if_intro (λ y. none ≡ y) (k =?ℤ j) (λ _. refl) λ _. refl
find-drop_key k j ((i, p) ∷ m) = ground (arith, find-drop_key k j m)

-- A predicate of every key that is written down holds of every key that is found.
keys_cover : (Q : ℤ → Type 0) (m : Entries) → All (λ e. Q e.0) m → (k : ℤ) → (find k m ≡ none) ⊎ Q k
keys_cover Q [] h k = inl refl
keys_cover Q ((j, p) ∷ m) (h, hs) k =
    if_intro (λ y. (y ≡ none) ⊎ Q k) (j =?ℤ k) (λ e. inr (subst Q (=?ℤ→eq j k e) h))
      λ _. keys_cover Q m hs k

All-map : (P Q : ℤ × ℤ → Type 0) (m : Entries) → ((e : ℤ × ℤ) → P e → Q e) → All P m → All Q m
All-map P Q [] f h = h
All-map P Q (e ∷ m) f (h, hs) = (f e h, All-map P Q m f hs)

-- What the best of the found prices is, for a preference that is as good as both its arguments.
module _ (R : ℤ → ℤ → Type 0) (look : ℤ → Option ℤ) where
  Found : ℤ → Type 0
  Found p = (k : ℤ) × (look k ≡ some p)

  Bound : ℤ → ℤ → Type 0
  Bound p k = (q : ℤ) → look k ≡ some q → R q p

  abbrev Best : Option ℤ → Entries → Type 0
  Best none m = All (λ e. look e.0 ≡ none) m
  Best (some p) m = Found p × All (λ e. Bound p e.0) m

  Bound-none : (p k : ℤ) → look k ≡ none → Bound p k
  unfolding Bound
  Bound-none p k e q e' = cc

  Bound-some : (a p k : ℤ) → look k ≡ some a → R a p → Bound p k
  unfolding Bound
  Bound-some a p k e r q e' = subst (λ x. R x p) (q_eq (sym e ∙ e')) r
    where
      q_eq : some a ≡ some q → a ≡ q
      q_eq h = cc

  module _ (prefer : ℤ → ℤ → ℤ) (R_refl : (a : ℤ) → R a a)
      (left : (a b c : ℤ) → R c a → R c (prefer a b))
      (right : (a b c : ℤ) → R c b → R c (prefer a b))
      (either : (a b : ℤ) → (prefer a b ≡ a) ⊎ (prefer a b ≡ b)) where
    Found-prefer : (a b : ℤ) → Found a → Found b → Found (prefer a b)
    Found-prefer a b f g = elim (either a b) [
      | inl e ↦ subst Found (sym e) f
      | inr e ↦ subst Found (sym e) g
    ]

    Bound-right : (a b k : ℤ) → Bound b k → Bound (prefer a b) k
    unfolding Bound
    Bound-right a b k h q e = right a b q (h q e)

    pick-Best :
        (k p : ℤ) (m : Entries) (o b : Option ℤ)
        → look k ≡ o
        → Best b m
        → Best (pick prefer o b) ((k, p) ∷ m)
    unfolding Found
    pick-Best k p m none none e h = (e, h)
    pick-Best k p m none (some q) e (f, h) = (f, (Bound-none q k e, h))
    pick-Best k p m (some a) none e h =
        ((k, e), (Bound-some a a k e (R_refl a), All-map _ _ m (λ i. Bound-none a i.0) h))
    pick-Best k p m (some a) (some b) e (f, h) = (
      Found-prefer a b (k, e) f,
      (Bound-some a _ k e (left a b a (R_refl a)), All-map _ _ m (λ i. Bound-right a b i.0) h),
    )

    best-Best : (m : Entries) → Best (best prefer look m) m
    best-Best [] = tt
    best-Best ((k, p) ∷ m) = pick-Best k p m (look k) (best prefer look m) refl (best-Best m)

max_left : (a b c : ℤ) → c ≤ℤ a → c ≤ℤ max_ℤ a b
max_left a b c h = ground arith

max_right : (a b c : ℤ) → c ≤ℤ b → c ≤ℤ max_ℤ a b
max_right a b c h = ground arith

max_either : (a b : ℤ) → (max_ℤ a b ≡ a) ⊎ (max_ℤ a b ≡ b)
max_either a b = if_intro (λ x. (x ≡ a) ⊎ (x ≡ b)) (leb_ℤ a b) (λ _. inr refl) λ _. inl refl

min_left : (a b c : ℤ) → a ≤ℤ c → min_ℤ a b ≤ℤ c
min_left a b c h = ground arith

min_right : (a b c : ℤ) → b ≤ℤ c → min_ℤ a b ≤ℤ c
min_right a b c h = ground arith

min_either : (a b : ℤ) → (min_ℤ a b ≡ a) ⊎ (min_ℤ a b ≡ b)
min_either a b = if_intro (λ x. (x ≡ a) ⊎ (x ≡ b)) (leb_ℤ a b) (λ _. inl refl) λ _. inr refl

ℤ_refl : (a : ℤ) → a ≤ℤ a
ℤ_refl a = omega arith

Best-IsHighest : (m : Entries) (b : Option ℤ) → Best ◌≤ℤ◌ (λ k. find k m) b m → IsHighest assoc b m
unfolding Found Bound
Best-IsHighest m none h =
    λ k. elim (keys_cover (λ i. find i m ≡ none) m h k) [ inl e ↦ e | inr e ↦ e ]
Best-IsHighest m (some p) (f, h) = (
  f,
  λ k q e. elim (keys_cover (Bound ◌≤ℤ◌ (λ i. find i m) p) m h k) [ inl e' ↦ cc | inr g ↦ g q e ],
)

Best-IsLowest :
    (m : Entries) (b : Option ℤ) → Best (λ q p. p ≤ℤ q) (λ k. find k m) b m → IsLowest assoc b m
unfolding Found Bound
Best-IsLowest m none h =
    λ k. elim (keys_cover (λ i. find i m ≡ none) m h k) [ inl e ↦ e | inr e ↦ e ]
Best-IsLowest m (some p) (f, h) = (
  f,
  λ k q e. elim (keys_cover (Bound (λ a c. c ≤ℤ a) (λ i. find i m) p) m h k) [
    | inl e' ↦ cc
    | inr g ↦ g q e
  ],
)

pub assoc-IsBimap : IsBimap assoc
assoc-IsBimap = record {
  find-empty = λ k. refl;
  find-insert = λ k j p m. find-add k j p m (find k m) refl;
  find-replace = λ k j p m. find-change k j p m (find k m) refl;
  find-erase = find-drop_key;
  highest = λ m.
      Best-IsHighest m (best max_ℤ (λ k. find k m) m)
        (best-Best _ _ _ ℤ_refl max_left max_right max_either m);
  lowest = λ m.
      Best-IsLowest m (best min_ℤ (λ k. find k m) m)
        (best-Best _ _ _ ℤ_refl min_left min_right min_either m);
}
