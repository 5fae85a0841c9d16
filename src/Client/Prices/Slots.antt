-- ===== src/Client/Prices/Slots.antt =====
-- The slots of the signals of an AutoClient (OrderServer-20151216-AtHome/src/AutoClient.cpp), and the
-- strategies that they call.
use jansan.Common.{
  ℕ, ◌≡◌, refl, sym, ◌∙◌, ap, subst, arith, Bool, true, false, ◌||◌, Option, none, some, List, [],
  ◌∷◌, ◌++◌, ℤ, ◌=?ℤ◌, =?ℤ→eq, ◌==◌, if_intro, Bool-cases, inl, inr,
}
use jansan.Common.Maps.{lookup, assign, lookup-assign, or_new}
use jansan.Strategy.{Strategy}
use jansan.Client.{Hub, IsHub, without, Node}
use jansan.Client.Prices.{entry_at, write_at}
use jansan.Client.Pairs.{disconnect_if}

abbrev pub Each : (ℕ → ℕ → Type 0) → List (ℕ × ℕ) → Type 0
Each P [] = Unit {0}
Each P ((c, a) ∷ ss) = P c a × Each P ss

pub Each-map :
    (P Q : ℕ → ℕ → Type 0)
    → ((c a : ℕ) → P c a → Q c a)
    → (ss : List (ℕ × ℕ)) → Each P ss
    → Each Q ss
Each-map P Q f [] h = tt
Each-map P Q f ((c, a) ∷ ss) (p, ps) = (f c a p, Each-map P Q f ss ps)

Each-append :
    (P : ℕ → ℕ → Type 0) (c a : ℕ) (ss : List (ℕ × ℕ))
    → Each P ss
    → P c a
    → Each P (ss ++ (c, a) ∷ [])
Each-append P c a [] h p = (p, tt)
Each-append P c a ((d, b) ∷ ss) (q, qs) p = (q, Each-append P c a ss qs p)

Each-without :
    (P Q : ℕ → ℕ → Type 0) (d : ℕ)
    → ((c a : ℕ) → (c == d) ≡ false → P c a → Q c a)
    → (ss : List (ℕ × ℕ)) → Each P ss
    → Each Q (without d ss)
Each-without P Q d f [] h = tt
Each-without P Q d f ((c, a) ∷ ss) (p, ps) =
    let rest = Each-without P Q d f ss ps in
    if_intro (Each Q) (c == d) (λ _. rest) λ ne. (f c a ne p, rest)

abbrev pub is : ℕ → Option ℕ → Bool
is c none = false
is c (some d) = c == d

abbrev pub is_ct : ℕ → Node → Bool
is_ct c n = is c n.ct1 || is c n.ct2 || is c n.ct3

-- The slot of a connection calls a strategy that is there, and that will close the connection.
pub record Owner (m : List (ℤ × Node)) (conn a : ℕ) : Type 0 where
  pub pf : ℤ
  pub node : Node
  pub there : lookup pf m ≡ some node
  pub address : node.address ≡ a
  pub closes : is_ct conn node ≡ true

-- Every strategy of a map stays in another one, where it was and with its connections.
pub record Stays (m : List (ℤ × Node)) (pf : ℤ) (n : Node) (m' : List (ℤ × Node)) : Type 0 where
  pub later : Node
  pub there : lookup pf m' ≡ some later
  pub address : later.address ≡ n.address
  pub closes : (conn : ℕ) → is_ct conn n ≡ true → is_ct conn later ≡ true

abbrev pub Onto : List (ℤ × Node) → List (ℤ × Node) → Type 0
Onto m m' = (pf : ℤ) (n : Node) → lookup pf m ≡ some n → Stays m pf n m'

pub Owner-Onto :
    (m m' : List (ℤ × Node)) → Onto m m' → (conn a : ℕ) → Owner m conn a → Owner m' conn a
Owner-Onto m m' onto conn a o =
    let s = onto o.pf o.node o.there in
    record {
      pf = o.pf;
      node = s.later;
      there = s.there;
      address = s.address ∙ o.address;
      closes = s.closes conn o.closes;
    }

pub same_node : {n n' : Node} → some n ≡ some n' → n ≡ n'
same_node {n = n} e = ap (λ (o : Option Node). or_new n o) e

pub nothing : {n : Node} → ¬ (none ≡ some n)
nothing e = ground (arith, e)

pub Onto-refl : (m : List (ℤ × Node)) → Onto m m
Onto-refl m pf n there = record { later = n; there = there; address = refl; closes = λ conn c. c }

-- A map of strategies in which one has changed.
pub Onto-assign :
    (k : ℤ) (fresh : Node) (s : Strategy) (m : List (ℤ × Node))
    → Onto m (assign k (record (or_new fresh (lookup k m)) { stg = s }) m)
Onto-assign k fresh s m pf n there =
    let v : Node = record (or_new fresh (lookup k m)) { stg = s } in
    elim (Bool-cases (k =?ℤ pf)) [
      | inl same ↦
          (let known : lookup k m ≡ some n =
              subst (λ x. lookup x m ≡ some n) (sym (=?ℤ→eq k pf same)) there in
            record {
              later = v;
              there = lookup-assign k pf v m ∙ rw same refl;
              address = ap (λ o. (or_new fresh o).address) known;
              closes = λ conn c. ap (λ o. is_ct conn (or_new fresh o)) known ∙ c;
            })
      | inr other ↦ record {
        later = n;
        there = lookup-assign k pf v m ∙ rw other there;
        address = refl;
        closes = λ conn c. c;
      }
    ]

Onto-cons :
    (k : ℤ) (v : Node) (s : Strategy) (m m' : List (ℤ × Node))
    → Onto m m'
    → Onto ((k, v) ∷ m) ((k, record v { stg = s }) ∷ m')
unfolding lookup
Onto-cons k v s m m' onto pf n there = elim (Bool-cases (k =?ℤ pf)) [
  | inl same ↦
      (let known : v ≡ n = same_node (sym (rw same refl) ∙ there) in
        record {
          later = record v { stg = s };
          there = rw same refl;
          address = ap (λ x. x.address) known;
          closes = λ conn c. ap (is_ct conn) known ∙ c;
        })
  | inr other ↦
      (let later = onto pf n (sym (rw other refl) ∙ there) in
        record {
          later = later.later;
          there = rw other later.there;
          address = later.address;
          closes = later.closes;
        })
]

pub Onto-write_at : (a : ℕ) (s : Strategy) (m : List (ℤ × Node)) → Onto m (write_at a s m)
unfolding write_at
Onto-write_at a s [] = Onto-refl []
Onto-write_at a s ((k, node) ∷ m) =
    let here = Onto-cons k node s m m (Onto-refl m) in
    let there = Onto-cons k node node.stg m (write_at a s m) (Onto-write_at a s m) in
    if_intro (Onto ((k, node) ∷ m)) (node.address == a) (λ _. here) λ _. there

-- An object whose portfolio is there is found at its address.
pub entry_at-some :
    (pf : ℤ) (n : Node) (m : List (ℤ × Node))
    → lookup pf m ≡ some n
    → (found : Node) × (entry_at n.address m ≡ some found)
unfolding entry_at lookup
entry_at-some pf n [] there = absurd (nothing there)
entry_at-some pf n ((k, node) ∷ m) there = elim (Bool-cases (node.address == n.address)) [
  | inl here ↦ (node, rw here refl)
  | inr away ↦ (elim (Bool-cases (k =?ℤ pf)) [
    | inl same ↦
        (let known : node ≡ n = same_node (sym (rw same refl) ∙ there) in
          absurd (unlike node.address n.address away (ap (λ x. x.address) known)))
    | inr other ↦
        (let found = entry_at-some pf n m (sym (rw other refl) ∙ there) in
          (found.0, rw away found.1))
  ])
]
  where
    unlike : (x y : ℕ) → (x == y) ≡ false → ¬ (x ≡ y)
    unlike x y ne e = ground (arith, ne, e)

module _ (h : Hub) (laws : IsHub h) where
  pub slots-connect :
      (P : ℕ → ℕ → Type 0) (t j : ℤ) (a : ℕ) (s : h.Signals)
      → Each P (h.slots j s)
      → P (h.connect t a s).0 a
      → Each P (h.slots j (h.connect t a s).1)
  slots-connect P t j a s old new = subst (Each P) (sym (laws.slots-connect t j a s)) (
      if_intro (Each P) (t =?ℤ j) (λ _. Each-append P (h.connect t a s).0 a (h.slots j s) old new)
        λ _. old)

  pub slots-disconnect_if :
      (P Q : ℕ → ℕ → Type 0) (o : Option ℕ) (j : ℤ) (s : h.Signals)
      → ((c a : ℕ) → is c o ≡ false → P c a → Q c a)
      → Each P (h.slots j s)
      → Each Q (h.slots j (disconnect_if h o s))
  slots-disconnect_if P Q none j s f old = Each-map P Q (λ c a. f c a refl) (h.slots j s) old
  slots-disconnect_if P Q (some d) j s f old =
      subst (Each Q) (sym (laws.slots-disconnect d j s)) (Each-without P Q d f (h.slots j s) old)
