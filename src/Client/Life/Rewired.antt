-- ===== src/Client/Life/Rewired.antt =====
-- The slots of the signals of an AutoClient (OrderServer-20151216-AtHome, src/AutoClient.cpp) after
-- what its user asks about a pair.
use jansan.Common.{
  ℕ, ◌≡◌, refl, sym, ◌∙◌, ap, subst, arith, Bool, true, false, ◌||◌, Option, none, some, List, ℤ,
  pos, ◌=?ℤ◌, =?ℤ_refl, =?ℤ→eq, ◌==◌, leb_ℤ, if_intro, Bool-cases, inl, inr,
}
use jansan.Common.Maps.{lookup, assign, lookup-assign, remove, lookup-remove, or_new}
use jansan.Messages.{FoPair, FoPairDiff}
use jansan.Strategy.Subscribe.{on_subscription, on_difference}
use jansan.Client.{IsHub, Machine, Node, AutoClient}
use jansan.Client.Pairs.{
  handle_subscription, open_portfolio, wire, subscribe_token_on_false, with_entry, dropped,
  differed, fresh_node, made, made_by_difference, disconnect_if, zero_token, set_symbols,
  with_packs,
}
use jansan.Client.Prices.Slots.{
  Each, Each-map, is, is_ct, Owner, Onto, Owner-Onto, Onto-assign, same_node, nothing,
  slots-connect, slots-disconnect_if,
}
use jansan.Client.Life.Wired.{IsWired, Onto-IsWired}

-- A map that differs at one portfolio, which was not there.
Onto-unless :
    (k : ℤ) (m m' : List (ℤ × Node))
    → lookup k m ≡ none
    → ((pf : ℤ) → (k =?ℤ pf) ≡ false → lookup pf m' ≡ lookup pf m)
    → Onto m m'
Onto-unless k m m' gone else_same pf n there = elim (Bool-cases (k =?ℤ pf)) [
  | inl same ↦
      absurd (nothing (sym gone ∙ subst (λ x. lookup x m ≡ some n) (sym (=?ℤ→eq k pf same)) there))
  | inr other ↦ record {
    later = n;
    there = else_same pf other ∙ there;
    address = refl;
    closes = λ conn c. c;
  }
]

Onto-new : (k : ℤ) (v : Node) (m : List (ℤ × Node)) → lookup k m ≡ none → Onto m (assign k v m)
Onto-new k v m gone =
    Onto-unless k m (assign k v m) gone λ pf other. lookup-assign k pf v m ∙ rw other refl

Onto-newer :
    (k : ℤ) (u v : Node) (m : List (ℤ × Node))
    → lookup k m ≡ none
    → Onto m (assign k v (assign k u m))
Onto-newer k u v m gone = Onto-unless k m (assign k v (assign k u m)) gone λ pf other.
    lookup-assign k pf v (assign k u m) ∙ rw other (lookup-assign k pf u m ∙ rw other refl)

-- A connection is one of three.
first : (x y z : ℕ) → (x == x || x == y || x == z) ≡ true
first x y z = ground arith

second : (x y z : ℕ) → (y == x || y == y || y == z) ≡ true
second x y z = ground arith

third : (x y z : ℕ) → (z == x || z == y || z == z) ≡ true
third x y z = ground arith

none_closes : (a b c : Bool) → a ≡ false → b ≡ false → c ≡ false → ¬ ((a || b || c) ≡ true)
none_closes a b c x y z h = ground (arith, x, y, z, h)

module _ (m : Machine) (laws : IsHub m.hub) where
  pub dropped-IsWired :
      (pf : ℤ) (c : AutoClient m.hub) (o : Option Node)
      → lookup pf c.stg_class ≡ o
      → IsWired m c
      → IsWired m (dropped pf c o)
  dropped-IsWired pf c none gone w j = w j
  dropped-IsWired pf c (some node) there w j =
      let s1 = disconnect_if m.hub node.ct1 c.data_pack in
      let s2 = disconnect_if m.hub node.ct2 s1 in
      slots-disconnect_if m.hub laws Left2 (Owner (remove pf c.stg_class)) node.ct3 j s2 last (
        slots-disconnect_if m.hub laws Left1 Left2 node.ct2 j s1 (λ conn a off o. (o, off))
          (slots-disconnect_if m.hub laws (Owner c.stg_class) Left1 node.ct1 j c.data_pack
            (λ conn a off o. (o, off)) (w j)))
    where
      Left1 : ℕ → ℕ → Type 0
      Left1 conn a = Owner c.stg_class conn a × (is conn node.ct1 ≡ false)

      Left2 : ℕ → ℕ → Type 0
      Left2 conn a = Left1 conn a × (is conn node.ct2 ≡ false)

      last :
          (conn a : ℕ)
          → is conn node.ct3 ≡ false
          → Left2 conn a
          → Owner (remove pf c.stg_class) conn a
      last conn a off ((o, off1), off2) = elim (Bool-cases (pf =?ℤ o.pf)) [
        | inl same ↦
            (let known : node ≡ o.node = same_node (
                sym there
                ∙ subst (λ x. lookup x c.stg_class ≡ some o.node) (sym (=?ℤ→eq pf o.pf same))
                    o.there) in
              absurd (
                none_closes (is conn node.ct1) (is conn node.ct2) (is conn node.ct3) off1 off2 off
                  (ap (is_ct conn) known ∙ o.closes)))
        | inr other ↦ record {
          pf = o.pf;
          node = o.node;
          there = lookup-remove pf o.pf c.stg_class ∙ rw other o.there;
          address = o.address;
          closes = o.closes;
        }
      ]

  -- The connections that are made belong to the portfolio, if the slots before keep their owners.
  wire-IsWired :
      (p : FoPair) (node : Node) (c : AutoClient m.hub)
      → ((v : Node) (j : ℤ)
          → Each (Owner (assign p.portfolio_name v c.stg_class)) (m.hub.slots j c.data_pack))
      → IsWired m (wire m p node c)
  unfolding wire
  wire-IsWired p node c old j =
      let a = node.address in
      let far = m.hub.connect p.token_far a c.data_pack in
      let near = m.hub.connect p.token_near a far.1 in
      let last = m.hub.connect p.token_three a near.1 in
      let blq = (or_new zero_token (lookup p.token_far (set_symbols p c.symbol_dictionary))).blq in
      let v : Node = record node {
        stg = with_packs m p blq c (on_subscription p node.stg);
        ct1 = some far.0;
        ct2 = some near.0;
        ct3 = some last.0;
      } in
      let cls = assign p.portfolio_name v c.stg_class in
      let there : lookup p.portfolio_name cls ≡ some v =
        lookup-assign p.portfolio_name p.portfolio_name v c.stg_class
        ∙ rw (=?ℤ_refl p.portfolio_name) refl in
      slots-connect m.hub laws (Owner cls) p.token_three j a near.1
        (slots-connect m.hub laws (Owner cls) p.token_near j a far.1
          (slots-connect m.hub laws (Owner cls) p.token_far j a c.data_pack (old v j)
            (owns cls v there far.0 (first far.0 near.0 last.0)))
          (owns cls v there near.0 (second far.0 near.0 last.0)))
        (owns cls v there last.0 (third far.0 near.0 last.0))
    where
      owns :
          (cls : List (ℤ × Node)) (v : Node)
          → lookup p.portfolio_name cls ≡ some v
          → (conn : ℕ) → is_ct conn v ≡ true
          → Owner cls conn v.address
      owns cls v there conn closes = record {
        pf = p.portfolio_name;
        node = v;
        there = there;
        address = refl;
        closes = closes;
      }

  with_entry-old :
      (p : FoPair) (c : AutoClient m.hub) (o : Option Node)
      → lookup p.portfolio_name c.stg_class ≡ o
      → o ≡ none
      → IsWired m c
      → (v : Node) (j : ℤ)
      → Each
          (Owner (assign p.portfolio_name v (with_entry m p c o).stg_class))
          (m.hub.slots j (with_entry m p c o).data_pack)
  with_entry-old p c none gone new w v j =
      let cls = assign p.portfolio_name v (assign p.portfolio_name (made m p c) c.stg_class) in
      Each-map (Owner c.stg_class) (Owner cls)
        (Owner-Onto c.stg_class cls (Onto-newer p.portfolio_name (made m p c) v c.stg_class gone))
        (m.hub.slots j c.data_pack) (w j)
  with_entry-old p c (some node) gone new w v j = absurd (nothing (sym new))

  tokens-IsWired :
      (t : ℤ) (c : AutoClient m.hub) → IsWired m c → IsWired m (subscribe_token_on_false t c)
  unfolding subscribe_token_on_false
  tokens-IsWired t c w = if_intro (IsWired m) (or_new false (lookup t c.sub_status)) (λ _. w) λ _. w

  -- The first subscription of a portfolio.
  pub handle_subscription-IsWired :
      (p : FoPair) (c : AutoClient m.hub)
      → lookup p.portfolio_name c.stg_class ≡ none
      → IsWired m c
      → IsWired m (handle_subscription m p c)
  unfolding handle_subscription open_portfolio
  handle_subscription-IsWired p c new w =
      let opened_ = open_portfolio m p c in
      let node : Node =
        or_new (fresh_node m opened_.next_address) (lookup p.portfolio_name opened_.stg_class) in
      let wired = wire m p node opened_ in
      let far = subscribe_token_on_false p.token_far wired in
      if_intro (IsWired m) (leb_ℤ p.portfolio_name (pos 0)) (λ _. w)
        λ _. tokens-IsWired p.token_three (subscribe_token_on_false p.token_near far) (
          tokens-IsWired p.token_near far (
            tokens-IsWired p.token_far wired (
              wire-IsWired p node opened_
                (with_entry-old p c (lookup p.portfolio_name c.stg_class) refl new w))))

  pub differed-IsWired :
      (d : FoPairDiff) (c : AutoClient m.hub) (o : Option Node)
      → lookup d.portfolio_name c.stg_class ≡ o
      → IsWired m c
      → IsWired m (differed m d c o)
  differed-IsWired d c none gone w =
      let k = d.portfolio_name in
      let node = made_by_difference m d c in
      let v : Node = record node { stg = on_difference d node.stg } in
      Onto-IsWired m c (differed m d c none) (Onto-new k v c.stg_class gone) refl w
  differed-IsWired d c (some node) there w =
      let k = d.portfolio_name in
      let s = on_difference d node.stg in
      Onto-IsWired m c (differed m d c (some node))
        (subst (λ o. Onto c.stg_class (assign k (record (or_new node o) { stg = s }) c.stg_class))
          there (Onto-assign k node s c.stg_class))
        refl w
