-- ===== src/Client/Tags/Filter.antt =====
-- Which answers reach AutoClient::Eventsubscriber (OrderServer-20151216-AtHome/src/AutoClient.cpp).
use jansan.Common.{
  ℕ, zero, suc, ◌+◌, ◌<◌, ◌≤◌, ◌≡◌, refl, sym, ◌∙◌, ap, arith, true, false, ◌||◌, ◌==◌, List, [],
  ◌∷◌, ◌++◌, map, All, ℤ, pos, ◌=?ℤ◌, =?ℤ_refl, inl, inr, Bool-cases, ltb, ltb→lt, ==_iff,
}
use jansan.Tag.{subscription_tag}
use jansan.Client.Tags.{count_from, tags_of, any_is, hears}
use jansan.Client.Tags.Decode.{tag_one, tag_two, tag_manual}

-- Tags differ from a tag.
abbrev Misses : ℤ → (ℕ → ℤ) → List ℕ → Type 0
Misses tag f ns = All (λ i. (f i =?ℤ tag) ≡ false) ns

any_is-Misses :
    (tag : ℤ) (f : ℕ → ℤ) (ns : List ℕ) → Misses tag f ns → any_is tag (map f ns) ≡ false
any_is-Misses tag f [] h = refl
any_is-Misses tag f (n ∷ ns) (h, hs) = rw (h) (any_is-Misses tag f ns hs)

any_is-append :
    (tag : ℤ) (ts us : List ℤ) → any_is tag (ts ++ us) ≡ (any_is tag ts || any_is tag us)
any_is-append tag [] us = refl
any_is-append tag (t ∷ ts) us = ground (arith, any_is-append tag ts us)

any_is-count_from :
    (f : ℕ → ℤ) (i k n : ℕ) → k ≤ i → i < k + n → any_is (f i) (map f (count_from k n)) ≡ true
any_is-count_from f i k zero lo hi = absurd (omega arith)
any_is-count_from f i k (suc n) lo hi = elim (Bool-cases (k == i)) [
  | inl here ↦ rw (ap (λ x. f x =?ℤ f i) ((==_iff k i).0 here) ∙ =?ℤ_refl (f i)) refl
  | inr later ↦ ground (arith, any_is-count_from f i (k + 1) n)
]

-- A portfolio number of one or two digits.
abbrev pub IsPortfolio : ℕ → Type 0
IsPortfolio p = (0 < p) × (p < 100)

abbrev pub IsClient : ℕ → Type 0
IsClient c = (100 ≤ c) × (c < 1000)

pub tag_ne :
    (c i c' p : ℕ)
    → IsClient c
    → IsClient c'
    → (c ≡ c' → ⊥)
    → IsPortfolio i
    → IsPortfolio p
    → (subscription_tag (pos c) (pos i) =?ℤ subscription_tag (pos c') (pos p)) ≡ false
tag_ne c i c' p (c_lo, c_hi) (c'_lo, c'_hi) ne (i_lo, i_hi) (p_lo, p_hi) =
    elim (Bool-cases (ltb i 10)) [
      | inl i_one ↦ elim (Bool-cases (ltb p 10)) [
        | inl p_one ↦
            rw
              (
                tag_one c i c_lo c_hi i_lo (ltb→lt i 10 i_one),
                tag_one c' p c'_lo c'_hi p_lo (ltb→lt p 10 p_one),
              )
              (ground arith)
        | inr p_two ↦
            rw
              (
                tag_one c i c_lo c_hi i_lo (ltb→lt i 10 i_one),
                tag_two c' p c'_lo c'_hi (ground arith) p_hi,
              )
              (ground arith)
      ]
      | inr i_two ↦ elim (Bool-cases (ltb p 10)) [
        | inl p_one ↦
            rw
              (
                tag_two c i c_lo c_hi (ground arith) i_hi,
                tag_one c' p c'_lo c'_hi p_lo (ltb→lt p 10 p_one),
              )
              (ground arith)
        | inr p_two ↦
            rw
              (
                tag_two c i c_lo c_hi (ground arith) i_hi,
                tag_two c' p c'_lo c'_hi (ground arith) p_hi,
              )
              (ground arith)
      ]
    ]

manual_ne :
    (c c' p : ℕ)
    → IsClient c
    → IsClient c'
    → IsPortfolio p
    → (subscription_tag (pos c) (pos 999) =?ℤ subscription_tag (pos c') (pos p)) ≡ false
manual_ne c c' p (c_lo, c_hi) (c'_lo, c'_hi) (p_lo, p_hi) = elim (Bool-cases (ltb p 10)) [
  | inl p_one ↦
      rw (tag_manual c c_lo c_hi, tag_one c' p c'_lo c'_hi p_lo (ltb→lt p 10 p_one)) (ground arith)
  | inr p_two ↦
      rw (tag_manual c c_lo c_hi, tag_two c' p c'_lo c'_hi (ground arith) p_hi) (ground arith)
]

count_from-Misses :
    (c c' p k n : ℕ)
    → IsClient c
    → IsClient c'
    → (c ≡ c' → ⊥)
    → IsPortfolio p
    → 0 < k
    → k + n ≤ 100
    → Misses
        (subscription_tag (pos c') (pos p))
        (λ i. subscription_tag (pos c) (pos i))
        (count_from k n)
count_from-Misses c c' p k zero hc hc' ne hp lo hi = tt
count_from-Misses c c' p k (suc n) hc hc' ne hp lo hi = (
  tag_ne c k c' p hc hc' ne (lo, omega arith) hp,
  count_from-Misses c c' p (k + 1) n hc hc' ne hp (omega arith) (omega arith),
)

hears_own : (c p : ℕ) → IsPortfolio p → hears (pos c) (subscription_tag (pos c) (pos p)) ≡ true
unfolding hears tags_of subscription_tag
hears_own c p (lo, hi) =
    let f = λ (i : ℕ). subscription_tag (pos c) (pos i) in
    any_is-append (f p) (map f (count_from 1 99)) (map f (999 ∷ []))
    ∙ rw (any_is-count_from f p 1 99 lo (omega arith)) refl

hears_other :
    (c c' p : ℕ)
    → IsClient c
    → IsClient c'
    → IsPortfolio p
    → (c ≡ c' → ⊥)
    → hears (pos c) (subscription_tag (pos c') (pos p)) ≡ false
unfolding hears tags_of subscription_tag
hears_other c c' p hc hc' hp ne =
    let f = λ (i : ℕ). subscription_tag (pos c) (pos i) in
    let tag = subscription_tag (pos c') (pos p) in
    any_is-append tag (map f (count_from 1 99)) (map f (999 ∷ []))
    ∙ rw
        (
          any_is-Misses tag f (count_from 1 99)
              (count_from-Misses c c' p 1 99 hc hc' ne hp (omega arith) (omega arith)),
          manual_ne c c' p hc hc' hp,
        )
        refl

-- Among clients whose numbers have three digits and portfolios whose numbers have one or two, the
-- answers under the tag of a strategy are heard by its own client and by no other.
pub hears-subscription_tag :
    (c c' p : ℕ)
    → IsClient c
    → IsClient c'
    → IsPortfolio p
    → hears (pos c) (subscription_tag (pos c') (pos p)) ≡ (c == c')
hears-subscription_tag c c' p hc hc' hp = elim (Bool-cases (c == c')) [
  | inl same ↦
      ap (λ x. hears (pos c) (subscription_tag (pos x) (pos p))) (sym ((==_iff c c').0 same))
      ∙ hears_own c p hp
      ∙ sym same
  | inr other ↦ hears_other c c' p hc hc' hp (λ e. ground arith) ∙ sym other
]
