-- ===== src/Tag/Digits.antt =====
-- What `concat` of OrderServer-20151216-AtHome/src/StrategyClass.cpp computes while nothing
-- overflows: the decimal digits of one number after those of the other.
use mathlib.Core.WellFounded.{Acc}
use mathlib.Core.Logic.{dite}
use native.Mathlib.Decide.{dec_lt}
use jansan.Common.{
  ℕ, zero, suc, ◌+◌, ◌*◌, ◌/◌, ◌^◌, ◌<◌, ◌≤◌, ◌≡◌, ◌≢◌, refl, sym, ◌∙◌, ap, arith, subst, pos, ◌+ℤ◌,
  ◌*ℤ◌,
}
use jansan.Common.Words.{word, signed, to_short_id}
use jansan.Tag.{to_long, pad, concat, lt_wf, subscription_tag}

-- `y` has `k` decimal digits; 0 has none.
abbrev pub HasDigits : ℕ → ℕ → Type 0
HasDigits zero y = y ≡ 0
HasDigits (suc k) y = (0 < y) × HasDigits k (y / 10)

to_long_pos : (n : ℕ) → n < 2 ^ 63 → to_long (pos n) ≡ pos n
unfolding to_long word signed
to_long_pos n h = ground arith

to_long_ten : (x : ℕ) → x * 10 < 2 ^ 63 → to_long (pos x *ℤ pos 10) ≡ pos (x * 10)
unfolding to_long word signed ◌*ℤ◌
to_long_ten x h = ground arith

-- A number followed by `k` zeros.
abbrev pub scale : ℕ → ℕ → ℕ
scale zero x = x
scale (suc k) x = scale k (x * 10)

le_scale : (k x : ℕ) → x ≤ scale k x
le_scale zero x = omega arith
le_scale (suc k) x = omega (arith, le_scale k (x * 10))

dite_intro {ℓ κ} :
    {A : Type ℓ} {B : Type κ} (P : B → Type 0) (d : Dec A) {f : A → B} {g : ¬ A → B}
    → ((a : A) → P (f a))
    → ((n : ¬ A) → P (g n))
    → P (dite d f g)
dite_intro P (yes a) p q = p a
dite_intro P (no n) p q = q n

pad-HasDigits :
    (k x y : ℕ) (acc : Acc ◌<◌ y)
    → HasDigits k y
    → scale k x < 2 ^ 63
    → pad (pos x) y acc ≡ pos (scale k x)
unfolding pad
pad-HasDigits zero x y (Acc.intro _ smaller) h hx =
    dite_intro (λ z. z ≡ pos x) (dec_lt 0 y) (λ l. absurd (omega arith)) λ _. refl
pad-HasDigits (suc k) x y (Acc.intro _ smaller) (h, hs) hx =
    dite_intro (λ z. z ≡ pos (scale k (x * 10))) (dec_lt 0 y)
      (λ l.
        subst (λ z. pad z (y / 10) (smaller (y / 10) (omega arith)) ≡ pos (scale k (x * 10)))
          (sym (to_long_ten x (omega (arith, le_scale k (x * 10), hx))))
          (pad-HasDigits k (x * 10) (y / 10) (smaller (y / 10) (omega arith)) hs hx))
      λ n. absurd (n h)

to_long_add : (x y : ℕ) → x + y < 2 ^ 63 → to_long (pos x +ℤ pos y) ≡ pos (x + y)
unfolding to_long word signed ◌+ℤ◌
to_long_add x y h = ground arith

plus_zero : (y : ℕ) → y ≡ y + 0
plus_zero y = omega arith

-- While the result fits in 63 bits, `concat x y` is `x` moved by the digits of `y`, plus `y`.
concat-HasDigits :
    (k x y : ℕ)
    → HasDigits k y
    → scale k x + y < 2 ^ 63
    → concat (pos x) (pos y) ≡ pos (scale k x + y)
unfolding concat
concat-HasDigits k x y h hx =
    subst (λ z. to_long (z +ℤ pos y) ≡ pos (scale k x + y))
      (sym (
        subst (λ n. pad (pos x) n (lt_wf.apply n) ≡ pos (scale k x)) (plus_zero y)
          (pad-HasDigits k x y (lt_wf.apply y) h (omega arith))))
      (to_long_add (scale k x) y hx)

pub tag_value :
    (i k cid pf : ℕ)
    → HasDigits k pf
    → HasDigits i cid
    → pf < 2 ^ 15
    → scale k (scale i 65 + cid) + pf < 2 ^ 63
    → subscription_tag (pos cid) (pos pf) ≡ pos (scale k (scale i 65 + cid) + pf)
unfolding subscription_tag
tag_value i k cid pf hk hi small fits =
    rw
      (
        to_short_id (pos pf) (small, omega arith),
        concat-HasDigits i 65 cid hi (omega (arith, le_scale k (scale i 65 + cid), fits)),
      )
      (concat-HasDigits k (scale i 65 + cid) pf hk fits)

scale_ten : (k x : ℕ) → scale k (x * 10) ≡ scale k x * 10
scale_ten zero x = refl
scale_ten (suc k) x = scale_ten k (x * 10)

front_digits : (x d : ℕ) → d < 10 → (x * 10 + d) / 10 ≡ x
front_digits x d h = omega arith

-- One digit more at the end.
HasDigits-append :
    (i x d : ℕ) → HasDigits i x → 0 < x * 10 + d → d < 10 → HasDigits (suc i) (x * 10 + d)
HasDigits-append i x d h some_digit small =
    (some_digit, subst (HasDigits i) (sym (front_digits x d small)) h)

-- A digit can stand at the end of the client's number or at the front of the portfolio's.
moved_digit : (s x d p : ℕ) → (s + x) * 10 * 10 + (d * 10 + p) ≡ (s * 10 + (x * 10 + d)) * 10 + p
moved_digit s x d p = omega arith

-- Two portfolios of different clients share a tag: the portfolio whose two digits are d and p of a
-- client, and the portfolio p of the client whose number has the digit d appended. Neither digit is
-- 0, and the tag fits in 63 bits.
pub subscription_tag-collides :
    (i cid d p : ℕ)
    → HasDigits i cid
    → 0 < d
    → d < 10
    → 0 < p
    → p < 10
    → scale 2 (scale i 65 + cid) + (d * 10 + p) < 2 ^ 63
    → (subscription_tag (pos cid) (pos (d * 10 + p))
        ≡ subscription_tag (pos (cid * 10 + d)) (pos p))
      × (cid ≢ cid * 10 + d)
      × (d * 10 + p ≢ p)
subscription_tag-collides i cid d p h d_pos d_lt p_pos p_lt fits =
    let x : ℕ = scale i 65 in
    let same : scale 2 (x + cid) + (d * 10 + p) ≡ scale 1 (scale (suc i) 65 + (cid * 10 + d)) + p =
      moved_digit x cid d p ∙ ap (λ y. (y + (cid * 10 + d)) * 10 + p) (sym (scale_ten i 65)) in
    let one : HasDigits 1 p = (p_pos, omega arith) in
    let two : HasDigits 2 (d * 10 + p) =
      HasDigits-append 1 d p (d_pos, omega arith) (omega arith) p_lt in
    let longer = HasDigits-append i cid d h (omega arith) d_lt in
    (
      tag_value i 2 cid (d * 10 + p) two h (omega arith) fits
          ∙ ap pos same
          ∙ sym (
              tag_value (suc i) 1 (cid * 10 + d) p one longer (omega arith)
                (subst (λ n. n < 2 ^ 63) same fits)),
      λ e. omega arith,
      λ e. omega arith,
    )
