-- ===== src/Client/Packs/Text.antt =====
-- What the helpers of the packs in OrderServer-20151216-AtHome/src/AutoClient.cpp compute.
use mathlib.Core.List.{append-nil, append_assoc}
use jansan.Common.{
  ℕ, zero, suc, ◌+◌, ◌-◌, ◌*◌, ◌/◌, ◌%◌, ◌^◌, ◌≤◌, ◌<◌, ◌≡◌, refl, sym, ◌∙◌, ap, arith, List, [],
  ◌∷◌, ◌++◌, length, length-append, map,
}
use jansan.Common.Words.{swap32}
use jansan.Client.Packs.{append_times, pad_right, upper, to_upper, text_field, htond}

-- The bytes of a number in the other order.
abbrev reversed : ℕ → ℕ → ℕ → ℕ
reversed zero x acc = acc
reversed (suc k) x acc = reversed k (x / 256) (acc * 256 + x % 256)

-- htond puts the eight bytes of a `double` into the other order.
htond-reversed : (x : ℕ) → htond x ≡ reversed 8 x 0
unfolding htond swap32
htond-reversed x = omega arith

-- htond undoes itself.
htond-htond : (x : ℕ) → x < 2 ^ 64 → htond (htond x) ≡ x
unfolding htond swap32
htond-htond x h = omega arith

abbrev spaces : ℕ → List ℕ
spaces zero = []
spaces (suc n) = b' ' ∷ spaces n

append_times-spaces : (n : ℕ) (text : List ℕ) → append_times n text (b' ' ∷ []) ≡ text ++ spaces n
append_times-spaces zero text = sym (append-nil text)
append_times-spaces (suc n) text =
    append_times-spaces n (text ++ b' ' ∷ []) ∙ append_assoc text (b' ' ∷ []) (spaces n)

length-spaces : (n : ℕ) → length (spaces n) ≡ n
length-spaces zero = refl
length-spaces (suc n) = ap suc (length-spaces n)

map-upper-spaces : (n : ℕ) → map upper (spaces n) ≡ spaces n
map-upper-spaces zero = refl
map-upper-spaces (suc n) = ap (◌∷◌ b' ') (map-upper-spaces n)

to_upper-map : (n : ℕ) (text : List ℕ) → length text ≤ n → to_upper n text ≡ map upper text
unfolding to_upper
to_upper-map zero [] h = refl
to_upper-map zero (c ∷ text) h = absurd (omega arith)
to_upper-map (suc n) [] h = refl
to_upper-map (suc n) (c ∷ text) h = ap (◌∷◌ (upper c)) (to_upper-map n text (omega arith))

map-append : (xs ys : List ℕ) → map upper (xs ++ ys) ≡ map upper xs ++ map upper ys
map-append [] ys = refl
map-append (x ∷ xs) ys = ap (◌∷◌ (upper x)) (map-append xs ys)

-- A text that fits its field is written in capitals, and filled up with spaces.
text_field-spaces :
    (n : ℕ) (text : List ℕ)
    → length text ≤ n
    → text_field n text ≡ map upper text ++ spaces (n - length text)
unfolding text_field pad_right
text_field-spaces n text h =
    ap (to_upper n) (append_times-spaces (n - length text) text)
    ∙ to_upper-map n (text ++ spaces (n - length text)) (
        omega
          (arith, length-append text (spaces (n - length text)), length-spaces (n - length text)))
    ∙ map-append text (spaces (n - length text))
    ∙ ap (λ x. map upper text ++ x) (map-upper-spaces (n - length text))
