-- ===== src/Client/Tags/Decode.antt =====
-- What AutoClient::Eventsubscriber (OrderServer-20151216-AtHome/src/AutoClient.cpp) reads out of the
-- tags of StrategyClass.
use jansan.Common.{
  ℕ, ◌+◌, ◌*◌, ◌/◌, ◌%◌, ◌<◌, ◌≤◌, ◌≡◌, ◌∙◌, ap, arith, ℤ, pos, negsuc, ◌-ℤ◌, ◌*ℤ◌, ◌<ℤ◌, ltb_ℤ,
  if_intro, ltb, ltb→lt, Bool-cases, inl, inr,
}
use jansan.Common.Words.{to_int, to_short}
use jansan.Tag.{subscription_tag}
use jansan.Tag.Digits.{tag_value}
use jansan.Client.Tags.{Address, quot, decode}

abbrev pub address : ℕ → ℕ → ℕ → Address
address m c p = record { msg_type = pos m; cid = pos c; pf_num = pos p }

-- The tags of a client with three digits, by the digits of the portfolio.
pub tag_one :
    (c p : ℕ)
    → 100 ≤ c
    → c < 1000
    → 0 < p
    → p < 10
    → subscription_tag (pos c) (pos p) ≡ pos (650000 + c * 10 + p)
tag_one c p lo hi p_lo p_hi =
    tag_value 3 1 c p (p_lo, omega arith) (omega arith, (omega arith, (omega arith, omega arith)))
      (omega arith) (omega arith)
    ∙ ap pos (omega arith)

pub tag_two :
    (c p : ℕ)
    → 100 ≤ c
    → c < 1000
    → 10 ≤ p
    → p < 100
    → subscription_tag (pos c) (pos p) ≡ pos (6500000 + c * 100 + p)
tag_two c p lo hi p_lo p_hi =
    tag_value 3 2 c p (omega arith, (omega arith, omega arith))
      (omega arith, (omega arith, (omega arith, omega arith))) (omega arith) (omega arith)
    ∙ ap pos (omega arith)

pub tag_manual :
    (c : ℕ) → 100 ≤ c → c < 1000 → subscription_tag (pos c) (pos 999) ≡ pos (65000999 + c * 1000)
tag_manual c lo hi =
    tag_value 3 3 c 999 (omega arith, (omega arith, (omega arith, omega arith)))
      (omega arith, (omega arith, (omega arith, omega arith))) (omega arith) (omega arith)
    ∙ ap pos (omega arith)

decode_six :
    (c p : ℕ) (d : Address)
    → c < 1000
    → p < 10
    → decode (pos (650000 + c * 10 + p)) d ≡ address 65 c p
unfolding decode quot to_int to_short ◌-ℤ◌ ◌*ℤ◌
decode_six c p d hc hp = ground arith

decode_seven :
    (c p : ℕ) (d : Address)
    → c < 1000
    → p < 100
    → decode (pos (6500000 + c * 100 + p)) d ≡ address 65 c p
unfolding decode quot to_int to_short ◌-ℤ◌ ◌*ℤ◌
decode_seven c p d hc hp = ground arith

-- A client number with three digits and a portfolio number of one or two digits are read out of their
-- tag as they are, whatever was read before.
pub decode-subscription_tag :
    (c p : ℕ) (d : Address)
    → 100 ≤ c
    → c < 1000
    → 0 < p
    → p < 100
    → decode (subscription_tag (pos c) (pos p)) d ≡ address 65 c p
decode-subscription_tag c p d lo hi p_lo p_hi = elim (Bool-cases (ltb p 10)) [
  | inl one ↦
      ap (λ t. decode t d) (tag_one c p lo hi p_lo (ltb→lt p 10 one))
      ∙ decode_six c p d hi (ltb→lt p 10 one)
  | inr two ↦
      ap (λ t. decode t d) (tag_two c p lo hi (ground arith) p_hi) ∙ decode_seven c p d hi p_hi
]

-- A client number with four digits is not read as it is: its last digit goes to the portfolio.
pub decode_four_digits :
    (c p : ℕ) (d : Address)
    → 1000 ≤ c
    → c < 10000
    → 0 < p
    → p < 10
    → decode (subscription_tag (pos c) (pos p)) d ≡ address 65 (c / 10) (c % 10 * 10 + p)
decode_four_digits c p d lo hi p_lo p_hi =
    ap (λ t. decode t d)
      (tag_value 4 1 c p (p_lo, omega arith)
          (omega arith, (omega arith, (omega arith, (omega arith, omega arith)))) (omega arith)
          (omega arith)
        ∙ ap pos (regroup c p))
    ∙ decode_seven (c / 10) (c % 10 * 10 + p) d (omega arith) (omega arith)
  where
    regroup : (c p : ℕ) → (650000 + c) * 10 + p ≡ 6500000 + c / 10 * 100 + (c % 10 * 10 + p)
    regroup c p = omega arith

abbrev pub BelowManual : Address → Type 0
BelowManual d = d.pf_num <ℤ pos 999

digit_lt : (tag : ℤ) → to_short (tag -ℤ quot tag 10 *ℤ pos 10) <ℤ pos 999
unfolding quot to_short ◌-ℤ◌ ◌*ℤ◌
digit_lt (pos n) = ground arith
digit_lt (negsuc n) = ground arith

digits_lt : (tag : ℤ) → to_short (tag -ℤ quot tag 100 *ℤ pos 100) <ℤ pos 999
unfolding quot to_short ◌-ℤ◌ ◌*ℤ◌
digits_lt (pos n) = ground arith
digits_lt (negsuc n) = ground arith

-- The portfolio number that is read stays below 999, whatever the tag.
pub decode_pf_num : (tag : ℤ) (d : Address) → BelowManual d → BelowManual (decode tag d)
unfolding decode
decode_pf_num tag d h =
    if_intro BelowManual (ltb_ℤ tag (pos 999999)) (λ _. digit_lt tag)
      λ _. if_intro BelowManual (ltb_ℤ (pos 999999) tag) (λ _. digits_lt tag) λ _. h
