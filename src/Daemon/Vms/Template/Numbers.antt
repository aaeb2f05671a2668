-- ===== src/Daemon/Vms/Template/Numbers.antt =====
-- The numbers in the text of a domain.
use mechanicaldinosaurs.Base.{
  ℕ, zero, suc, ◌+◌, ◌-◌, ◌*◌, ◌/◌, ◌%◌, ◌<◌, Bytes, ltb, ◌≡◌, ap, ◌∙◌, inl, inr, [], ◌∷◌, arith,
  Bool-cases,
}
use mechanicaldinosaurs.Daemon.Vms.Template.{decimal_from, decimal}

-- The number that digits stand for, behind a number that was read.
abbrev value_from : ℕ → Bytes → ℕ
value_from n [] = n
value_from n (c ∷ s) = value_from (n * 10 + (c - b'0')) s

decimal_from-value_from :
    (fuel n : ℕ) (out : Bytes)
    → n < fuel
    → value_from 0 (decimal_from fuel n out) ≡ value_from n out
unfolding decimal_from
decimal_from-value_from zero n out h = absurd (omega arith)
decimal_from-value_from (suc fuel) n out h = elim (Bool-cases (ltb n 10)) [
  | inl e ↦ rw (decimal_from, e) (ap (λ m. value_from m out) (ground arith))
  | inr e ↦
      rw (decimal_from, e)
        (decimal_from-value_from fuel (n / 10) ((b'0' + n % 10) ∷ out) (ground arith)
          ∙ ap (λ m. value_from m out) (ground arith))
]

-- The fuel is enough: the digits that are written stand for the number.
decimal-value_from : (n : ℕ) → value_from 0 (decimal n) ≡ n
unfolding decimal
decimal-value_from n = decimal_from-value_from (suc n) n [] (omega arith)
