-- ===== src/Align/Prefix.antt =====
-- The prefixes `tbl<idx>` of the merged columns, read back as numbers.
use bsas_sc.Common.{
  ℕ, zero, suc, ◌+◌, ◌-◌, ◌*◌, ◌/◌, ◌%◌, ◌<◌, ◌≤◌, ltb, Bool-cases, inl, inr, false, ◌≡◌, ◌≢◌, refl,
  sym, ◌∙◌, ap, [], ◌∷◌, ◌++◌, replicate, drop, length, Text, arith,
}
use bsas_sc.Align.{decimal, hex_width, col_prefix}

-- The number that the digits say, after the number before them.
abbrev number : ℕ → Text → ℕ
number acc [] = acc
number acc (c ∷ cs) = number (acc * 10 + (c - 48)) cs

number-snoc :
    (acc : ℕ) (cs : Text) (c : ℕ) → number acc (cs ++ c ∷ []) ≡ number acc cs * 10 + (c - 48)
number-snoc acc [] c = refl
number-snoc acc (x ∷ cs) c = number-snoc (acc * 10 + (x - 48)) cs c

number-replicate : (k : ℕ) (cs : Text) → number 0 (replicate k 48 ++ cs) ≡ number 0 cs
number-replicate zero cs = refl
number-replicate (suc k) cs = number-replicate k cs

number-decimal : (fuel n : ℕ) → n < fuel → number 0 (decimal fuel n) ≡ n
unfolding decimal
number-decimal zero n h = elim h [ ]
number-decimal (suc fuel) n h = elim (Bool-cases (ltb n 10)) [
  | inl e ↦ rw e (omega arith)
  | inr e ↦
      let more : 10 ≤ n = at_least n e in
      rw e (
        number-snoc 0 (decimal fuel (n / 10)) (48 + n % 10)
        ∙ ap (λ k. k * 10 + ((48 + n % 10) - 48))
            (number-decimal fuel (n / 10) (omega (arith, more, h)))
        ∙ omega arith)
]
  where
    at_least : (m : ℕ) → ltb m 10 ≡ false → 10 ≤ m
    at_least m e = ground arith

number-col_prefix : (idx total : ℕ) → number 0 (drop 3 (col_prefix idx total)) ≡ idx
unfolding col_prefix
number-col_prefix idx total =
    number-replicate (hex_width total 0 total - length (decimal (suc idx) idx))
      (decimal (suc idx) idx)
    ∙ number-decimal (suc idx) idx (omega arith)

pub col_prefix_injective : (i j total : ℕ) → i ≢ j → col_prefix i total ≢ col_prefix j total
col_prefix_injective i j total h q =
    h (
      sym (number-col_prefix i total) ∙ ap (λ t. number 0 (drop 3 t)) q ∙ number-col_prefix j total)
