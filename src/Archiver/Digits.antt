-- ===== src/Archiver/Digits.antt =====
-- The digits that the program prints, and texts that are put together from them.
use bsas_sc.Common.{
  ℕ, zero, suc, ◌+◌, ◌-◌, ◌/◌, ◌%◌, ◌<◌, ◌≤◌, ltb, lt→ltb, ltb→lt, Bool-cases, inl, inr, false, ◌≡◌,
  refl, sym, ◌∙◌, ap, ap₂, subst, [], ◌∷◌, ◌++◌, length, Text, arith,
}
use bsas_sc.Align.{decimal, pad_zeros}
use bsas_sc.Archiver.{print_int, print_int2}

-- The two digits of a number, and the four of a year.
abbrev two_digits : ℕ → Text
two_digits n = (48 + n / 10) ∷ (48 + n % 10) ∷ []

abbrev pub four_digits : ℕ → Text
four_digits n = (48 + n / 1000) ∷ (48 + n / 100 % 10) ∷ (48 + n / 10 % 10) ∷ (48 + n % 10) ∷ []

decimal-one : (fuel n : ℕ) → n < 10 → decimal (suc fuel) n ≡ (48 + n) ∷ []
unfolding decimal
decimal-one fuel n h = rw (lt→ltb n 10 h) refl

decimal-more :
    (fuel n : ℕ) → 10 ≤ n → decimal (suc fuel) n ≡ decimal fuel (n / 10) ++ (48 + n % 10) ∷ []
unfolding decimal
decimal-more fuel n h = rw (not_below n h) refl
  where
    not_below : (m : ℕ) → 10 ≤ m → ltb m 10 ≡ false
    not_below m k = ground arith

digit : (n : ℕ) → n < 10 → (0 ≡ n / 10) × (n ≡ n % 10)
digit n h = (omega arith, omega arith)

print_int2-two_digits : (n : ℕ) → n < 100 → print_int2 n ≡ two_digits n
unfolding print_int2 print_int
print_int2-two_digits n h = elim (Bool-cases (ltb n 10)) [
  | inl small ↦
      let k = ltb→lt n 10 small in
      rw (decimal-one n n k) (ap₂ (λ x y. (48 + x) ∷ (48 + y) ∷ []) (digit n k).0 (digit n k).1)
  | inr large ↦ ap (pad_zeros 2) (above n h large)
]
  where
    above : (m : ℕ) → m < 100 → ltb m 10 ≡ false → decimal (suc m) m ≡ two_digits m
    above zero k l = cc
    above (suc m) k l =
        decimal-more (suc m) (suc m) (ground arith)
        ∙ ap (λ ds. ds ++ (48 + suc m % 10) ∷ []) (decimal-one m (suc m / 10) (omega arith))

pub print_int-four_digits : (n : ℕ) → 1000 ≤ n → n < 10000 → print_int n ≡ four_digits n
unfolding print_int
print_int-four_digits n h k =
    subst (λ f. decimal (suc f) n ≡ four_digits n) enough
      (decimal-more (suc (suc (suc fuel))) n (omega arith)
        ∙ ap (λ ds. ds ++ (48 + n % 10) ∷ [])
            (decimal-more (suc (suc fuel)) (n / 10) (omega arith)
              ∙ ap (λ ds. ds ++ (48 + n / 10 % 10) ∷ [])
                  (decimal-more (suc fuel) (n / 10 / 10) (omega arith)
                    ∙ ap₂ (λ ds x. ds ++ (48 + x % 10) ∷ [])
                        (decimal-one fuel (n / 10 / 10 / 10) (omega arith)
                          ∙ ap (λ x. (48 + x) ∷ []) thousands)
                        hundreds)))
  where
    fuel : ℕ
    fuel = n - 3

    enough : suc (suc (suc fuel)) ≡ n
    enough = omega arith

    hundreds : n / 10 / 10 ≡ n / 100
    hundreds = omega arith

    thousands : n / 10 / 10 / 10 ≡ n / 1000
    thousands = omega arith

-- The digit at a place, and what follows the first one.
abbrev place : ℕ → Text → ℕ
place i [] = 0
place zero (c ∷ cs) = c
place (suc i) (c ∷ cs) = place i cs

abbrev pub tail : Text → Text
tail [] = []
tail (c ∷ cs) = cs

two_digits-injective : (m n : ℕ) → two_digits m ≡ two_digits n → m ≡ n
two_digits-injective m n e =
    let (tens, ones) : (48 + m / 10 ≡ 48 + n / 10) × (48 + m % 10 ≡ 48 + n % 10) =
      (ap (place 0) e, ap (place 1) e) in
    omega arith

four_digits-injective : (m n : ℕ) → m < 10000 → n < 10000 → four_digits m ≡ four_digits n → m ≡ n
four_digits-injective m n h k e =
    let (a, b, c, d) : (48 + m / 1000 ≡ 48 + n / 1000)
        × (48 + m / 100 % 10 ≡ 48 + n / 100 % 10)
        × (48 + m / 10 % 10 ≡ 48 + n / 10 % 10)
        × (48 + m % 10 ≡ 48 + n % 10) =
      (ap (place 0) e, ap (place 1) e, ap (place 2) e, ap (place 3) e) in
    omega arith

-- Two lists that are equal and begin with pieces of the same length.
cut : (xs ys us vs : Text) → length xs ≡ length ys → xs ++ us ≡ ys ++ vs → (xs ≡ ys) × (us ≡ vs)
cut [] [] us vs l e = (refl, e)
cut [] (y ∷ ys) us vs l e = cc
cut (x ∷ xs) [] us vs l e = cc
cut (x ∷ xs) (y ∷ ys) us vs l e =
    let (a, b) = cut xs ys us vs (omega arith) (ap tail e) in
    (ap₂ (λ h t. h ∷ t) (ap (place 0) e) a, b)

-- A number of two digits in front of two equal texts is the same in both, and so is what follows.
pub cut_int2 :
    (m n : ℕ) (us vs : Text)
    → m < 100
    → n < 100
    → print_int2 m ++ us ≡ print_int2 n ++ vs
    → (m ≡ n) × (us ≡ vs)
cut_int2 m n us vs h k e =
    let same : two_digits m ++ us ≡ two_digits n ++ vs =
      ap (λ ds. ds ++ us) (sym (print_int2-two_digits m h))
      ∙ e
      ∙ ap (λ ds. ds ++ vs) (print_int2-two_digits n k) in
    let (a, b) = cut (two_digits m) (two_digits n) us vs refl same in
    (two_digits-injective m n a, b)

pub cut_year :
    (m n : ℕ) (us vs : Text)
    → (1000 ≤ m) × (m < 10000)
    → (1000 ≤ n) × (n < 10000)
    → print_int m ++ us ≡ print_int n ++ vs
    → (m ≡ n) × (us ≡ vs)
cut_year m n us vs (a, b) (x, y) e =
    let same : four_digits m ++ us ≡ four_digits n ++ vs =
      ap (λ ds. ds ++ us) (sym (print_int-four_digits m a b))
      ∙ e
      ∙ ap (λ ds. ds ++ vs) (print_int-four_digits n x y) in
    let (f, g) = cut (four_digits m) (four_digits n) us vs refl same in
    (four_digits-injective m n b y f, g)

pub same_piece : (xs us vs : Text) → xs ++ us ≡ xs ++ vs → us ≡ vs
same_piece xs us vs e = (cut xs xs us vs refl e).1
