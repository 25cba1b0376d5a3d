-- ===== src/Stamp/Order.antt =====
-- The operators of `TimeStamp` are one strict total order.
use bsas_sc.Common.{true, false, ◌≡◌, ◌<◌, ◌⊎◌, ◌↔◌, arith, not_true→false}
use bsas_sc.Stamp.{EpicsTime, TimeStamp, stamp_eq, stamp_lt, stamp_ne, stamp_le, stamp_ge, stamp_gt}

-- Lexicographic order: seconds, nanoseconds, pulse id.
abbrev pub Before : TimeStamp → TimeStamp → Type 0
Before a b =
    (a.ts.sec_past_epoch < b.ts.sec_past_epoch)
    ⊎ ((a.ts.sec_past_epoch ≡ b.ts.sec_past_epoch) × (a.ts.nsec < b.ts.nsec))
    ⊎ ((a.ts.sec_past_epoch ≡ b.ts.sec_past_epoch) × (a.ts.nsec ≡ b.ts.nsec) × (a.utag < b.utag))

module _ (e : EpicsTime) where
  pub stamp_lt_iff : (a b : TimeStamp) → (stamp_lt e a b ≡ true) ↔ Before a b
  unfolding stamp_lt
  stamp_lt_iff a b = (
    (λ h. ground (arith, e.time_less_than_iff a.ts b.ts, e.time_equal_iff a.ts b.ts)),
    (λ h. ground (arith, e.time_less_than_iff a.ts b.ts, e.time_equal_iff a.ts b.ts)),
  )

  pub stamp_eq_iff : (a b : TimeStamp) → (stamp_eq e a b ≡ true) ↔ (a ≡ b)
  unfolding stamp_eq
  stamp_eq_iff a b = (
    (λ h. ground (arith, e.time_equal_iff a.ts b.ts)),
    (λ h. ground (arith, e.time_equal_iff a.ts b.ts)),
  )

  Before-trichotomy : (a b : TimeStamp) → Before a b ⊎ (a ≡ b) ⊎ Before b a
  Before-trichotomy a b = grind arith

  pub stamp_lt_irrefl : (a : TimeStamp) → stamp_lt e a a ≡ false
  stamp_lt_irrefl a = not_true→false _ (λ h. let p = (stamp_lt_iff a a).0 h in omega arith)

  pub stamp_lt_trans :
      (a b c : TimeStamp) → stamp_lt e a b ≡ true → stamp_lt e b c ≡ true → stamp_lt e a c ≡ true
  stamp_lt_trans a b c h k = ground (arith, stamp_lt_iff a b, stamp_lt_iff b c, stamp_lt_iff a c)

  pub stamp_lt_asymm : (a b : TimeStamp) → stamp_lt e a b ≡ true → stamp_lt e b a ≡ false
  stamp_lt_asymm a b h = ground (arith, stamp_lt_iff a b, stamp_lt_iff b a)

  pub stamp_lt_connected :
      (a b : TimeStamp) → stamp_lt e a b ≡ false → stamp_lt e b a ≡ false → a ≡ b
  stamp_lt_connected a b h k =
      ground (arith, stamp_lt_iff a b, stamp_lt_iff b a, Before-trichotomy a b)

  stamp_ne_iff : (a b : TimeStamp) → (stamp_ne e a b ≡ false) ↔ (a ≡ b)
  unfolding stamp_ne
  stamp_ne_iff a b =
      ((λ h. ground (arith, stamp_eq_iff a b)), (λ h. ground (arith, stamp_eq_iff a b)))

  pub stamp_le_iff : (a b : TimeStamp) → (stamp_le e a b ≡ true) ↔ (Before a b ⊎ (a ≡ b))
  unfolding stamp_le
  stamp_le_iff a b = (
    (λ h. ground (arith, stamp_lt_iff a b, stamp_eq_iff a b)),
    (λ h. ground (arith, stamp_lt_iff a b, stamp_eq_iff a b)),
  )

  pub stamp_ge_iff : (a b : TimeStamp) → (stamp_ge e a b ≡ true) ↔ (Before b a ⊎ (a ≡ b))
  unfolding stamp_ge
  stamp_ge_iff a b = (
    (λ h. ground (arith, stamp_lt_iff a b, Before-trichotomy a b)),
    (λ h. ground (arith, stamp_lt_iff a b)),
  )

  pub stamp_gt_iff : (a b : TimeStamp) → (stamp_gt e a b ≡ true) ↔ Before b a
  unfolding stamp_gt
  stamp_gt_iff a b = (
    (λ h. ground (arith, stamp_le_iff a b, Before-trichotomy a b)),
    (λ h. ground (arith, stamp_le_iff a b)),
  )

  -- The six operators agree with the lexicographic order on seconds, nanoseconds and pulse id, which
  -- never holds both ways, and holds one way or the other between different stamps.
  pub operators_order :
      (a b : TimeStamp)
      → ((stamp_lt e a b ≡ true) ↔ Before a b)
        × ((stamp_eq e a b ≡ true) ↔ (a ≡ b))
        × ((stamp_ne e a b ≡ false) ↔ (a ≡ b))
        × ((stamp_le e a b ≡ true) ↔ (Before a b ⊎ (a ≡ b)))
        × ((stamp_ge e a b ≡ true) ↔ (Before b a ⊎ (a ≡ b)))
        × ((stamp_gt e a b ≡ true) ↔ Before b a)
        × (Before a b ⊎ (a ≡ b) ⊎ Before b a)
        × ¬ (Before a b × Before b a)
  operators_order a b = (
    stamp_lt_iff a b,
    stamp_eq_iff a b,
    stamp_ne_iff a b,
    stamp_le_iff a b,
    stamp_ge_iff a b,
    stamp_gt_iff a b,
    Before-trichotomy a b,
    (λ h. ground arith),
  )
