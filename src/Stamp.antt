-- ===== src/Stamp.antt =====
-- mergerApp/src/tablebuffer.h and tablebuffer.cpp: `TimeStamp`, an EPICS time with a pulse id, and its
-- comparison operators. The two comparisons of EPICS base are a parameter.
pub mod Order
pub mod Span
use bsas_sc.Common.{
  ℕ, ◌^◌, ◌-◌, Bool, true, not, ◌&&◌, ◌||◌, ◌==◌, ltb, ◌≡◌, ◌<◌, ◌⊎◌, ◌↔◌, if◌then◌else◌,
}

-- `epicsTimeStamp`
pub record EpicsTimeStamp : Type 0 where
  pub sec_past_epoch : ℕ
  pub nsec : ℕ

-- The comparisons of EPICS base, and what it documents of them: seconds first, then nanoseconds.
pub record EpicsTime : Type 0 where
  pub time_equal : EpicsTimeStamp → EpicsTimeStamp → Bool
  pub time_less_than : EpicsTimeStamp → EpicsTimeStamp → Bool
  pub time_equal_iff :
      (a b : EpicsTimeStamp)
      → (time_equal a b ≡ true) ↔ ((a.sec_past_epoch ≡ b.sec_past_epoch) × (a.nsec ≡ b.nsec))
  pub time_less_than_iff :
      (a b : EpicsTimeStamp)
      → (time_less_than a b ≡ true) ↔ (
          (a.sec_past_epoch < b.sec_past_epoch)
          ⊎ ((a.sec_past_epoch ≡ b.sec_past_epoch) × (a.nsec < b.nsec)))

-- `struct TimeStamp`
pub record TimeStamp : Type 0 where
  pub ts : EpicsTimeStamp
  pub utag : ℕ

module _ (e : EpicsTime) where
  -- The operators of `TimeStamp`, one definition each.
  unfoldable pub stamp_eq : TimeStamp → TimeStamp → Bool
  stamp_eq a b = e.time_equal a.ts b.ts && a.utag == b.utag

  unfoldable pub stamp_lt : TimeStamp → TimeStamp → Bool
  stamp_lt a b = e.time_less_than a.ts b.ts || e.time_equal a.ts b.ts && ltb a.utag b.utag

  unfoldable pub stamp_ne : TimeStamp → TimeStamp → Bool
  stamp_ne a b = not (stamp_eq a b)

  unfoldable pub stamp_le : TimeStamp → TimeStamp → Bool
  stamp_le a b = stamp_lt a b || stamp_eq a b

  unfoldable pub stamp_ge : TimeStamp → TimeStamp → Bool
  stamp_ge a b = not (stamp_lt a b)

  unfoldable pub stamp_gt : TimeStamp → TimeStamp → Bool
  stamp_gt a b = not (stamp_le a b)

  -- `std::min` and `std::max`
  unfoldable pub stamp_min : TimeStamp → TimeStamp → TimeStamp
  stamp_min a b = if stamp_lt b a then b else a

  unfoldable pub stamp_max : TimeStamp → TimeStamp → TimeStamp
  stamp_max a b = if stamp_lt a b then b else a
