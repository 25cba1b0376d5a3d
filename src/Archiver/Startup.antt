-- ===== src/Archiver/Startup.antt =====
-- The arguments of the writer's program that pass its tests.
use bsas_sc.Common.{
  ℕ, ◌/◌, ◌<◌, ◌≤◌, leb, Bool, true, false, not, ◌==◌, and-true, ◌≡◌, refl, if◌then◌else◌, arith,
}
use bsas_sc.Merger.Program.{Doubles}
use bsas_sc.Archiver.{Arguments, BaseStat, is_dir, check_args, size_max, with_limits}

module _ (d : Doubles) where
  open d use {Double, zero_sec, lt, eq}

  not-true : (b : Bool) → not b ≡ true → b ≡ false
  not-true true h = cc
  not-true false h = refl

  positive_limit :
      (max_double x : Double)
      → lt zero_sec max_double ≡ true
      → ((y : Double) → lt y zero_sec ≡ false → eq y zero_sec ≡ false → lt zero_sec y ≡ true)
      → lt x zero_sec ≡ false
      → lt zero_sec (if eq x zero_sec then max_double else x) ≡ true
  positive_limit max_double x top compare low = by_eq (eq x zero_sec) refl
    where
      by_eq : (b : Bool) → eq x zero_sec ≡ b → lt zero_sec (if b then max_double else x) ≡ true
      by_eq true e = top
      by_eq false e = compare x low e

  size_limit : (n : ℕ) → 0 < (if n == 0 then size_max else n)
  size_limit n = ground arith

  no_size_limit :
      (n bytes : ℕ)
      → n ≡ 0
      → bytes ≤ size_max
      → leb (if n == 0 then size_max else n) (bytes / 1024 / 1024) ≡ false
  no_size_limit n bytes e small = ground arith

  -- With the arguments that pass the tests every limit of the loop is positive, if no number of seconds is
  -- a NaN; and without a limit on the size no file reaches the limit, its size in bytes being a `size_t`.
  with_limits-check_args :
      (max_double : Double) (a : Arguments d) (base : BaseStat) (bytes : ℕ)
      → lt zero_sec max_double ≡ true
      → ((y : Double) → lt y zero_sec ≡ false → eq y zero_sec ≡ false → lt zero_sec y ≡ true)
      → check_args d a base ≡ true
      → bytes ≤ size_max
      → (lt zero_sec (with_limits d max_double a).timeout_sec ≡ true)
        × (lt zero_sec (with_limits d max_double a).max_duration_sec ≡ true)
        × (0 < (with_limits d max_double a).max_size_mb)
        × (a.max_size_mb ≡ 0
            → leb (with_limits d max_double a).max_size_mb (bytes / 1024 / 1024) ≡ false)
  unfolding check_args with_limits
  with_limits-check_args max_double a base bytes top compare passed small =
      let (front, dir) = (and-true _ (is_dir base)).0 passed in
      let (texts, duration) = (and-true _ (not (lt a.max_duration_sec zero_sec))).0 front in
      let (named, time) = (and-true _ (not (lt a.timeout_sec zero_sec))).0 texts in
      (
        positive_limit max_double a.timeout_sec top compare (not-true _ time),
        positive_limit max_double a.max_duration_sec top compare (not-true _ duration),
        size_limit a.max_size_mb,
        (λ unlimited. no_size_limit a.max_size_mb bytes unlimited small),
      )
