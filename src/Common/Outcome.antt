-- ===== src/Common/Outcome.antt =====
-- Results with the errors of the source: C++ exceptions, failed assertions and reads out of range.
use mathlib.Core.Path.{◌≡◌, refl}
use mathlib.Core.Bool.{Bool, true, false}
use mathlib.Core.Option.{Option, none, some}
use mathlib.Core.List.{List, [], ◌∷◌}

-- `bad_access` stands for undefined behaviour: an index or iterator out of range, a null pointer.
pub data Error : Type 0 where
  runtime_error logic_error out_of_range assertion bad_access bad_type : Error

-- What a call returns, or the exception that leaves it.
pub data Result {ℓ} (T : Type ℓ) : Type ℓ where
  err : Error → Result T
  ok : T → Result T

-- `if (!test) throw error;`
abbrev pub guard : Bool → Error → Result (Unit {0})
guard false error = err error
guard true error = ok tt

abbrev pub or_fail {ℓ} : {T : Type ℓ} → Option T → Error → Result T
or_fail none error = err error
or_fail (some t) error = ok t

-- The statements after a call; an exception skips them.
infixl 5 ◌>>=◌ ◌>>◌
abbrev pub ◌>>=◌ {ℓ κ} : {T : Type ℓ} {U : Type κ} → Result T → (T → Result U) → Result U
err error >>= next = err error
ok t >>= next = next t

-- A loop that calls `f` on each element and keeps the results.
abbrev pub map_result {ℓ κ} : {T : Type ℓ} {U : Type κ} → (T → Result U) → List T → Result (List U)
map_result f [] = ok []
map_result f (t ∷ ts) = f t >>= λ u. map_result f ts >>= λ us. ok (u ∷ us)

abbrev pub ◌>>◌ {ℓ} : {U : Type ℓ} → Result (Unit {0}) → Result U → Result U
call >> next = call >>= λ done. next

-- The value of a result, with one for an exception.
abbrev pub from_ok {ℓ} : {T : Type ℓ} → T → Result T → T
from_ok t (err error) = t
from_ok t (ok u) = u

-- A call whose statements after it succeed has succeeded.
pub >>=-eq-ok {ℓ κ} :
    {T : Type ℓ} {U : Type κ} (call : Result T) (next : T → Result U) {u : U}
    → (call >>= next) ≡ ok u
    → (t : T) × (call ≡ ok t) × (next t ≡ ok u)
>>=-eq-ok (err error) next h = cc
>>=-eq-ok (ok t) next h = (t, refl, h)
