-- ===== src/Merger/Queue/Served.antt =====
-- Where the items of a subscription are: in the queue, with an event function, or with the thread.
use bsas_sc.Common.{
  ℕ, Bool, true, false, ◌||◌, ◌==◌, ==_iff, ◌≡◌, refl, if◌then◌else◌, Option, none, some, List, [],
  ◌∷◌, ◌++◌, Result, ok, err, runtime_error, logic_error, out_of_range, assertion, bad_access,
  bad_type, arith,
}
use bsas_sc.Merger.{catch_push}
use bsas_sc.Merger.Queue.{
  Phase, at_test, in_pop, left_loop, holding, in_push, after_pop, after_item,
}

-- Whether an item is that of a subscription, and whether a queue holds one.
abbrev pub is_item : ℕ → Option ℕ → Bool
is_item i none = false
is_item i (some j) = i == j

abbrev pub queued : ℕ → List (Option ℕ) → Bool
queued i [] = false
queued i (x ∷ xs) = is_item i x || queued i xs

abbrev pub called : ℕ → List ℕ → Bool
called i [] = false
called i (j ∷ js) = i == j || called i js

-- Whether the thread works on the subscription, or has ended.
abbrev pub serves : ℕ → Phase → Bool
serves i at_test = false
serves i in_pop = false
serves i left_loop = true
serves i (holding j) = i == j
serves i (in_push j) = i == j

queued-append :
    (i : ℕ) (xs : List (Option ℕ)) (x : Option ℕ)
    → queued i (xs ++ x ∷ []) ≡ (queued i xs || is_item i x)
queued-append i [] x = ground arith
queued-append i (y ∷ xs) x = ground (arith, queued-append i xs x)

called-append : (i : ℕ) (js : List ℕ) (j : ℕ) → called i (js ++ j ∷ []) ≡ (called i js || i == j)
called-append i [] j = ground arith
called-append i (x ∷ js) j = ground (arith, called-append i js j)

pub same_item : (i : ℕ) → (i == i) ≡ true
same_item i = (==_iff i i).1 refl

-- What a delivery leaves is never `wait`.
pub serves-catch_push :
    (i : ℕ) (r : Result (Unit {0})) → serves i (after_item i (catch_push r)) ≡ true
unfolding after_item catch_push
serves-catch_push i (ok x) = same_item i
serves-catch_push i (err out_of_range) = same_item i
serves-catch_push i (err runtime_error) = refl
serves-catch_push i (err logic_error) = refl
serves-catch_push i (err assertion) = refl
serves-catch_push i (err bad_access) = refl
serves-catch_push i (err bad_type) = refl

-- Something will look at the subscription: an item in the queue, an event function that has been called,
-- or the thread.
abbrev pub awake_at : List (Option ℕ) → List ℕ → Phase → ℕ → Bool
awake_at queue calling phase i = queued i queue || (called i calling || serves i phase)

pub serves_more :
    (q : List (Option ℕ)) (c : List ℕ) (a b : Phase) (i : ℕ)
    → (serves i a ≡ true → serves i b ≡ true)
    → awake_at q c a i ≡ true
    → awake_at q c b i ≡ true
serves_more q c a b i h = more (queued i q) (called i c) (serves i a) (serves i b) h
  where
    more :
        (x y s t : Bool) → (s ≡ true → t ≡ true) → (x || (y || s)) ≡ true → (x || (y || t)) ≡ true
    more true y s t f e = refl
    more false true s t f e = refl
    more false false s t f e = f e

pub awake-after_pop :
    (q : List (Option ℕ)) (c : List ℕ) (running : Bool) (x : Option ℕ) (i : ℕ)
    → awake_at (x ∷ q) c in_pop i ≡ true
    → awake_at q c (after_pop running x) i ≡ true
unfolding after_pop
awake-after_pop q c running none i h = ground arith
awake-after_pop q c true (some j) i h = ground arith
awake-after_pop q c false (some j) i h = ground arith

pub awake-in_push :
    (q : List (Option ℕ)) (c : List ℕ) (j i : ℕ)
    → awake_at q c (in_push j) i ≡ true
    → awake_at (q ++ some j ∷ []) c at_test i ≡ true
awake-in_push q c j i h = ground (arith, queued-append i q (some j))

pub awake-callback :
    (q : List (Option ℕ)) (c : List ℕ) (phase : Phase) (j i : ℕ)
    → awake_at q (j ∷ c) phase i ≡ true
    → awake_at (q ++ some j ∷ []) c phase i ≡ true
awake-callback q c phase j i h = ground (arith, queued-append i q (some j))

pub awake-pump :
    (q : List (Option ℕ)) (c : List ℕ) (phase : Phase) (i : ℕ)
    → awake_at q c phase i ≡ true
    → awake_at (q ++ none ∷ []) c phase i ≡ true
awake-pump q c phase i h = ground (arith, queued-append i q none)

pub awake-event :
    (q : List (Option ℕ)) (c : List ℕ) (phase : Phase) (event : Bool) (j i : ℕ)
    → awake_at q c phase i ≡ true
    → awake_at q (if event then c ++ j ∷ [] else c) phase i ≡ true
awake-event q c phase true j i h = ground (arith, called-append i c j)
awake-event q c phase false j i h = h

pub awake-called :
    (q : List (Option ℕ)) (c : List ℕ) (phase : Phase) (j : ℕ)
    → awake_at q (c ++ j ∷ []) phase j ≡ true
awake-called q c phase j = ground (arith, called-append j c j, same_item j)

pub served :
    (q : List (Option ℕ)) (c : List ℕ) (a : Phase) (i : ℕ)
    → serves i a ≡ true
    → awake_at q c a i ≡ true
served q c a i h = ground arith
