-- ===== src/Writer/Memory.antt =====
-- A concrete instance of the interface of files, which shows that its laws can hold together and serves the
-- tests: a function from paths to what stands there.
use bsas_sc.Common.{
  Result, ◌∙◌, ℕ, zero, suc, ◌≤◌, Bool, true, false, ◌&&◌, ◌≡◌, ◌≢◌, refl, ap, ap₂, if◌then◌else◌,
  List, [], ◌∷◌, ◌++◌, length, take, text_eq, text_eq_iff, text_eq_refl, not_true→false, and-true,
  ok, err, runtime_error, arith,
}
use bsas_sc.Writer.Files.{Hdf5, ObjectPath, Objects, Added}

unfoldable pub path_eq : ObjectPath → ObjectPath → Bool
path_eq [] [] = true
path_eq [] (y ∷ ys) = false
path_eq (x ∷ xs) [] = false
path_eq (x ∷ xs) (y ∷ ys) = text_eq x y && path_eq xs ys

pub path_eq_refl : (x : ObjectPath) → path_eq x x ≡ true
unfolding path_eq
path_eq_refl [] = refl
path_eq_refl (x ∷ xs) = rw (text_eq_refl x) (path_eq_refl xs)

eq_of_path_eq : (x y : ObjectPath) → path_eq x y ≡ true → x ≡ y
unfolding path_eq
eq_of_path_eq [] [] h = refl
eq_of_path_eq [] (y ∷ ys) h = cc
eq_of_path_eq (x ∷ xs) [] h = cc
eq_of_path_eq (x ∷ xs) (y ∷ ys) h =
    let (a, b) = (and-true (text_eq x y) (path_eq xs ys)).0 h in
    ap₂ (λ u us. u ∷ us) ((text_eq_iff x y).0 a) (eq_of_path_eq xs ys b)

abbrev pub pad : ℕ → List ℕ → List ℕ
pad zero xs = []
pad (suc n) [] = 0 ∷ pad n []
pad (suc n) (x ∷ xs) = x ∷ pad n xs

pub length-pad : (n : ℕ) (xs : List ℕ) → length (pad n xs) ≡ n
length-pad zero xs = refl
length-pad (suc n) [] = ap suc (length-pad n [])
length-pad (suc n) (x ∷ xs) = ap suc (length-pad n xs)

pub take-pad : (n : ℕ) (xs : List ℕ) → length xs ≤ n → take (length xs) (pad n xs) ≡ xs
take-pad n [] h = refl
take-pad zero (x ∷ xs) h = elim h [ ]
take-pad (suc n) (x ∷ xs) h = ap (λ ys. x ∷ ys) (take-pad n xs (omega arith))

-- What stands at a path.
pub data Node : Type 0 where
  nothing group : Node
  data_set : List ℕ → Node

abbrev pub Contents : Type 0
Contents = ObjectPath → Node

abbrev pub elems_at : Node → List ℕ
elems_at nothing = []
elems_at group = []
elems_at (data_set xs) = xs

abbrev pub is_nothing : Node → Bool
is_nothing nothing = true
is_nothing group = false
is_nothing (data_set xs) = false

abbrev pub is_a_group : Node → Bool
is_a_group nothing = false
is_a_group group = true
is_a_group (data_set xs) = false

abbrev pub update : Contents → ObjectPath → Node → Contents
update f d n x = if path_eq x d then n else f x

pub update_self : (f : Contents) (d : ObjectPath) (n : Node) → update f d n d ≡ n
update_self f d n = rw (path_eq_refl d) refl

pub update_other :
    (f : Contents) (d : ObjectPath) (n : Node) (x : ObjectPath) → x ≢ d → update f d n x ≡ f x
update_other f d n x h = rw (not_true→false (path_eq x d) (λ e. h (eq_of_path_eq x d e))) refl

abbrev pub nodes : Objects ℕ Contents
nodes = record {
  is_free = λ f x. is_nothing (f x);
  is_group = λ f x. is_a_group (f x);
  contents = λ f x. elems_at (f x);
}

-- An object is created where there is nothing.
abbrev pub create : Contents → ObjectPath → Node → Result Contents
create f d n = if is_nothing (f d) then ok (update f d n) else err runtime_error

pub create_lem :
    (f : Contents) (d : ObjectPath) (n : Node)
    → is_nothing n ≡ false
    → is_nothing (f d) ≡ true
    → (create f d n ≡ ok (update f d n)) × Added nodes f (update f d n) d
create_lem f d n h free = (
  rw free refl,
  record {
    grows = λ x taken.
        let other = update_other f d n x (λ e. cc (ap (λ y. is_nothing (f y)) e, taken, free)) in
        (ap is_nothing other ∙ taken, ap is_a_group other, ap elems_at other);
    taken = ap is_nothing (update_self f d n) ∙ h;
    others = λ x k. ap is_nothing (update_other f d n x k);
  },
)

pub exists_of_group : (n : Node) → is_a_group n ≡ true → is_nothing n ≡ false
exists_of_group nothing h = cc
exists_of_group group h = refl
exists_of_group (data_set xs) h = cc

abbrev pub in_memory : Hdf5 ℕ
in_memory = record {
  File = Contents;
  objects = nodes;
  create_group = λ f d. create f d group;
  get_group = λ f d. if is_a_group (f d) then ok tt else err runtime_error;
  create_data_set = λ f d s n. create f d (data_set []);
  create_attribute = λ f d a t. f;
  create_texts = λ f d ts. create f d (data_set []);
  create_codes = λ f d ts. create f d (data_set []);
  flush = λ f. f;
  get_dimensions = λ f d. length (elems_at (f d));
  resize = λ f d n. update f d (data_set (pad n (elems_at (f d))));
  write_raw = λ f d n xs. update f d (data_set (take n (elems_at (f d)) ++ xs));
  group_exists = λ f d h. exists_of_group (f d) h;
  create_group_lem = λ f parent n g free.
      let d = parent ++ n ∷ [] in
      let (q, a) = create_lem f d group refl free in
      (update f d group, q, a, ap is_a_group (update_self f d group));
  get_group_lem = λ f d h. rw h refl;
  create_data_set_lem = λ f parent n s c g free.
      let d = parent ++ n ∷ [] in
      let (q, a) = create_lem f d (data_set []) refl free in
      (update f d (data_set []), q, a, ap elems_at (update_self f d (data_set [])));
  create_texts_lem = λ f parent n ts g free.
      let (q, a) = create_lem f (parent ++ n ∷ []) (data_set []) refl free in
      (update f (parent ++ n ∷ []) (data_set []), q, a);
  create_codes_lem = λ f parent n ts g free.
      let (q, a) = create_lem f (parent ++ n ∷ []) (data_set []) refl free in
      (update f (parent ++ n ∷ []) (data_set []), q, a);
  create_attribute_lem = λ f d n t x. (refl, refl, refl);
  get_dimensions_lem = λ f d. refl;
  length-resize = λ f d n.
      ap (λ x. length (elems_at x)) (update_self f d (data_set (pad n (elems_at (f d)))))
      ∙ length-pad n (elems_at (f d));
  take-resize = λ f d n h.
      ap (λ x. take (length (elems_at (f d))) (elems_at x))
        (update_self f d (data_set (pad n (elems_at (f d)))))
      ∙ take-pad n (elems_at (f d)) h;
  resize_other =
      λ f d n x h. ap elems_at (update_other f d (data_set (pad n (elems_at (f d)))) x h);
  write_raw-end =
      λ f d n xs h. ap elems_at (update_self f d (data_set (take n (elems_at (f d)) ++ xs)));
  write_raw-other =
      λ f d n xs x h. ap elems_at (update_other f d (data_set (take n (elems_at (f d)) ++ xs)) x h);
  contents-flush = λ f d. refl;
}
