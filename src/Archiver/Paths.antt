-- ===== src/Archiver/Paths.antt =====
-- The paths of the files.
use bsas_sc.Common.{
  from_ok, ℕ, zero, suc, ◌+◌, ◌<◌, ◌≤◌, ◌≡◌, ◌≢◌, refl, sym, ◌∙◌, ap, List, [], ◌∷◌, ◌++◌,
  append_assoc, take, length, Text, codes, ok, err, runtime_error, >>=-eq-ok, arith,
}
use bsas_sc.Align.{pad_zeros}
use bsas_sc.Archiver.{
  Tm, Mkdir, made, already_exists, failed, slash, print_int, print_int2, file_name, printed_path,
  output_file_max, make_dirs, create_folder_and_file,
}
use bsas_sc.Archiver.Digits.{print_int-four_digits, tail, cut_int2, cut_year, same_piece}

-- The fields are those of a time of the years 1000 to 9999.
pub record IsTime (t : Tm) : Type 0 where
  pub year_low : 1000 ≤ 1900 + t.tm_year
  pub year : 1900 + t.tm_year < 10000
  pub mon : t.tm_mon < 12
  pub mday : t.tm_mday < 32
  pub hour : t.tm_hour < 24
  pub min : t.tm_min < 60
  pub sec : t.tm_sec < 61

abbrev with_day : Tm → Text → Text
with_day t xs = slash ++ (print_int2 t.tm_mday ++ xs)

abbrev with_month : Tm → Text → Text
with_month t xs = slash ++ (print_int2 (t.tm_mon + 1) ++ with_day t xs)

abbrev with_year : Tm → Text → Text
with_year t xs = slash ++ (print_int (1900 + t.tm_year) ++ with_month t xs)

month_below : {t : Tm} → IsTime t → t.tm_mon + 1 < 100
month_below {t} h = let r = h.mon in omega arith

day_below : {t : Tm} → IsTime t → t.tm_mday < 100
day_below {t} h = let r = h.mday in omega arith

-- The date, and what follows it.
same_date :
    (t u : Tm) (xs ys : Text)
    → IsTime t
    → IsTime u
    → with_year t xs ≡ with_year u ys
    → (t.tm_year ≡ u.tm_year) × (t.tm_mon ≡ u.tm_mon) × (t.tm_mday ≡ u.tm_mday) × (xs ≡ ys)
same_date t u xs ys h k e =
    let (y, e1) =
      cut_year (1900 + t.tm_year) (1900 + u.tm_year) (with_month t xs) (with_month u ys)
        (h.year_low, h.year) (k.year_low, k.year) (ap tail e) in
    let (m, e2) =
      cut_int2 (t.tm_mon + 1) (u.tm_mon + 1) (with_day t xs) (with_day u ys) (month_below h)
        (month_below k) (ap tail e1) in
    let (d, e3) = cut_int2 t.tm_mday u.tm_mday xs ys (day_below h) (day_below k) (ap tail e2) in
    (omega arith, omega arith, d, e3)

abbrev with_time : Tm → Text
with_time t = print_int2 t.tm_hour ++ (print_int2 t.tm_min ++ (print_int2 t.tm_sec ++ codes ".h5"))

same_time :
    (t u : Tm)
    → IsTime t
    → IsTime u
    → with_time t ≡ with_time u
    → (t.tm_hour ≡ u.tm_hour) × (t.tm_min ≡ u.tm_min) × (t.tm_sec ≡ u.tm_sec)
same_time t u h k e =
    let (a, b, c) : (t.tm_hour < 100) × (t.tm_min < 100) × (t.tm_sec < 100) = below h in
    let (x, y, z) : (u.tm_hour < 100) × (u.tm_min < 100) × (u.tm_sec < 100) = below k in
    let (f, e1) = cut_int2 t.tm_hour u.tm_hour _ _ a x e in
    let (g, e2) = cut_int2 t.tm_min u.tm_min _ _ b y e1 in
    (f, g, (cut_int2 t.tm_sec u.tm_sec _ _ c z e2).0)
  where
    below : {v : Tm} → IsTime v → (v.tm_hour < 100) × (v.tm_min < 100) × (v.tm_sec < 100)
    below {v} q =
        let r = q.hour in let s = q.min in let w = q.sec in (omega arith, omega arith, omega arith)

-- The same time in the name of the file.
same_name :
    (t u : Tm)
    → IsTime t
    → IsTime u
    → (file_prefix : Text)
    → file_prefix
        ++ (95
            ∷ (print_int (1900 + t.tm_year)
                ++ (print_int2 (t.tm_mon + 1) ++ (print_int2 t.tm_mday ++ (95 ∷ with_time t)))))
      ≡ file_prefix
        ++ (95
            ∷ (print_int (1900 + u.tm_year)
                ++ (print_int2 (u.tm_mon + 1) ++ (print_int2 u.tm_mday ++ (95 ∷ with_time u)))))
    → (t.tm_hour ≡ u.tm_hour) × (t.tm_min ≡ u.tm_min) × (t.tm_sec ≡ u.tm_sec)
same_name t u h k file_prefix e =
    let (y, e1) =
      cut_year (1900 + t.tm_year) (1900 + u.tm_year) _ _ (h.year_low, h.year) (k.year_low, k.year)
        (ap tail (same_piece file_prefix _ _ e)) in
    let (m, e2) = cut_int2 (t.tm_mon + 1) (u.tm_mon + 1) _ _ (month_below h) (month_below k) e1 in
    let (d, e3) = cut_int2 t.tm_mday u.tm_mday _ _ (day_below h) (day_below k) e2 in
    same_time t u h k (ap tail e3)

take_all : (n : ℕ) (xs : Text) → length xs ≤ n → take n xs ≡ xs
take_all zero [] h = refl
take_all (suc n) [] h = refl
take_all zero (x ∷ xs) h = elim h [ ]
take_all (suc n) (x ∷ xs) h = ap (λ ys. x ∷ ys) (take_all n xs (omega arith))

-- A directory of the loop, below the one before.
abbrev pub below : Text → ℕ → Text
below dir n = dir ++ (slash ++ print_int2 n)

abbrev pub IsMade : (Text → Mkdir) → Text → Type 0
IsMade mkdir dir = mkdir dir ≢ failed

make_dirs-cons :
    (mkdir : Text → Mkdir) (base dir : Text) (n : ℕ) (ns : List ℕ)
    → make_dirs mkdir base (n ∷ ns) ≡ ok dir
    → IsMade mkdir (below base n) × (make_dirs mkdir (below base n) ns ≡ ok dir)
unfolding make_dirs
make_dirs-cons mkdir base dir n ns e = by_mkdir (mkdir (below base n)) e
  where
    by_mkdir :
        (o : Mkdir)
        → elim o [
          | made ↦ make_dirs mkdir (below base n) ns
          | already_exists ↦ make_dirs mkdir (below base n) ns
          | failed ↦ err runtime_error
        ]
          ≡ ok dir
        → (o ≢ failed) × (make_dirs mkdir (below base n) ns ≡ ok dir)
    by_mkdir made q = ((λ f. cc), q)
    by_mkdir already_exists q = ((λ f. cc), q)
    by_mkdir failed q = cc

-- The path that is returned, if it is not cut.
returned :
    (mkdir : Text → Mkdir) (base_directory file_prefix path : Text) (t : Tm)
    → length (printed_path base_directory file_prefix t) ≤ output_file_max
    → create_folder_and_file mkdir base_directory file_prefix t ≡ ok path
    → (dir : Text) × (make_dirs mkdir base_directory
          ((1900 + t.tm_year) ∷ (t.tm_mon + 1) ∷ t.tm_mday ∷ [])
        ≡ ok dir)
      × (path ≡ printed_path base_directory file_prefix t)
unfolding create_folder_and_file
returned mkdir base_directory file_prefix path t short e =
    let (dir, ran, q) =
      >>=-eq-ok
        (make_dirs mkdir base_directory ((1900 + t.tm_year) ∷ (t.tm_mon + 1) ∷ t.tm_mday ∷ [])) _
        e in
    (dir, ran, sym (ap (from_ok path) q) ∙ take_all output_file_max _ short)

year_digits : (n : ℕ) → 1000 ≤ n → n < 10000 → print_int n ≡ print_int2 n
unfolding print_int2
year_digits n h k =
    print_int-four_digits n h k ∙ sym (ap (pad_zeros 2) (print_int-four_digits n h k))

printed_path_lem :
    (base_directory file_prefix : Text) (t : Tm)
    → printed_path base_directory file_prefix t
      ≡ base_directory ++ with_year t (slash ++ file_name file_prefix t)
unfolding printed_path
printed_path_lem base_directory file_prefix t = refl

file_name_lem :
    (file_prefix : Text) (t : Tm)
    → file_name file_prefix t
      ≡ file_prefix
        ++ (95
            ∷ (print_int (1900 + t.tm_year)
                ++ (print_int2 (t.tm_mon + 1) ++ (print_int2 t.tm_mday ++ (95 ∷ with_time t)))))
unfolding file_name
file_name_lem file_prefix t = refl

printed_path-below :
    (base_directory file_prefix : Text) (t : Tm)
    → IsTime t
    → printed_path base_directory file_prefix t
      ≡ below (below (below base_directory (1900 + t.tm_year)) (t.tm_mon + 1)) t.tm_mday
        ++ (slash ++ file_name file_prefix t)
printed_path-below base_directory file_prefix t h =
    printed_path_lem base_directory file_prefix t
    ∙ ap
        (λ ds. base_directory ++ (slash ++ (ds ++ with_month t (slash ++ file_name file_prefix t))))
        (year_digits (1900 + t.tm_year) h.year_low h.year)
    ∙ nest base_directory (slash ++ print_int2 (1900 + t.tm_year))
        (slash ++ print_int2 (t.tm_mon + 1)) (slash ++ print_int2 t.tm_mday)
        (slash ++ file_name file_prefix t)
  where
    nest : (a b c d e : Text) → a ++ (b ++ (c ++ (d ++ e))) ≡ ((a ++ b) ++ c) ++ d ++ e
    nest a b c d e =
        sym (append_assoc a b (c ++ (d ++ e)))
        ∙ sym (append_assoc (a ++ b) c (d ++ e))
        ∙ sym (append_assoc ((a ++ b) ++ c) d e)

-- The file is put in the last of three directories, one below the other, that exist when the call returns:
-- those of the year, the month and the day. This holds for the years 1000 to 9999 and a path that fits in
-- the buffer.
pub create_folder_and_file_lem :
    (mkdir : Text → Mkdir) (base_directory file_prefix path : Text) (t : Tm)
    → IsTime t
    → length (printed_path base_directory file_prefix t) ≤ output_file_max
    → create_folder_and_file mkdir base_directory file_prefix t ≡ ok path
    → (year month day : Text) × (year ≡ below base_directory (1900 + t.tm_year))
      × (month ≡ below year (t.tm_mon + 1))
      × (day ≡ below month t.tm_mday)
      × IsMade mkdir year
      × IsMade mkdir month
      × IsMade mkdir day
      × (path ≡ day ++ (slash ++ file_name file_prefix t))
create_folder_and_file_lem mkdir base_directory file_prefix path t h short e =
    let (dir, ran, q) = returned mkdir base_directory file_prefix path t short e in
    let (a, ran1) = make_dirs-cons mkdir base_directory dir _ _ ran in
    let (b, ran2) = make_dirs-cons mkdir _ dir _ _ ran1 in
    let (c, ran3) = make_dirs-cons mkdir _ dir _ _ ran2 in
    (_, _, _, refl, refl, refl, a, b, c, q ∙ printed_path-below base_directory file_prefix t h)

-- Two files on the same base directory and with the same prefix have different paths unless their times
-- agree in all the fields down to the second. This holds for the years 1000 to 9999 and paths that fit in
-- the buffer.
pub create_folder_and_file-injective :
    (mkdir mkdir2 : Text → Mkdir) (base_directory file_prefix path : Text) (t u : Tm)
    → IsTime t
    → IsTime u
    → length (printed_path base_directory file_prefix t) ≤ output_file_max
    → length (printed_path base_directory file_prefix u) ≤ output_file_max
    → create_folder_and_file mkdir base_directory file_prefix t ≡ ok path
    → create_folder_and_file mkdir2 base_directory file_prefix u ≡ ok path
    → (t.tm_year ≡ u.tm_year)
      × (t.tm_mon ≡ u.tm_mon)
      × (t.tm_mday ≡ u.tm_mday)
      × (t.tm_hour ≡ u.tm_hour)
      × (t.tm_min ≡ u.tm_min)
      × (t.tm_sec ≡ u.tm_sec)
unfolding printed_path file_name
create_folder_and_file-injective mkdir mkdir2 base_directory file_prefix path t u h k short short2 e
      f =
    let (dir, ran, q) = returned mkdir base_directory file_prefix path t short e in
    let (dir2, ran2, q2) = returned mkdir2 base_directory file_prefix path u short2 f in
    let (y, m, d, same) =
      same_date t u (slash ++ file_name file_prefix t) (slash ++ file_name file_prefix u) h k (
        same_piece base_directory (with_year t (slash ++ file_name file_prefix t))
          (with_year u (slash ++ file_name file_prefix u))
          (sym (printed_path_lem base_directory file_prefix t)
            ∙ sym q
            ∙ q2
            ∙ printed_path_lem base_directory file_prefix u)) in
    let named = sym (file_name_lem file_prefix t) ∙ ap tail same ∙ file_name_lem file_prefix u in
    let (hour, min, sec) = same_name t u h k file_prefix named in (y, m, d, hour, min, sec)
