-- ===== src/Archiver.antt =====
-- writerApp/src/writerMain.cpp: the program around the writer. This file has its arguments, the reasons for
-- which it ends and the path of a file; the loop is in Archiver/Loop.
pub mod Digits
pub mod Paths
pub mod Loop
pub mod Startup
use bsas_sc.Common.{
  ℕ, suc, ◌+◌, Bool, true, false, not, ◌&&◌, ◌||◌, ◌==◌, if◌then◌else◌, Option, none, some, List,
  [], ◌∷◌, ◌++◌, take, Text, codes, Result, ok, err, runtime_error, ◌>>=◌,
}
use bsas_sc.Stamp.{EpicsTimeStamp}
use bsas_sc.Align.{decimal, pad_zeros}
use bsas_sc.Merger.Program.{Doubles}

-- `enum StopReason`
pub data StopReason : Type 0 where
  interrupted timeout disconnected error : StopReason

-- `STOP_REASON_STR`
unfoldable pub stop_reason_str : StopReason → Text
stop_reason_str interrupted = codes "The program was interrupted"
stop_reason_str timeout = codes "Timed out while waiting for PV updates"
stop_reason_str disconnected = codes "The PV disconnected"
stop_reason_str error = codes "An unexpected error occurred"

unfoldable pub is_err : StopReason → Bool
is_err interrupted = false
is_err timeout = true
is_err disconnected = true
is_err error = true

-- The value that `main` returns.
unfoldable pub exit_code : StopReason → ℕ
exit_code reason = if is_err reason then 1 else 0

-- The fields of `struct tm` that the program reads.
pub record Tm : Type 0 where
  pub tm_year : ℕ
  pub tm_mon : ℕ
  pub tm_mday : ℕ
  pub tm_hour : ℕ
  pub tm_min : ℕ
  pub tm_sec : ℕ

-- What `mkdir` says.
pub data Mkdir : Type 0 where
  made already_exists failed : Mkdir

abbrev pub slash : Text
slash = 47 ∷ []

-- `%d` and `%02d`; the second is also what the stream prints with `fill('0')` and `setw(2)`.
unfoldable pub print_int : ℕ → Text
print_int n = decimal (suc n) n

unfoldable pub print_int2 : ℕ → Text
print_int2 n = pad_zeros 2 (print_int n)

-- The last argument of `epicsSnprintf`, all of it.
unfoldable pub file_name : Text → Tm → Text
file_name file_prefix t =
    let time =
      print_int2 t.tm_hour ++ (print_int2 t.tm_min ++ (print_int2 t.tm_sec ++ codes ".h5")) in
    let day = print_int2 (t.tm_mon + 1) ++ (print_int2 t.tm_mday ++ (codes "_" ++ time)) in
    file_prefix ++ (codes "_" ++ (print_int (1900 + t.tm_year) ++ day))

unfoldable pub printed_path : Text → Text → Tm → Text
printed_path base_directory file_prefix t =
    let in_day = slash ++ (print_int2 t.tm_mday ++ (slash ++ file_name file_prefix t)) in
    let in_month = slash ++ (print_int2 (t.tm_mon + 1) ++ in_day) in
    base_directory ++ (slash ++ (print_int (1900 + t.tm_year) ++ in_month))

-- The bytes of `output_file` before the one that ends the string.
abbrev pub output_file_max : ℕ
output_file_max = 4095

-- The loop that makes the directories one below the other, and the last of them.
unfoldable pub make_dirs : (Text → Mkdir) → Text → List ℕ → Result Text
make_dirs mkdir output_dir [] = ok output_dir
make_dirs mkdir output_dir (component ∷ components) =
    let out_dir = output_dir ++ (slash ++ print_int2 component) in
    elim (mkdir out_dir) [
      | made ↦ make_dirs mkdir out_dir components
      | already_exists ↦ make_dirs mkdir out_dir components
      | failed ↦ err runtime_error
    ]

unfoldable pub create_folder_and_file : (Text → Mkdir) → Text → Text → Tm → Result Text
create_folder_and_file mkdir base_directory file_prefix t =
    let output_file = take output_file_max (printed_path base_directory file_prefix t) in
    make_dirs mkdir base_directory ((1900 + t.tm_year) ∷ (t.tm_mon + 1) ∷ t.tm_mday ∷ []) >>= λ dir.
    ok output_file

abbrev pub empty : Text → Bool
empty [] = true
empty (c ∷ cs) = false

-- What `stat` says of the base directory: nothing if it fails, else whether it is a directory.
abbrev pub BaseStat : Type 0
BaseStat = Option Bool

abbrev pub is_dir : BaseStat → Bool
is_dir none = false
is_dir (some b) = b

-- `std::numeric_limits<size_t>::max()`
abbrev pub size_max : ℕ
size_max = 18446744073709551615

module _ (d : Doubles) where
  open d use {Double, zero_sec, lt, eq}

  -- The variables that the command line sets.
  pub record Arguments : Type 0 where
    pub input_pv : Text
    pub base_directory : Text
    pub file_prefix : Text
    pub root_group : Text
    pub timeout_sec : Double
    pub max_duration_sec : Double
    pub max_size_mb : ℕ
    pub label_sep : Text
    pub col_sep : Text

  -- The tests of `CHECK_ARG`; if one of them fails `main` returns 1.
  unfoldable pub check_args : Arguments → BaseStat → Bool
  check_args a base =
      not (empty a.input_pv || empty a.base_directory || empty a.file_prefix || empty a.root_group)
      && not (lt a.timeout_sec zero_sec)
      && not (lt a.max_duration_sec zero_sec)
      && is_dir base

  -- A limit of zero becomes the largest number; `max_double` is `std::numeric_limits<double>::max()`.
  unfoldable pub with_limits : Double → Arguments → Arguments
  with_limits max_double a = record a {
    timeout_sec = if eq a.timeout_sec zero_sec then max_double else a.timeout_sec;
    max_duration_sec = if eq a.max_duration_sec zero_sec then max_double else a.max_duration_sec;
    max_size_mb = if a.max_size_mb == 0 then size_max else a.max_size_mb;
  }
