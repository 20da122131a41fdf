-- ===== src/Logging/Paths.antt =====
-- logging/details/logging_utils.hpp: the name of the process, and the paths and names of log
-- files. What the operating system and the C library answer is a parameter, a `Platform`.
pub mod Names
use xm_sigma.Common.{ℕ, zero, suc, ◌+◌, ◌==◌, Option, none, some, List, [], ◌∷◌, ◌++◌, drop}
use xm_sigma.Common.{if◌then◌else◌}
use xm_sigma.Common.Int.{ℤ}
use xm_sigma.Logging.Rows.{Text}
use xm_sigma.Logging.Environment.{get_environment_variable}

-- `readlink` is given the size of the buffer, and `strftime` too; what `strftime` writes is the
-- text up to its end mark.
pub record Platform : Type 1 where
  pub Tm : Type 0
  pub getenv : Text → Option Text
  pub strtol : Text → ℤ × ℕ
  pub readlink : Text → ℕ → Option Text
  pub localtime_r : ℕ → Tm
  pub strftime : ℕ → Text → Tm → Text

-- "XLOG_FOLDER"
abbrev pub log_folder_env_var_name : Text
log_folder_env_var_name =
    0x58 ∷ 0x4c ∷ 0x4f ∷ 0x47 ∷ 0x5f ∷ 0x46 ∷ 0x4f ∷ 0x4c ∷ 0x44 ∷ 0x45 ∷ 0x52 ∷ []

abbrev pub slash : Text
slash = 0x2f ∷ []

-- "/proc/self/exe"
abbrev pub self_exe : Text
self_exe =
    0x2f ∷ 0x70 ∷ 0x72 ∷ 0x6f ∷ 0x63 ∷ 0x2f ∷ 0x73 ∷ 0x65 ∷ 0x6c ∷ 0x66 ∷ 0x2f ∷ 0x65 ∷ 0x78 ∷ 0x65
    ∷ []

-- `std::string(buffer)` ends at the first zero.
unfoldable pub c_string : Text → Text
c_string [] = []
c_string (c ∷ text) = let rest = c_string text in if c == 0 then [] else c ∷ rest

-- `std::string::find_last_of` with one character; `none` is `npos`.
unfoldable pub find_last_of : ℕ → Text → Option ℕ
find_last_of c [] = none
find_last_of c (d ∷ text) = elim (find_last_of c text) [
  | some i ↦ some (i + 1)
  | none ↦ if d == c then some 0 else none
]

-- `npos + 1` is 0.
abbrev pub after : Option ℕ → ℕ
after none = 0
after (some i) = i + 1

-- On Linux
unfoldable pub get_current_process_name : Platform → Text
unfolding c_string find_last_of
get_current_process_name sys = elim (sys.readlink self_exe 1023) [
  | none ↦ []
  | some buffer ↦ let full = c_string buffer in drop (after (find_last_of 0x2f full)) full
]

-- "HOME", "/tmp" and "/.xmotion"
unfoldable pub get_default_root_path : Platform → Text
get_default_root_path sys =
    elim (sys.getenv (0x48 ∷ 0x4f ∷ 0x4d ∷ 0x45 ∷ [])) [
      | none ↦ 0x2f ∷ 0x74 ∷ 0x6d ∷ 0x70 ∷ []
      | some home ↦ home
    ]
    ++ (0x2f ∷ 0x2e ∷ 0x78 ∷ 0x6d ∷ 0x6f ∷ 0x74 ∷ 0x69 ∷ 0x6f ∷ 0x6e ∷ [])

-- "/log"
unfoldable pub get_log_folder_path : Platform → Text
unfolding get_default_root_path
get_log_folder_path sys = get_default_root_path sys ++ (0x2f ∷ 0x6c ∷ 0x6f ∷ 0x67 ∷ [])

unfoldable pub get_default_log_path : Platform → Text
unfolding get_log_folder_path
get_default_log_path sys =
    elim (get_environment_variable sys.getenv sys.strtol log_folder_env_var_name) [
      | [] ↦ get_log_folder_path sys
      | c ∷ configured ↦ c ∷ configured
    ]

-- What `strftime` makes of `LocalTimeNow(now)` in a buffer of 80.
abbrev pub stamp : Platform → Text → ℕ → Text
stamp sys format now = sys.strftime 80 format (sys.localtime_r now)

-- "%Y%m%d%H%M%S"
abbrev pub csv_format : Text
csv_format = 0x25 ∷ 0x59 ∷ 0x25 ∷ 0x6d ∷ 0x25 ∷ 0x64 ∷ 0x25 ∷ 0x48 ∷ 0x25 ∷ 0x4d ∷ 0x25 ∷ 0x53 ∷ []

-- "%Y%m%d-%H%M%S"
abbrev pub ts_format : Text
ts_format =
    0x25 ∷ 0x59 ∷ 0x25 ∷ 0x6d ∷ 0x25 ∷ 0x64 ∷ 0x2d ∷ 0x25 ∷ 0x48 ∷ 0x25 ∷ 0x4d ∷ 0x25 ∷ 0x53 ∷ []

-- "%Y%m%d"
abbrev pub day_format : Text
day_format = 0x25 ∷ 0x59 ∷ 0x25 ∷ 0x6d ∷ 0x25 ∷ 0x64 ∷ []

-- `now` is what `time(0)` answers; "." and ".csv".
unfoldable pub create_log_file_name : Platform → ℕ → Text → Text → Text
create_log_file_name sys now pre path =
    path
    ++ slash
    ++ pre
    ++ (0x2e ∷ [])
    ++ stamp sys csv_format now
    ++ (0x2e ∷ 0x63 ∷ 0x73 ∷ 0x76 ∷ [])

unfoldable pub create_log_name_with_full_path : Platform → ℕ → Text → Text → Text
create_log_name_with_full_path sys now pre suffix =
    get_default_log_path sys
    ++ slash
    ++ stamp sys day_format now
    ++ slash
    ++ pre
    ++ (0x2d ∷ [])
    ++ stamp sys ts_format now
    ++ suffix
