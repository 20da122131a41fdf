-- ===== src/Logging/Environment/Level.antt =====
-- The level that XLOG_LEVEL selects.
use xm_sigma.Common.{ℕ, ◌+◌, ◌<◌, ◌≡◌, refl, ap, ◌∙◌, arith, Option, some, [], ◌∷◌}
use xm_sigma.Common.Int.{ℤ, pos}
use xm_sigma.Logging.Level.{LogLevel, to_int}
use xm_sigma.Logging.Rows.{Text}
use xm_sigma.Logging.Environment.{
  log_level_env_var_name, level_of, level_or, get_environment_variable, level_of_text,
  resolve_log_level_from_env,
}

-- A decimal digit.
abbrev pub digit : ℕ → Text
digit n = (0x30 + n) ∷ []

-- What the C standard says of `strtol` with base 10 on a text that is one digit.
abbrev pub ReadsDigits : (Text → ℤ × ℕ) → Type 0
ReadsDigits strtol = (n : ℕ) → n < 10 → strtol (digit n) ≡ (pos n, 1)

pub level_of-to_int : (l : LogLevel) → level_of (to_int l) ≡ l
unfolding level_of
level_of-to_int LogLevel.trace = refl
level_of-to_int LogLevel.debug = refl
level_of-to_int LogLevel.info = refl
level_of-to_int LogLevel.warn = refl
level_of-to_int LogLevel.error = refl
level_of-to_int LogLevel.fatal = refl
level_of-to_int LogLevel.off = refl

any_fallback : (fallback l : LogLevel) → level_or fallback (pos (to_int l)) ≡ l
unfolding level_or level_of
any_fallback fallback LogLevel.trace = refl
any_fallback fallback LogLevel.debug = refl
any_fallback fallback LogLevel.info = refl
any_fallback fallback LogLevel.warn = refl
any_fallback fallback LogLevel.error = refl
any_fallback fallback LogLevel.fatal = refl
any_fallback fallback LogLevel.off = refl

to_int_digit : (l : LogLevel) → to_int l < 10
to_int_digit LogLevel.trace = omega arith
to_int_digit LogLevel.debug = omega arith
to_int_digit LogLevel.info = omega arith
to_int_digit LogLevel.warn = omega arith
to_int_digit LogLevel.error = omega arith
to_int_digit LogLevel.fatal = omega arith
to_int_digit LogLevel.off = omega arith

value :
    (getenv : Text → Option Text) (strtol : Text → ℤ × ℕ) (text : Text)
    → getenv log_level_env_var_name ≡ some text
    → get_environment_variable getenv strtol log_level_env_var_name ≡ text
unfolding get_environment_variable
value getenv strtol text e = rw (e, get_environment_variable) refl

of_digit :
    (getenv : Text → Option Text) (strtol : Text → ℤ × ℕ) (fallback : LogLevel) (n : ℕ)
    → ReadsDigits strtol
    → n < 10
    → level_of_text getenv strtol fallback (digit n) ≡ level_or fallback (pos n)
unfolding level_of_text
of_digit getenv strtol fallback n reads small = rw (reads n small) refl

-- With XLOG_LEVEL set to the digit of a level, that level is resolved, whatever the fallback is,
-- if `strtol` reads a single digit as the C standard says.
pub level_from_environment :
    (getenv : Text → Option Text) (strtol : Text → ℤ × ℕ) (fallback l : LogLevel)
    → ReadsDigits strtol
    → getenv log_level_env_var_name ≡ some (digit (to_int l))
    → resolve_log_level_from_env getenv strtol fallback ≡ l
unfolding resolve_log_level_from_env
level_from_environment getenv strtol fallback l reads e =
    ap (level_of_text getenv strtol fallback) (value getenv strtol (digit (to_int l)) e)
    ∙ of_digit getenv strtol fallback (to_int l) reads (to_int_digit l)
    ∙ any_fallback fallback l
