-- ===== src/Log.antt =====
-- The log macros of src/lib.rs, `log_with!` and `sd_journal_log!`: which tokens they match, and what the
-- code does that they expand to.
pub mod Expansion
pub mod Order
mod Tests
use rust_systemd.Base.{ℕ, Option, none, some, List, [], ◌∷◌, Bytes}
use rust_systemd.Ffi.{Eff, ◌>>=◌}

-- What `$arg:tt` matches: a comma, or else any other token, or a group in brackets, as its text.
pub data TokenTree : Type 0 where
  comma : TokenTree
  token : Bytes → TokenTree

-- `::log::LogLocation`
pub record LogLocation : Type 0 where
  pub line : ℕ
  pub file : Bytes
  pub module_path : Bytes

abbrev pub one_more : TokenTree → Option (List TokenTree) → Option (List TokenTree)
one_more arg none = none
one_more arg (some args) = some (arg ∷ args)

-- `$($arg:tt),+` as a pattern: token trees, with a comma between two.
unfoldable pub match_args : List TokenTree → Option (List TokenTree)
match_args [] = none
match_args (arg ∷ []) = some (arg ∷ [])
match_args (arg ∷ comma ∷ rest) = one_more arg (match_args rest)
match_args (arg ∷ token _ ∷ rest) = none

-- `$($arg),+` as it is written into the expansion.
abbrev pub transcribe : List TokenTree → List TokenTree
transcribe [] = []
transcribe (arg ∷ []) = arg ∷ []
transcribe (arg ∷ another ∷ args) = arg ∷ comma ∷ transcribe (another ∷ args)

-- What `$func` is a value of.
abbrev pub Logger : Type 0 → Type 0 → Type 0 → Type 0 → Type 0
Logger W Level Arguments Output = Level → LogLocation → Arguments → Eff W Output

-- `format_args` is the macro of the language: it refuses the tokens, or it is an expression. `none` is code
-- that does not compile.
module _ {W Level Arguments Output : Type 0}
    (format_args : List TokenTree → Option (Eff W Arguments)) where
  -- The block behind `=>`: `here` is the static LOC.
  unfoldable pub block :
      LogLocation
      → Eff W (Logger W Level Arguments Output)
      → Eff W Level
      → Eff W Arguments
      → Eff W Output
  unfolding ◌>>=◌
  block here func level arguments = do lvl ← level; f ← func; args ← arguments; f lvl here args

  abbrev pub formatted :
      LogLocation
      → Eff W (Logger W Level Arguments Output)
      → Eff W Level
      → Option (Eff W Arguments)
      → Option (Eff W Output)
  formatted here func level none = none
  formatted here func level (some arguments) = some (block here func level arguments)

  abbrev pub matched :
      LogLocation
      → Eff W (Logger W Level Arguments Output)
      → Eff W Level
      → Option (List TokenTree)
      → Option (Eff W Output)
  matched here func level none = none
  matched here func level (some args) = formatted here func level (format_args (transcribe args))

  -- `log_with!(func, level, tokens)`
  unfoldable pub log_with :
      LogLocation
      → Eff W (Logger W Level Arguments Output)
      → Eff W Level
      → List TokenTree
      → Option (Eff W Output)
  unfolding block match_args
  log_with here func level tokens = matched here func level (match_args tokens)

  -- `sd_journal_log!(level, tokens)`: `journal_log` is what the path `::systemd::journal::log` names, if
  -- it names anything.
  unfoldable pub sd_journal_log :
      Option (Eff W (Logger W Level Arguments Output))
      → LogLocation
      → Eff W Level
      → List TokenTree
      → Option (Eff W Output)
  unfolding log_with
  sd_journal_log journal_log here level [] = none
  sd_journal_log none here level (arg ∷ args) = none
  sd_journal_log (some log) here level (arg ∷ args) = log_with here log level (arg ∷ args)
