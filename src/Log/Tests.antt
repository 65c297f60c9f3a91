-- ===== src/Log/Tests.antt =====
-- Expansions of the log macros of src/lib.rs at concrete tokens, and an instance of the theorem on them.
use rust_systemd.Base.{ℕ, ◌≡◌, ◌↔◌, Option, none, some, List, [], ◌∷◌, refl, codes, length}
use rust_systemd.Ffi.{Eff, Machine, returns, fails, nul_error, ◌>>=◌}
use rust_systemd.Log.{TokenTree, comma, token, LogLocation, Logger, block, log_with, sd_journal_log}
use rust_systemd.Log.Expansion.{Expands}
use rust_systemd.Log.Order.{log_with_lem, Ran}

-- A `format_args!` that takes what begins with a token, and counts the tokens.
abbrev count_tokens : List TokenTree → Option (Eff (List ℕ) ℕ)
count_tokens [] = none
count_tokens (comma ∷ _) = none
count_tokens (token t ∷ more) = some (λ s. (returns (length (token t ∷ more)), s))

abbrev here : LogLocation
here = record { line = 7; file = codes "main.rs"; module_path = codes "main" }

-- A logger that keeps the level, the line and the arguments.
abbrev keep : Eff (List ℕ) (Logger (List ℕ) ℕ ℕ (Unit {0}))
keep s = (
  returns (λ lvl loc args t. (returns tt, record t { world = lvl ∷ loc.line ∷ args ∷ t.world })),
  s,
)

abbrev level : Eff (List ℕ) ℕ
level s = (returns 4, s)

-- The arguments of `hi`, which are three tokens.
abbrev three : Eff (List ℕ) ℕ
three s = (returns 3, s)

abbrev start : Machine (List ℕ)
start = record { memory = record { next = 1; live = [] }; world = [] }

-- `"HI {:?}", 2`
abbrev hi : List TokenTree
hi = token (codes "HI {:?}") ∷ comma ∷ token (codes "2") ∷ []

-- `"HI {}", a.b`: the second argument is three tokens.
abbrev field_argument : List TokenTree
field_argument =
    token (codes "HI {}") ∷ comma ∷ token (codes "a") ∷ token (codes ".") ∷ token (codes "b") ∷ []

refuses_field_argument : log_with count_tokens here keep level field_argument ≡ none
unfolding log_with
refuses_field_argument = refl

refuses_trailing_comma :
    log_with count_tokens here keep level (token (codes "HI") ∷ comma ∷ []) ≡ none
unfolding log_with
refuses_trailing_comma = refl

expands_hi :
    log_with count_tokens here keep level hi ≡ some (block count_tokens here keep level three)
unfolding log_with
expands_hi = refl

logs_hi : (block count_tokens here keep level three start).1.world ≡ 4 ∷ 7 ∷ 3 ∷ []
unfolding block ◌>>=◌
logs_hi = refl

-- An error that the level ends with leaves before the logger is called.
stops_at_level :
    block count_tokens here keep (λ s. (fails nul_error, s)) three start ≡ (fails nul_error, start)
unfolding block ◌>>=◌
stops_at_level = refl

-- src/journal.rs has no function `log`.
refuses_journal_log : sd_journal_log {Output = Unit {0}} count_tokens none here level hi ≡ none
unfolding sd_journal_log
refuses_journal_log = refl

log_with_lem_example :
    (log_with count_tokens here keep level hi ≡ some (block count_tokens here keep level three)
      ↔ Expands count_tokens here keep level hi (block count_tokens here keep level three))
    × Ran count_tokens here keep level three start (block count_tokens here keep level three start)
log_with_lem_example =
    log_with_lem count_tokens here keep level hi (block count_tokens here keep level three) three
      start
