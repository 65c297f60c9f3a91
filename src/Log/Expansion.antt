-- ===== src/Log/Expansion.antt =====
-- What the log macros of src/lib.rs match, and what their expansion does.
use rust_systemd.Base.{
  ◌≡◌, ◌≢◌, inl, inr, ◌↔◌, Option, none, some, List, [], ◌∷◌, refl, ap, sym, ◌∙◌, Option-cases,
}
use rust_systemd.Ffi.{Eff}
use rust_systemd.Log.{
  TokenTree, comma, token, LogLocation, one_more, match_args, transcribe, Logger, block, formatted,
  matched, log_with,
}

match_args-transcribe :
    (arg : TokenTree) (args : List TokenTree)
    → match_args (transcribe (arg ∷ args)) ≡ some (arg ∷ args)
unfolding match_args
match_args-transcribe arg [] = refl
match_args-transcribe arg (another ∷ args) = rw (match_args-transcribe another args) refl

transcribe-cons :
    (arg : TokenTree) (args : List TokenTree)
    → args ≢ []
    → transcribe (arg ∷ args) ≡ arg ∷ comma ∷ transcribe args
transcribe-cons arg [] h = absurd (h refl)
transcribe-cons arg (another ∷ args) h = refl

some_args :
    {args args' : List TokenTree}
    → ◌≡◌ {A = Option (List TokenTree)} (some args) (some args')
    → args ≡ args'
some_args h = cc

module _ (arg : TokenTree) (rest args : List TokenTree) where
  -- The tokens behind a comma that are matched on their own are matched with one more in front.
  behind_comma :
      (more : List TokenTree)
      → match_args rest ≡ some more
      → (more ≢ []) × (rest ≡ transcribe more)
      → match_args (arg ∷ comma ∷ rest) ≡ some args
      → (args ≢ []) × (arg ∷ comma ∷ rest ≡ transcribe args)
  unfolding match_args
  behind_comma more e (ne, same) h =
      let whole : arg ∷ more ≡ args = some_args (sym (ap (one_more arg) e) ∙ h) in
      (
        λ z. cc,
        ap {B = List TokenTree} (λ (x : List TokenTree). arg ∷ comma ∷ x) same
            ∙ sym (transcribe-cons arg more ne)
            ∙ ap transcribe whole,
      )

-- Tokens that are matched are those of the expansion, and are not none at all.
transcribe-match_args :
    (tokens args : List TokenTree)
    → match_args tokens ≡ some args
    → (args ≢ []) × (tokens ≡ transcribe args)
unfolding match_args
transcribe-match_args [] args h = absurd cc
transcribe-match_args (arg ∷ []) args h = (λ z. cc, ap transcribe (some_args h))
transcribe-match_args (arg ∷ comma ∷ rest) args h = elim (Option-cases (match_args rest)) [
  | inl e ↦ absurd (let z = sym h ∙ ap (one_more arg) e in cc)
  | inr (more, e) ↦ behind_comma arg rest args more e (transcribe-match_args rest more e) h
]
transcribe-match_args (arg ∷ token _ ∷ rest) args h = absurd cc

module _ {W Level Arguments Output : Type 0}
    (format_args : List TokenTree → Option (Eff W Arguments)) (here : LogLocation)
    (func : Eff W (Logger W Level Arguments Output)) (level : Eff W Level) where
  abbrev pub Expands : List TokenTree → Eff W Output → Type 0
  Expands tokens e =
      (args : List TokenTree) × (arguments : Eff W Arguments) × (args ≢ [])
      × (tokens ≡ transcribe args)
      × (format_args tokens ≡ some arguments)
      × (e ≡ block format_args here func level arguments)

  formatted-Expands :
      (tokens args : List TokenTree) (e : Eff W Output)
      → args ≢ []
      → tokens ≡ transcribe args
      → (o : Option (Eff W Arguments)) → format_args tokens ≡ o
      → formatted format_args here func level o ≡ some e
      → Expands tokens e
  formatted-Expands tokens args e ne same none f h = absurd cc
  formatted-Expands tokens args e ne same (some arguments) f h = (args, arguments, ne, same, f, cc)

  log_with-Expands :
      (tokens : List TokenTree) (e : Eff W Output)
      → log_with format_args here func level tokens ≡ some e
      → Expands tokens e
  unfolding log_with
  log_with-Expands tokens e h = elim (Option-cases (match_args tokens)) [
    | inl z ↦ absurd (let q = sym h ∙ ap (matched format_args here func level) z in cc)
    | inr (args, z) ↦
        let (ne, same) = transcribe-match_args tokens args z in
        formatted-Expands tokens args e ne same (format_args tokens) refl (
          ap (λ x. formatted format_args here func level (format_args x)) same
          ∙ sym (ap (matched format_args here func level) z)
          ∙ h)
  ]

  Expands-log_with :
      (tokens : List TokenTree) (e : Eff W Output)
      → Expands tokens e
      → log_with format_args here func level tokens ≡ some e
  unfolding log_with
  Expands-log_with tokens e ([], arguments, ne, _, _, _) = absurd (ne refl)
  Expands-log_with tokens e (arg ∷ args, arguments, ne, same, f, z) =
      rw (same, match_args-transcribe arg args, sym same, f, z) refl

  -- `log_with!` expands exactly if its arguments are token trees with a comma between two, at least one,
  -- which `format_args!` takes; the expansion hands them on as they are written.
  pub log_with_iff :
      (tokens : List TokenTree) (e : Eff W Output)
      → (log_with format_args here func level tokens ≡ some e) ↔ Expands tokens e
  log_with_iff tokens e = (log_with-Expands tokens e, Expands-log_with tokens e)
