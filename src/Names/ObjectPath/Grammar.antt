-- ===== src/Names/ObjectPath/Grammar.antt =====
-- What `ObjectPath::from_bytes` of src/bus/mod.rs accepts, against the grammar of the D-Bus specification.
use rust_systemd.Base.{
  ℕ, suc, ◌+◌, ◌≡◌, ◌≢◌, ◌⊎◌, inl, inr, ◌↔◌, List, [], ◌∷◌, ◌++◌, arith, Bytes, All, length, ok,
  refl, ap, subst, append_assoc,
}
use rust_systemd.Names.Chars.{IsNameChar}
use rust_systemd.Names.Tail.{Tail, Tail-sep, Tail-char, Tail-end, IsElement, element-chars, spelled}
use rust_systemd.Names.ObjectPath.{ObjectPath, from_bytes_unchecked, scan, from_bytes}

abbrev pub IsPathElement : Bytes → Type 0
IsPathElement = IsElement IsNameChar IsNameChar

-- The root path, or elements that each stand behind a slash.
abbrev pub path_of : List Bytes → Bytes
path_of [] = b'/' ∷ []
path_of (e ∷ es) = spelled b'/' (e ∷ es)

-- The three ways in which one more window is passed.
abbrev Passed : Bytes → ℕ → ℕ → Bytes → ObjectPath → Type 0
Passed b prev c rest p =
    ((c ≡ b'/') × (prev ≢ b'/') × (scan b c rest ≡ ok p))
    ⊎ ((IsNameChar c × (scan b c rest ≡ ok p))
        ⊎ ((c ≡ 0) × (prev ≡ b'/' → length b ≡ 2) × (p ≡ from_bytes_unchecked b)))

scan-Passed :
    (b : Bytes) (prev c : ℕ) (rest : Bytes) {p : ObjectPath}
    → scan b prev (c ∷ rest) ≡ ok p
    → Passed b prev c rest p
unfolding scan
scan-Passed b prev c rest h = ground arith

-- Behind a slash comes an element, or the end of the root path. `before` counts the bytes of the
-- slice in front of `prev`.
abbrev Rule : ℕ → ℕ → Bytes → List Bytes → Bytes → Type 0
Rule before prev word more junk =
    prev ≡ b'/' → IsPathElement word ⊎ ((word ≡ []) × (more ≡ []) × (before ≡ 0) × (junk ≡ []))

abbrev PathTail : ℕ → ℕ → Bytes → Type 0
PathTail before prev = Tail b'/' IsNameChar IsNameChar (Rule before prev)

length-zero {ℓ} : {A : Type ℓ} (xs : List A) → length xs ≡ 0 → xs ≡ []
length-zero [] h = refl
length-zero (x ∷ xs) h = absurd (omega (arith, h))

scan-Tail :
    (b : Bytes) (k prev : ℕ) (rest : Bytes) {p : ObjectPath}
    → length b ≡ k + suc (length rest)
    → scan b prev rest ≡ ok p
    → PathTail k prev rest × (p ≡ from_bytes_unchecked b)
scan-Tail b k prev [] n h = unfold scan in cc
scan-Tail b k prev (c ∷ rest) {p} n h =
    step (scan-Passed b prev c rest h) (scan-Tail b (suc k) c rest (omega arith))
  where
    step :
        Passed b prev c rest p
        → (scan b c rest ≡ ok p → PathTail (suc k) c rest × (p ≡ from_bytes_unchecked b))
        → PathTail k prev (c ∷ rest) × (p ≡ from_bytes_unchecked b)
    step (inl (slash, ne, next)) ih =
        let (t, e) = ih next in
        (rw slash (Tail-sep t (ground (arith, t.rule slash)) (λ q. absurd (ne q))), e)
    step (inr (inl (good, next))) ih =
        let (t, e) = ih next in (Tail-char t good (λ _. inl (good, t.word_chars)), e)
    step (inr (inr (z, two, e))) ih = (
      rw z (
          Tail-end rest
            (λ q. inr (refl, refl, omega (arith, two q), length-zero rest (omega (arith, two q))))),
      e,
    )

module _ (b : Bytes) (prev : ℕ) where
  scan-char : (c : ℕ) (rest : Bytes) → IsNameChar c → scan b prev (c ∷ rest) ≡ scan b c rest
  unfolding scan
  scan-char c rest h = ground arith

  scan-slash : (rest : Bytes) → prev ≢ b'/' → scan b prev (b'/' ∷ rest) ≡ scan b b'/' rest
  unfolding scan
  scan-slash rest h = ground arith

  scan-nul :
      (rest : Bytes)
      → (prev ≡ b'/' → length b ≡ 2)
      → scan b prev (0 ∷ rest) ≡ ok (from_bytes_unchecked b)
  unfolding scan
  scan-nul rest h = ground arith

not_slash : {c : ℕ} → IsNameChar c → c ≢ b'/'
not_slash h = ground arith

-- The bytes behind `prev` may begin like this.
abbrev Ready : Bytes → ℕ → Bytes → List Bytes → Type 0
Ready b prev word more = (prev ≢ b'/') ⊎ (IsPathElement word ⊎ ((more ≡ []) × (length b ≡ 2)))

scan-spelled :
    (b : Bytes) (prev : ℕ) (word : Bytes) (more : List Bytes) (junk : Bytes)
    → All IsNameChar word
    → All IsPathElement more
    → Ready b prev word more
    → scan b prev (word ++ (spelled b'/' more ++ 0 ∷ junk)) ≡ ok (from_bytes_unchecked b)
scan-spelled b prev [] [] junk hw hm r = scan-nul b prev junk (ground arith)
scan-spelled b prev [] (e ∷ es) junk hw (he, hes) r =
    rw (scan-slash b prev _ (ground arith), append_assoc)
      (scan-spelled b b'/' e es junk (element-chars (λ _ h. h) e he) hes (inr (inl he)))
scan-spelled b prev (c ∷ w) more junk (hc, hw) hm r =
    rw (scan-char b prev c _ hc) (scan-spelled b c w more junk hw hm (inl (not_slash hc)))

-- A path of the specification and its '\0'; behind the root path nothing else may stand.
pub record HoldsPath (b : Bytes) : Type 0 where
  pub elements : List Bytes
  pub junk : Bytes
  pub are_elements : All IsPathElement elements
  pub spells : b ≡ path_of elements ++ 0 ∷ junk
  pub root : elements ≡ [] → junk ≡ []

PathTail→HoldsPath : (rest : Bytes) → PathTail 0 b'/' rest → HoldsPath (b'/' ∷ rest)
PathTail→HoldsPath rest t = elim (t.rule refl) [
  | inl e ↦ record {
    elements = t.word ∷ t.more;
    junk = t.junk;
    are_elements = (e, t.elements);
    spells = rw (t.spells, append_assoc);
    root = λ q. cc;
  }
  | inr (w, m, _, j) ↦ record {
    elements = [];
    junk = [];
    are_elements = tt;
    spells = rw (t.spells, w, m, j);
    root = λ _. refl;
  }
]

first_slash :
    (c : ℕ) (rest : Bytes) {p : ObjectPath}
    → from_bytes (c ∷ rest) ≡ ok p
    → (c ≡ b'/') × (scan (c ∷ rest) c rest ≡ ok p)
unfolding from_bytes
first_slash c rest h = ground arith

from_bytes→HoldsPath :
    (b : Bytes) {p : ObjectPath} → from_bytes b ≡ ok p → (p ≡ from_bytes_unchecked b) × HoldsPath b
from_bytes→HoldsPath [] h = unfold from_bytes in cc
from_bytes→HoldsPath (c ∷ rest) h =
    let (slash, scanned) = first_slash c rest h in
    let (t, e) = scan-Tail (c ∷ rest) 0 c rest (omega arith) scanned in
    (e, rw slash (PathTail→HoldsPath rest (subst (λ x. PathTail 0 x rest) slash t)))

from_bytes-path_of :
    (es : List Bytes) (junk : Bytes)
    → All IsPathElement es
    → (es ≡ [] → junk ≡ [])
    → from_bytes (path_of es ++ 0 ∷ junk) ≡ ok (from_bytes_unchecked (path_of es ++ 0 ∷ junk))
unfolding from_bytes
from_bytes-path_of [] junk _ root =
    scan-nul (b'/' ∷ 0 ∷ junk) b'/' junk (λ _. ap (λ (j : Bytes). suc (suc (length j))) (root refl))
from_bytes-path_of (e ∷ es) junk (he, hes) _ =
    rw append_assoc
      (scan-spelled _ b'/' e es junk (element-chars (λ _ h. h) e he) hes (inr (inl he)))

-- `ObjectPath::from_bytes` accepts exactly the slices that begin with a path of the specification
-- and '\0', where the root path must end the slice, and it returns the whole slice.
pub object_path_iff :
    (b : Bytes) (p : ObjectPath)
    → (from_bytes b ≡ ok p) ↔ ((p ≡ from_bytes_unchecked b) × HoldsPath b)
object_path_iff b p = (
  from_bytes→HoldsPath b,
  λ (e, holds).
      rw (e, holds.spells)
        (from_bytes-path_of holds.elements holds.junk holds.are_elements holds.root),
)
