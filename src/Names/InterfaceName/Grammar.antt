-- ===== src/Names/InterfaceName/Grammar.antt =====
-- What `InterfaceName::from_bytes` of src/bus/mod.rs accepts, against the D-Bus specification.
use rust_systemd.Base.{
  ℕ, ◌+◌, ◌^◌, ◌≤◌, ◌<◌, ◌≡◌, ◌≢◌, ◌⊎◌, inl, inr, ◌↔◌, List, [], ◌∷◌, ◌++◌, arith, Bytes, All,
  length, ok, ap, append_assoc,
}
use rust_systemd.Names.Chars.{IsNameChar, IsNameStart}
use rust_systemd.Names.Counter.{add_one, IsAboveZero}
use rust_systemd.Names.Tail.{
  Tail, Tail-sep, Tail-char, Tail-end, IsElement, element-chars, spelled, fewer_elements,
}
use rust_systemd.Names.InterfaceName.{InterfaceName, from_bytes_unchecked, scan, from_bytes}

abbrev pub IsInterfaceElement : Bytes → Type 0
IsInterfaceElement = IsElement IsNameStart IsNameChar

-- The ways in which one more window is passed.
abbrev Passed : Bytes → ℕ → ℕ → ℕ → Bytes → InterfaceName → Type 0
Passed b prev periods c rest p =
    ((c ≡ b'.') × (prev ≢ b'.') × (scan b c (add_one periods) rest ≡ ok p))
    ⊎ ((IsNameChar c × (prev ≡ b'.' → IsNameStart c) × (scan b c periods rest ≡ ok p))
        ⊎ ((c ≡ 0)
            × (prev ≡ b'.' → length b ≡ 1)
            × IsAboveZero periods
            × (p ≡ from_bytes_unchecked b)))

scan-Passed :
    (b : Bytes) (prev periods c : ℕ) (rest : Bytes) {p : InterfaceName}
    → scan b prev periods (c ∷ rest) ≡ ok p
    → Passed b prev periods c rest p
unfolding scan
scan-Passed b prev periods c rest h = ground arith

-- Behind a period comes an element, and there are two elements at least.
abbrev Rule : ℕ → ℕ → Bytes → List Bytes → Bytes → Type 0
Rule prev periods word more junk =
    (prev ≡ b'.' → IsInterfaceElement word) × (0 < periods + length more)

abbrev NameTail : ℕ → ℕ → Bytes → Type 0
NameTail prev periods = Tail b'.' IsNameStart IsNameChar (Rule prev periods)

scan-Tail :
    (b : Bytes) (prev periods : ℕ) (rest : Bytes) {p : InterfaceName}
    → 1 < length b
    → scan b prev periods rest ≡ ok p
    → NameTail prev periods rest × (p ≡ from_bytes_unchecked b)
scan-Tail b prev periods [] n h = unfold scan in cc
scan-Tail b prev periods (c ∷ rest) {p} n h =
    step (scan-Passed b prev periods c rest h) (scan-Tail b c (add_one periods) rest n)
      (scan-Tail b c periods rest n)
  where
    step :
        Passed b prev periods c rest p
        → (scan b c (add_one periods) rest ≡ ok p
            → NameTail c (add_one periods) rest × (p ≡ from_bytes_unchecked b))
        → (scan b c periods rest ≡ ok p → NameTail c periods rest × (p ≡ from_bytes_unchecked b))
        → NameTail prev periods (c ∷ rest) × (p ≡ from_bytes_unchecked b)
    step (inl (period, ne, next)) ih _ =
        let (t, e) = ih next in
        (rw period (Tail-sep t (t.rule.0 period) (λ q. absurd (ne q), omega (arith, t.rule.1))), e)
    step (inr (inl (good, start, next))) _ ih =
        let (t, e) = ih next in (Tail-char t good (λ q. (start q, t.word_chars), t.rule.1), e)
    step (inr (inr (z, one, some_period, e))) _ _ =
        (rw z (Tail-end rest (λ q. absurd (omega (arith, one q)), omega arith)), e)

module _ (b : Bytes) (prev periods : ℕ) where
  pub scan-char :
      (c : ℕ) (rest : Bytes)
      → IsNameChar c
      → (prev ≡ b'.' → IsNameStart c)
      → scan b prev periods (c ∷ rest) ≡ scan b c periods rest
  unfolding scan
  scan-char c rest h s = ground arith

  pub scan-period :
      (rest : Bytes)
      → prev ≢ b'.'
      → scan b prev periods (b'.' ∷ rest) ≡ scan b b'.' (add_one periods) rest
  unfolding scan
  scan-period rest h = ground arith

  scan-nul :
      (rest : Bytes)
      → prev ≢ b'.'
      → IsAboveZero periods
      → scan b prev periods (0 ∷ rest) ≡ ok (from_bytes_unchecked b)
  unfolding scan
  scan-nul rest h n = ground arith

pub not_period : {c : ℕ} → IsNameChar c → c ≢ b'.'
not_period h = ground arith

pub IsNameStart→IsNameChar : (c : ℕ) → IsNameStart c → IsNameChar c
IsNameStart→IsNameChar c h = ground arith

scan-spelled :
    (b : Bytes) (prev periods : ℕ) (word : Bytes) (more : List Bytes) (junk : Bytes)
    → All IsNameChar word
    → All IsInterfaceElement more
    → IsAboveZero (periods + length more)
    → (prev ≡ b'.' → IsInterfaceElement word)
    → scan b prev periods (word ++ (spelled b'.' more ++ 0 ∷ junk)) ≡ ok (from_bytes_unchecked b)
scan-spelled b prev periods [] [] junk hw hm n r =
    scan-nul b prev periods junk (λ q. r q) (omega arith)
scan-spelled b prev periods [] (e ∷ es) junk hw (he, hes) n r =
    rw (scan-period b prev periods _ (λ q. r q), append_assoc)
      (scan-spelled b b'.' (add_one periods) e es junk (element-chars IsNameStart→IsNameChar e he)
        hes (omega arith) (λ _. he))
scan-spelled b prev periods (c ∷ w) more junk (hc, hw) hm n r =
    rw (scan-char b prev periods c _ hc (λ q. (r q).0))
      (scan-spelled b c periods w more junk hw hm n (λ q. absurd (not_period hc q)))

-- An interface name of the specification: two elements or more, with a period between two.
pub record HoldsInterface (b : Bytes) : Type 0 where
  pub first : Bytes
  pub others : List Bytes
  pub junk : Bytes
  pub first_element : IsInterfaceElement first
  pub other_elements : All IsInterfaceElement others
  pub at_least_two : 0 < length others
  pub spells : b ≡ first ++ (spelled b'.' others ++ 0 ∷ junk)

first_byte :
    (c : ℕ) (rest : Bytes) {p : InterfaceName}
    → from_bytes (c ∷ rest) ≡ ok p
    → IsNameStart c × (scan (c ∷ rest) c 0 rest ≡ ok p)
unfolding from_bytes
first_byte c rest h = ground arith

scan-nil :
    (c : ℕ) (rest : Bytes) {p : InterfaceName}
    → scan (c ∷ rest) c 0 rest ≡ ok p
    → 1 < length (c ∷ rest)
unfolding scan
scan-nil c [] h = cc
scan-nil c (d ∷ rest) h = omega arith

pub from_bytes→HoldsInterface :
    (b : Bytes) {p : InterfaceName}
    → from_bytes b ≡ ok p
    → (p ≡ from_bytes_unchecked b) × HoldsInterface b
from_bytes→HoldsInterface [] h = unfold from_bytes in cc
from_bytes→HoldsInterface (c ∷ rest) h =
    let (start, scanned) = first_byte c rest h in
    let (t, e) = scan-Tail (c ∷ rest) c 0 rest (scan-nil c rest scanned) scanned in
    (
      e,
      record {
        first = c ∷ t.word;
        others = t.more;
        junk = t.junk;
        first_element = (start, t.word_chars);
        other_elements = t.elements;
        at_least_two = omega (arith, t.rule.1);
        spells = ap (λ x. c ∷ x) t.spells;
      },
    )

pub enter_name :
    (c : ℕ) (rest : Bytes) → IsNameStart c → from_bytes (c ∷ rest) ≡ scan (c ∷ rest) c 0 rest
unfolding from_bytes
enter_name c rest h = ground arith

from_bytes-spelled :
    (first : Bytes) (others : List Bytes) (junk : Bytes)
    → IsInterfaceElement first
    → All IsInterfaceElement others
    → IsAboveZero (length others)
    → from_bytes (first ++ (spelled b'.' others ++ 0 ∷ junk))
      ≡ ok (from_bytes_unchecked (first ++ (spelled b'.' others ++ 0 ∷ junk)))
from_bytes-spelled [] others junk h _ _ = elim h [ ]
from_bytes-spelled (c ∷ w) others junk (hc, hw) ho n = rw (enter_name c _ hc) (
    scan-spelled _ c 0 w others junk hw ho (omega arith)
      (λ q. absurd (not_period (IsNameStart→IsNameChar c hc) q)))

few_others :
    (b : Bytes) (holds : HoldsInterface b) → length b ≤ 2 ^ 31 → IsAboveZero (length holds.others)
few_others b holds short = (
  holds.at_least_two,
  omega (
    arith,
    ap {B = ℕ} length holds.spells,
    fewer_elements b'.' holds.first holds.others holds.junk,
  ),
)

-- `InterfaceName::from_bytes` accepts exactly those slices of at most 2^31 bytes, which the counter of 32
-- bits is large enough for, that begin with an interface name of two or more elements, none of which a
-- digit begins, and '\0', and it returns the whole slice.
pub interface_name_iff :
    (b : Bytes) (p : InterfaceName)
    → length b ≤ 2 ^ 31
    → (from_bytes b ≡ ok p) ↔ ((p ≡ from_bytes_unchecked b) × HoldsInterface b)
interface_name_iff b p short = (
  from_bytes→HoldsInterface b,
  λ (e, holds).
      rw (e, holds.spells)
        (from_bytes-spelled holds.first holds.others holds.junk holds.first_element
          holds.other_elements (few_others b holds short)),
)
