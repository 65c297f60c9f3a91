-- ===== src/Names/BusName/Grammar.antt =====
-- What `BusName::from_bytes` of src/bus/mod.rs accepts, against the D-Bus specification.
use rust_systemd.Base.{
  ℕ, ◌+◌, ◌≤◌, ◌<◌, ◌≡◌, ◌≢◌, ◌⊎◌, inl, inr, ◌↔◌, Bool, true, false, List, [], ◌∷◌, ◌++◌, arith,
  Bytes, All, length, ok, refl, ap, subst, ◌∙◌, append_assoc,
}
use rust_systemd.Names.Chars.{IsBusChar, IsBusStart}
use rust_systemd.Names.Counter.{add_one, IsAboveZero}
use rust_systemd.Names.Tail.{
  Tail, Tail-sep, Tail-char, Tail-end, IsElement, element-chars, spelled, fewer_elements,
}
use rust_systemd.Names.BusName.{BusName, from_bytes_unchecked, scan, from_bytes}

-- What an element may begin with: a digit only in a unique name.
abbrev pub IsStart : Bool → ℕ → Type 0
IsStart true c = IsBusChar c
IsStart false c = IsBusStart c

abbrev pub IsBusElement : Bool → Bytes → Type 0
IsBusElement u = IsElement (IsStart u) IsBusChar

-- The ways in which one more window is passed.
abbrev Passed : Bytes → Bool → ℕ → ℕ → ℕ → Bytes → BusName → Type 0
Passed b u prev periods c rest p =
    ((c ≡ b'.') × (prev ≢ b'.') × (prev ≢ b':') × (scan b u c (add_one periods) rest ≡ ok p))
    ⊎ ((IsBusChar c × (prev ≡ b'.' → IsStart u c) × (scan b u c periods rest ≡ ok p))
        ⊎ ((c ≡ 0)
            × (prev ≡ b'.' → length b ≡ 1)
            × IsAboveZero periods
            × (p ≡ from_bytes_unchecked b)))

scan-Passed :
    (b : Bytes) (u : Bool) (prev periods c : ℕ) (rest : Bytes) {p : BusName}
    → scan b u prev periods (c ∷ rest) ≡ ok p
    → Passed b u prev periods c rest p
unfolding scan
scan-Passed b true prev periods c rest h = ground arith
scan-Passed b false prev periods c rest h = ground arith

-- Behind a period comes an element, and there are two elements at least.
abbrev Rule : Bool → ℕ → ℕ → Bytes → List Bytes → Bytes → Type 0
Rule u prev periods word more junk =
    (prev ≡ b'.' → IsBusElement u word) × (0 < periods + length more)

abbrev NameTail : Bool → ℕ → ℕ → Bytes → Type 0
NameTail u prev periods = Tail b'.' (IsStart u) IsBusChar (Rule u prev periods)

module _ (b : Bytes) (u : Bool) {p : BusName} (long : 1 < length b) where
  scan-Tail :
      (prev periods : ℕ) (rest : Bytes)
      → scan b u prev periods rest ≡ ok p
      → NameTail u prev periods rest × (p ≡ from_bytes_unchecked b)
  scan-Tail prev periods [] h = unfold scan in cc
  scan-Tail prev periods (c ∷ rest) h =
      step (scan-Passed b u prev periods c rest h) (scan-Tail c (add_one periods) rest)
        (scan-Tail c periods rest)
    where
      step :
          Passed b u prev periods c rest p
          → (scan b u c (add_one periods) rest ≡ ok p
              → NameTail u c (add_one periods) rest × (p ≡ from_bytes_unchecked b))
          → (scan b u c periods rest ≡ ok p
              → NameTail u c periods rest × (p ≡ from_bytes_unchecked b))
          → NameTail u prev periods (c ∷ rest) × (p ≡ from_bytes_unchecked b)
      step (inl (period, ne, _, next)) ih _ =
          let (t, e) = ih next in
          (
            rw period (Tail-sep t (t.rule.0 period) (λ q. absurd (ne q), omega (arith, t.rule.1))),
            e,
          )
      step (inr (inl (good, start, next))) _ ih =
          let (t, e) = ih next in (Tail-char t good (λ q. (start q, t.word_chars), t.rule.1), e)
      step (inr (inr (z, one, some_period, e))) _ _ =
          (rw z (Tail-end rest (λ q. absurd (omega (arith, one q)), omega arith)), e)

module _ (b : Bytes) (u : Bool) (prev periods : ℕ) where
  scan-period :
      (rest : Bytes)
      → prev ≢ b'.'
      → prev ≢ b':'
      → scan b u prev periods (b'.' ∷ rest) ≡ scan b u b'.' (add_one periods) rest
  unfolding scan
  scan-period rest h k = ground arith

  scan-nul :
      (rest : Bytes)
      → prev ≢ b'.'
      → IsAboveZero periods
      → scan b u prev periods (0 ∷ rest) ≡ ok (from_bytes_unchecked b)
  unfolding scan
  scan-nul rest h n = ground arith

scan-char :
    (b : Bytes) (u : Bool) (prev periods c : ℕ) (rest : Bytes)
    → IsBusChar c
    → (prev ≡ b'.' → IsStart u c)
    → scan b u prev periods (c ∷ rest) ≡ scan b u c periods rest
unfolding scan
scan-char b true prev periods c rest h s = ground arith
scan-char b false prev periods c rest h s = ground arith

not_separator : {c : ℕ} → IsBusChar c → (c ≢ b'.') × (c ≢ b':')
not_separator h = (λ q. ground arith, λ q. ground arith)

IsStart→IsBusChar : (u : Bool) (c : ℕ) → IsStart u c → IsBusChar c
IsStart→IsBusChar true c h = h
IsStart→IsBusChar false c h = ground arith

scan-spelled :
    (b : Bytes) (u : Bool) (prev periods : ℕ) (word : Bytes) (more : List Bytes) (junk : Bytes)
    → All IsBusChar word
    → All (IsBusElement u) more
    → IsAboveZero (periods + length more)
    → prev ≢ b':'
    → (prev ≡ b'.' → IsBusElement u word)
    → scan b u prev periods (word ++ (spelled b'.' more ++ 0 ∷ junk)) ≡ ok (from_bytes_unchecked b)
scan-spelled b u prev periods [] [] junk hw hm n k r =
    scan-nul b u prev periods junk (λ q. r q) (omega arith)
scan-spelled b u prev periods [] (e ∷ es) junk hw (he, hes) n k r =
    rw (scan-period b u prev periods _ (λ q. r q) k, append_assoc)
      (scan-spelled b u b'.' (add_one periods) e es junk (element-chars (IsStart→IsBusChar u) e he)
        hes (omega arith) (omega arith) (λ _. he))
scan-spelled b u prev periods (c ∷ w) more junk (hc, hw) hm n k r =
    rw (scan-char b u prev periods c _ hc (λ q. (r q).0)) (
      scan-spelled b u c periods w more junk hw hm n (not_separator hc).1
        (λ q. absurd ((not_separator hc).0 q)))

-- What stands in front of the first element: a colon in a unique name.
abbrev pub prefix : Bool → Bytes
prefix true = b':' ∷ []
prefix false = []

-- A bus name of the specification: at most 255 bytes and '\0', two elements or more.
pub record HoldsBusName (b : Bytes) : Type 0 where
  pub is_unique : Bool
  pub first : Bytes
  pub others : List Bytes
  pub junk : Bytes
  pub first_element : IsBusElement is_unique first
  pub other_elements : All (IsBusElement is_unique) others
  pub at_least_two : 0 < length others
  pub short : length b ≤ 256
  pub spells : b ≡ prefix is_unique ++ (first ++ (spelled b'.' others ++ 0 ∷ junk))

-- A well-known name starts with its first element; a unique one with the colon, and a byte behind it.
first_byte :
    (c : ℕ) (rest : Bytes) {p : BusName}
    → from_bytes (c ∷ rest) ≡ ok p
    → (length (c ∷ rest) ≤ 256)
      × ((IsBusStart c × (scan (c ∷ rest) false c 0 rest ≡ ok p))
          ⊎ ((c ≡ b':') × (scan (c ∷ rest) true c 0 rest ≡ ok p)))
unfolding from_bytes
first_byte c rest h = ground arith

scan-long :
    (u : Bool) (c : ℕ) (rest : Bytes) {p : BusName}
    → scan (c ∷ rest) u c 0 rest ≡ ok p
    → 1 < length (c ∷ rest)
unfolding scan
scan-long u c [] h = cc
scan-long u c (d ∷ rest) h = omega arith

module _ {p : BusName} where
  well_known :
      (c : ℕ) (rest : Bytes)
      → length (c ∷ rest) ≤ 256
      → IsBusStart c
      → scan (c ∷ rest) false c 0 rest ≡ ok p
      → (p ≡ from_bytes_unchecked (c ∷ rest)) × HoldsBusName (c ∷ rest)
  well_known c rest short start scanned =
      let (t, e) = scan-Tail (c ∷ rest) false (scan-long false c rest scanned) c 0 rest scanned in
      (
        e,
        record {
          is_unique = false;
          first = c ∷ t.word;
          others = t.more;
          junk = t.junk;
          first_element = (start, t.word_chars);
          other_elements = t.elements;
          at_least_two = omega (arith, t.rule.1);
          short = short;
          spells = ap (λ x. c ∷ x) t.spells;
        },
      )

  unique :
      (b rest : Bytes)
      → b ≡ b':' ∷ rest
      → length b ≤ 256
      → 1 < length b
      → scan b true b':' 0 rest ≡ ok p
      → (p ≡ from_bytes_unchecked b) × HoldsBusName b
  unique b [] whole short long scanned = unfold scan in cc
  unique b (d ∷ rest) whole short long scanned = elim (scan-Passed b true b':' 0 d rest scanned) [
    | inl (_, _, no_colon, _) ↦ absurd (no_colon refl)
    | inr (inl (good, _, next)) ↦
        let (t, e) = scan-Tail b true long d 0 rest next in
        (
          e,
          record {
            is_unique = true;
            first = d ∷ t.word;
            others = t.more;
            junk = t.junk;
            first_element = (good, t.word_chars);
            other_elements = t.elements;
            at_least_two = omega (arith, t.rule.1);
            short = short;
            spells = whole ∙ ap (λ x. b':' ∷ d ∷ x) t.spells;
          },
        )
    | inr (inr (_, _, n, _)) ↦ absurd (omega arith)
  ]

  from_bytes→HoldsBusName :
      (b : Bytes) → from_bytes b ≡ ok p → (p ≡ from_bytes_unchecked b) × HoldsBusName b
  from_bytes→HoldsBusName [] h = unfold from_bytes in cc
  from_bytes→HoldsBusName (c ∷ rest) h =
      let (short, kind) = first_byte c rest h in
      elim kind [
        | inl (start, scanned) ↦ well_known c rest short start scanned
        | inr (colon, scanned) ↦
            unique (c ∷ rest) rest (rw colon) short (scan-long true c rest scanned)
              (subst (λ x. scan (c ∷ rest) true x 0 rest ≡ ok p) colon scanned)
      ]

enter_well_known :
    (c : ℕ) (rest : Bytes)
    → length (c ∷ rest) ≤ 256
    → IsBusStart c
    → from_bytes (c ∷ rest) ≡ scan (c ∷ rest) false c 0 rest
unfolding from_bytes
enter_well_known c rest short h = ground arith

enter_unique :
    (rest : Bytes)
    → length (b':' ∷ rest) ≤ 256
    → from_bytes (b':' ∷ rest) ≡ scan (b':' ∷ rest) true b':' 0 rest
unfolding from_bytes
enter_unique rest short = ground arith

from_bytes-spelled :
    (u : Bool) (first : Bytes) (others : List Bytes) (junk b : Bytes)
    → IsBusElement u first
    → All (IsBusElement u) others
    → IsAboveZero (length others)
    → length b ≤ 256
    → b ≡ prefix u ++ (first ++ (spelled b'.' others ++ 0 ∷ junk))
    → from_bytes b ≡ ok (from_bytes_unchecked b)
from_bytes-spelled u [] others junk b h _ _ _ _ = elim h [ ]
from_bytes-spelled false (c ∷ w) others junk b (hc, hw) ho n short e =
    rw (e, enter_well_known c _ (rw e at short) hc)
      (scan-spelled _ false c 0 w others junk hw ho (omega arith)
        (not_separator (IsStart→IsBusChar false c hc)).1
        (λ q. absurd ((not_separator (IsStart→IsBusChar false c hc)).0 q)))
from_bytes-spelled true (c ∷ w) others junk b (hc, hw) ho n short e =
    rw
      (
        e,
        enter_unique _ (rw e at short),
        scan-char _ true b':' 0 c _ hc (λ q. absurd (omega arith)),
      )
      (scan-spelled _ true c 0 w others junk hw ho (omega arith) (not_separator hc).1
        (λ q. absurd ((not_separator hc).0 q)))

few_others : (b : Bytes) (holds : HoldsBusName b) → IsAboveZero (length holds.others)
few_others b holds =
    let start : Bytes = prefix holds.is_unique ++ holds.first in
    (
      holds.at_least_two,
      omega (
        arith,
        holds.short,
        ap {B = ℕ} length holds.spells,
        ap {B = ℕ} length (
            append_assoc (prefix holds.is_unique) holds.first
              (spelled b'.' holds.others ++ 0 ∷ holds.junk)),
        fewer_elements b'.' start holds.others holds.junk,
      ),
    )

-- `BusName::from_bytes` accepts exactly the slices of at most 256 bytes that begin with a bus name of
-- two or more elements and '\0': a unique name, which a colon begins, or a well-known one, none of
-- whose elements a digit begins. It returns the whole slice.
pub bus_name_iff :
    (b : Bytes) (p : BusName)
    → (from_bytes b ≡ ok p) ↔ ((p ≡ from_bytes_unchecked b) × HoldsBusName b)
bus_name_iff b p = (
  from_bytes→HoldsBusName b,
  λ (e, holds). rw e (
      from_bytes-spelled holds.is_unique holds.first holds.others holds.junk b holds.first_element
        holds.other_elements (few_others b holds) holds.short holds.spells),
)
