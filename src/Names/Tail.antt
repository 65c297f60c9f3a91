-- ===== src/Names/Tail.antt =====
-- The grammar that the name checks of src/bus/mod.rs share: elements behind a separator, then '\0'.
use rust_systemd.Base.{
  ℕ, ◌≤◌, ◌<◌, ◌≡◌, refl, ap, sym, ◌∙◌, List, [], ◌∷◌, ◌++◌, append_assoc, Bytes, All, Lacks,
  Lacks-append, ◌≢◌, length, length-append, arith,
}

-- Elements, each behind the separator.
abbrev pub spelled : ℕ → List Bytes → Bytes
spelled sep [] = []
spelled sep (e ∷ es) = sep ∷ (e ++ spelled sep es)

-- An element: not empty, its first byte in the class `F` and the others in `P`.
abbrev pub IsElement : (ℕ → Type 0) → (ℕ → Type 0) → Bytes → Type 0
IsElement F P [] = ⊥
IsElement F P (c ∷ e) = F c × All P e

module _ (sep : ℕ) (F P : ℕ → Type 0) where
  -- What a scan may still read: the rest of an element, further elements, the end, and what lies
  -- behind it. `Rule` says more of these parts.
  pub record Tail (Rule : Bytes → List Bytes → Bytes → Type 0) (text : Bytes) : Type 0 where
    pub word : Bytes
    pub more : List Bytes
    pub junk : Bytes
    pub word_chars : All P word
    pub elements : All (IsElement F P) more
    pub spells : text ≡ word ++ (spelled sep more ++ 0 ∷ junk)
    pub rule : Rule word more junk

module _ {sep : ℕ} {F P : ℕ → Type 0} where
  module _ {Rule Rule' : Bytes → List Bytes → Bytes → Type 0} {text : Bytes} where
    pub Tail-sep :
        (t : Tail sep F P Rule text)
        → IsElement F P t.word
        → Rule' [] (t.word ∷ t.more) t.junk
        → Tail sep F P Rule' (sep ∷ text)
    Tail-sep t e r = record {
      word = [];
      more = t.word ∷ t.more;
      junk = t.junk;
      word_chars = tt;
      elements = (e, t.elements);
      spells = ap (λ x. sep ∷ x) (t.spells ∙ sym (append_assoc t.word _ _));
      rule = r;
    }

    pub Tail-char :
        {c : ℕ} (t : Tail sep F P Rule text)
        → P c
        → Rule' (c ∷ t.word) t.more t.junk
        → Tail sep F P Rule' (c ∷ text)
    Tail-char {c} t good r = record {
      word = c ∷ t.word;
      more = t.more;
      junk = t.junk;
      word_chars = (good, t.word_chars);
      elements = t.elements;
      spells = ap (λ x. c ∷ x) t.spells;
      rule = r;
    }

  pub Tail-end :
      {Rule : Bytes → List Bytes → Bytes → Type 0} (text : Bytes)
      → Rule [] [] text
      → Tail sep F P Rule (0 ∷ text)
  Tail-end text r = record {
    word = [];
    more = [];
    junk = text;
    word_chars = tt;
    elements = tt;
    spells = refl;
    rule = r;
  }

length-spelled : (sep : ℕ) (es : List Bytes) → length es ≤ length (spelled sep es)
length-spelled sep [] = omega arith
length-spelled sep (e ∷ es) = omega (arith, length-append e (spelled sep es), length-spelled sep es)

-- A text is longer than the elements behind its first one are many.
pub fewer_elements :
    (sep : ℕ) (start : Bytes) (others : List Bytes) (junk : Bytes)
    → length others < length (start ++ (spelled sep others ++ 0 ∷ junk))
fewer_elements sep start others junk = omega (
  arith,
  length-spelled sep others,
  length-append start (spelled sep others ++ 0 ∷ junk),
  length-append (spelled sep others) (0 ∷ junk),
)

pub element-chars :
    {F P : ℕ → Type 0} → ((c : ℕ) → F c → P c) → (e : Bytes) → IsElement F P e → All P e
element-chars incl [] h = elim h [ ]
element-chars incl (c ∷ e) (h, hs) = (incl c h, hs)

-- A byte that is no separator and in none of the classes stands in no name.
module _ (bad sep : ℕ) {F P : ℕ → Type 0} (ne : sep ≢ bad) (not_F : (c : ℕ) → F c → c ≢ bad)
    (not_P : (c : ℕ) → P c → c ≢ bad) where
  pub Lacks-chars : (w : Bytes) → All P w → Lacks bad w
  Lacks-chars [] h = tt
  Lacks-chars (c ∷ w) (h, hs) = (not_P c h, Lacks-chars w hs)

  pub Lacks-element : (e : Bytes) → IsElement F P e → Lacks bad e
  Lacks-element [] h = elim h [ ]
  Lacks-element (c ∷ w) (h, hs) = (not_F c h, Lacks-chars w hs)

  pub Lacks-spelled : (es : List Bytes) → All (IsElement F P) es → Lacks bad (spelled sep es)
  Lacks-spelled [] h = tt
  Lacks-spelled (e ∷ es) (h, hs) =
      (ne, Lacks-append bad e (spelled sep es) (Lacks-element e h) (Lacks-spelled es hs))

  pub Lacks-element-spelled :
      (e : Bytes) (es : List Bytes)
      → IsElement F P e
      → All (IsElement F P) es
      → Lacks bad (e ++ spelled sep es)
  Lacks-element-spelled e es h hs =
      Lacks-append bad e (spelled sep es) (Lacks-element e h) (Lacks-spelled es hs)
