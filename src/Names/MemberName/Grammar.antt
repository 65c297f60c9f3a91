-- ===== src/Names/MemberName/Grammar.antt =====
-- What `MemberName::from_bytes` of src/bus/mod.rs accepts, against the D-Bus specification.
use rust_systemd.Base.{
  ℕ, ◌≤◌, ◌≡◌, ◌⊎◌, inl, inr, ◌↔◌, [], ◌∷◌, ◌++◌, arith, Bytes, All, length, length-append, ok,
  refl, ap,
}
use rust_systemd.Names.Chars.{IsNameChar, IsNameStart}
use rust_systemd.Names.Tail.{IsElement}
use rust_systemd.Names.MemberName.{MemberName, from_bytes_unchecked, scan, from_bytes}

-- A member name of the specification, with '\0', in at most 256 bytes.
pub record HoldsMember (b : Bytes) : Type 0 where
  pub name : Bytes
  pub junk : Bytes
  pub is_element : IsElement IsNameStart IsNameChar name
  pub short : length b ≤ 256
  pub spells : b ≡ name ++ 0 ∷ junk

scan-next :
    (b : Bytes) (c : ℕ) (rest : Bytes) {p : MemberName}
    → scan b (c ∷ rest) ≡ ok p
    → (IsNameChar c × (scan b rest ≡ ok p)) ⊎ ((c ≡ 0) × (p ≡ from_bytes_unchecked b))
unfolding scan
scan-next b c rest h = ground arith

record Chars (text : Bytes) : Type 0 where
  word : Bytes
  junk : Bytes
  word_chars : All IsNameChar word
  spells : text ≡ word ++ 0 ∷ junk

scan-Chars :
    (b text : Bytes) {p : MemberName}
    → scan b text ≡ ok p
    → Chars text × (p ≡ from_bytes_unchecked b)
scan-Chars b [] h = unfold scan in cc
scan-Chars b (c ∷ rest) {p} h = step (scan-next b c rest h) (scan-Chars b rest)
  where
    step :
        (IsNameChar c × (scan b rest ≡ ok p)) ⊎ ((c ≡ 0) × (p ≡ from_bytes_unchecked b))
        → (scan b rest ≡ ok p → Chars rest × (p ≡ from_bytes_unchecked b))
        → Chars (c ∷ rest) × (p ≡ from_bytes_unchecked b)
    step (inl (good, next)) ih =
        let (t, e) = ih next in
        (
          record {
            word = c ∷ t.word;
            junk = t.junk;
            word_chars = (good, t.word_chars);
            spells = ap (λ x. c ∷ x) t.spells;
          },
          e,
        )
    step (inr (z, e)) _ = (record { word = []; junk = rest; word_chars = tt; spells = rw z }, e)

scan-char : (b : Bytes) (c : ℕ) (rest : Bytes) → IsNameChar c → scan b (c ∷ rest) ≡ scan b rest
unfolding scan
scan-char b c rest h = ground arith

scan-nul : (b rest : Bytes) → scan b (0 ∷ rest) ≡ ok (from_bytes_unchecked b)
unfolding scan
scan-nul b rest = refl

scan-spelled :
    (b word junk : Bytes)
    → All IsNameChar word
    → scan b (word ++ 0 ∷ junk) ≡ ok (from_bytes_unchecked b)
scan-spelled b [] junk h = scan-nul b junk
scan-spelled b (c ∷ w) junk (hc, hw) = rw (scan-char b c _ hc) (scan-spelled b w junk hw)

first_byte :
    (c : ℕ) (rest : Bytes) {p : MemberName}
    → from_bytes (c ∷ rest) ≡ ok p
    → (length (c ∷ rest) ≤ 256) × IsNameStart c × (scan (c ∷ rest) rest ≡ ok p)
unfolding from_bytes
first_byte c rest h = ground arith

from_bytes→HoldsMember :
    (b : Bytes) {p : MemberName}
    → from_bytes b ≡ ok p
    → (p ≡ from_bytes_unchecked b) × HoldsMember b
from_bytes→HoldsMember [] h = unfold from_bytes in cc
from_bytes→HoldsMember (c ∷ rest) h =
    let (short, start, scanned) = first_byte c rest h in
    let (t, e) = scan-Chars (c ∷ rest) rest scanned in
    (
      e,
      record {
        name = c ∷ t.word;
        junk = t.junk;
        is_element = (start, t.word_chars);
        short = short;
        spells = ap (λ x. c ∷ x) t.spells;
      },
    )

enter :
    (c : ℕ) (rest : Bytes)
    → length (c ∷ rest) ≤ 256
    → 2 ≤ length (c ∷ rest)
    → IsNameStart c
    → from_bytes (c ∷ rest) ≡ scan (c ∷ rest) rest
unfolding from_bytes
enter c rest short long h = ground arith

from_bytes-spelled :
    (name junk b : Bytes)
    → IsElement IsNameStart IsNameChar name
    → length b ≤ 256
    → b ≡ name ++ 0 ∷ junk
    → from_bytes b ≡ ok (from_bytes_unchecked b)
from_bytes-spelled [] junk b h short e = elim h [ ]
from_bytes-spelled (c ∷ w) junk b (hc, hw) short e =
    rw (e, enter c _ (rw e at short) (omega (arith, length-append w (0 ∷ junk))) hc)
      (scan-spelled _ w junk hw)

-- `MemberName::from_bytes` accepts exactly the slices of at most 256 bytes that begin with a member
-- name of the specification and '\0', and it returns the whole slice.
pub member_name_iff :
    (b : Bytes) (p : MemberName)
    → (from_bytes b ≡ ok p) ↔ ((p ≡ from_bytes_unchecked b) × HoldsMember b)
member_name_iff b p = (
  from_bytes→HoldsMember b,
  λ (e, holds).
      rw e (from_bytes-spelled holds.name holds.junk b holds.is_element holds.short holds.spells),
)
