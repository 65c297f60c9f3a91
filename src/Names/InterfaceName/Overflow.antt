-- ===== src/Names/InterfaceName/Overflow.antt =====
-- The counter of `InterfaceName::from_bytes` of src/bus/mod.rs in a name of more elements than it can count.
use rust_systemd.Base.{
  ℕ, ◌+◌, ◌%◌, ◌^◌, ◌<◌, ◌≡◌, ◌≢◌, List, [], ◌∷◌, ◌++◌, arith, Bytes, All, length, err,
  append_assoc,
}
use rust_systemd.Names.Chars.{IsNameChar}
use rust_systemd.Names.Counter.{add_one, IsBelowOne}
use rust_systemd.Names.Tail.{element-chars, spelled}
use rust_systemd.Names.InterfaceName.{one_element, scan, from_bytes}
use rust_systemd.Names.InterfaceName.Grammar.{
  IsInterfaceElement, scan-char, scan-period, not_period, IsNameStart→IsNameChar, enter_name,
}

scan-uncounted :
    (b : Bytes) (prev periods : ℕ) (junk : Bytes)
    → prev ≢ b'.'
    → IsBelowOne periods
    → scan b prev periods (0 ∷ junk) ≡ err one_element
unfolding scan
scan-uncounted b prev periods junk h n = ground arith

-- Periods that a counter of 32 bits, which stands at `periods`, has at most 0 of behind the name.
overflow-scan :
    (b : Bytes) (prev periods : ℕ) (word : Bytes) (more : List Bytes) (junk : Bytes)
    → All IsNameChar word
    → All IsInterfaceElement more
    → periods < 2 ^ 32
    → IsBelowOne ((periods + length more) % 2 ^ 32)
    → (prev ≡ b'.' → IsInterfaceElement word)
    → scan b prev periods (word ++ (spelled b'.' more ++ 0 ∷ junk)) ≡ err one_element
overflow-scan b prev periods [] [] junk hw hm fits n r =
    scan-uncounted b prev periods junk (λ q. r q) (ground arith)
overflow-scan b prev periods [] (e ∷ es) junk hw (he, hes) fits n r =
    rw (scan-period b prev periods _ (λ q. r q), append_assoc)
      (overflow-scan b b'.' (add_one periods) e es junk (element-chars IsNameStart→IsNameChar e he)
        hes (omega arith) (ground arith) (λ _. he))
overflow-scan b prev periods (c ∷ w) more junk (hc, hw) hm fits n r =
    rw (scan-char b prev periods c _ hc (λ q. (r q).0))
      (overflow-scan b c periods w more junk hw hm fits n (λ q. absurd (not_period hc q)))

-- A name of 2^31 + 1 to 2^32 + 1 elements is refused with the message that it has one.
pub overflow_lem :
    (first : Bytes) (others : List Bytes) (junk : Bytes)
    → IsInterfaceElement first
    → All IsInterfaceElement others
    → IsBelowOne (length others % 2 ^ 32)
    → from_bytes (first ++ (spelled b'.' others ++ 0 ∷ junk)) ≡ err one_element
overflow_lem [] others junk h _ _ = elim h [ ]
overflow_lem (c ∷ w) others junk (hc, hw) ho n = rw (enter_name c _ hc) (
    overflow-scan _ c 0 w others junk hw ho (omega arith) (ground arith)
      (λ q. absurd (not_period (IsNameStart→IsNameChar c hc) q)))
