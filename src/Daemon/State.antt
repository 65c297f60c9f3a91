-- ===== src/Daemon/State.antt =====
-- `state_to_c_string` of src/daemon.rs: the text that `notify` sends. The `HashMap` is the list of its
-- entries in the order in which `iter` gives them.
use rust_systemd.Base.{
  ℕ, ◌≡◌, ◌≢◌, List, [], ◌∷◌, ◌++◌, arith, Bytes, ◌==◌, if◌then◌else◌, All, Lacks, Lacks-append,
  refl, sym, map,
}

abbrev pub StateMap : Type 0
StateMap = List (Bytes × Bytes)

-- `vec![*key, *value].join("=")`
entry_line : Bytes × Bytes → Bytes
entry_line (key, value) = key ++ b'=' ∷ value

-- `join("\n")`
join_lines : List Bytes → Bytes
join_lines [] = []
join_lines (l ∷ []) = l
join_lines (l ∷ m ∷ ls) = l ++ 10 ∷ join_lines (m ∷ ls)

-- The text before `CString::new`.
unfoldable pub state_text : StateMap → Bytes
unfolding entry_line join_lines
state_text state = join_lines (map entry_line state)

-- How the receiver reads the text: lines, each cut at its first '='.
cut_line : Bytes → Bytes × Bytes
cut_line [] = ([], [])
cut_line (c ∷ s) = let (key, value) = cut_line s in if c == b'=' then ([], s) else (c ∷ key, value)

add_byte : ℕ → List Bytes → List Bytes
add_byte c [] = (c ∷ []) ∷ []
add_byte c (l ∷ ls) = (c ∷ l) ∷ ls

lines : Bytes → List Bytes
unfolding add_byte
lines [] = [] ∷ []
lines (c ∷ s) = let more = lines s in if c == 10 then [] ∷ more else add_byte c more

pub read_state : Bytes → StateMap
unfolding lines cut_line
read_state s = map cut_line (lines s)

-- No '=' in a key, and no line break in a key or value.
abbrev pub IsPlain : Bytes × Bytes → Type 0
IsPlain (key, value) = Lacks b'=' key × Lacks 10 key × Lacks 10 value

cut_line-entry :
    (key value : Bytes) → Lacks b'=' key → cut_line (key ++ b'=' ∷ value) ≡ (key, value)
unfolding cut_line
cut_line-entry [] value h = refl
cut_line-entry (c ∷ key) value (h, hs) = ground (arith, cut_line-entry key value hs)

lines-one : (l : Bytes) → Lacks 10 l → lines l ≡ l ∷ []
unfolding lines
lines-one [] h = refl
lines-one (c ∷ l) (h, hs) = ground (arith, lines-one l hs)

lines-line : (l rest : Bytes) → Lacks 10 l → lines (l ++ 10 ∷ rest) ≡ l ∷ lines rest
unfolding lines
lines-line [] rest h = refl
lines-line (c ∷ l) rest (h, hs) = ground (arith, lines-line l rest hs)

Lacks-entry_line : (e : Bytes × Bytes) → IsPlain e → Lacks 10 (entry_line e)
unfolding entry_line
Lacks-entry_line (key, value) (_, hk, hv) = Lacks-append 10 key (b'=' ∷ value) hk (omega arith, hv)

lines-join_lines :
    (l : Bytes) (ls : List Bytes) → All (Lacks 10) (l ∷ ls) → lines (join_lines (l ∷ ls)) ≡ l ∷ ls
unfolding join_lines
lines-join_lines l [] (h, _) = lines-one l h
lines-join_lines l (m ∷ ls) (h, hs) = rw (lines-line l _ h, lines-join_lines m ls hs)

All-entry_line : (state : StateMap) → All IsPlain state → All (Lacks 10) (map entry_line state)
All-entry_line [] h = tt
All-entry_line (e ∷ state) (h, hs) = (Lacks-entry_line e h, All-entry_line state hs)

cut_lines : (state : StateMap) → All IsPlain state → map cut_line (map entry_line state) ≡ state
unfolding entry_line
cut_lines [] h = refl
cut_lines ((key, value) ∷ state) ((h, _, _), hs) =
    rw (cut_line-entry key value h, cut_lines state hs)

Lacks-join_lines : (c : ℕ) → c ≢ 10 → (ls : List Bytes) → All (Lacks c) ls → Lacks c (join_lines ls)
unfolding join_lines
Lacks-join_lines c ne [] h = tt
Lacks-join_lines c ne (l ∷ []) (h, _) = h
Lacks-join_lines c ne (l ∷ m ∷ ls) (h, hs) =
    Lacks-append c l _ h (λ q. ne (sym q), Lacks-join_lines c ne (m ∷ ls) hs)

-- A byte that stands in no key and no value stands in no part of the text.
pub Lacks-state_text :
    (c : ℕ)
    → c ≢ 10
    → c ≢ b'='
    → (state : StateMap) → All (λ (e : Bytes × Bytes). Lacks c e.0 × Lacks c e.1) state
    → Lacks c (state_text state)
unfolding state_text
Lacks-state_text c line equals state h =
    Lacks-join_lines c line (map entry_line state) (each state h)
  where
    each :
        (es : StateMap)
        → All (λ (e : Bytes × Bytes). Lacks c e.0 × Lacks c e.1) es
        → All (Lacks c) (map entry_line es)
    each [] _ = tt
    each ((key, value) ∷ es) ((hk, hv), hs) =
        (Lacks-append c key _ hk (λ q. equals (sym q), hv), each es hs)

-- The receiver reads the entries back in order, if there is one, no key holds '=' or a line break, and
-- no value holds a line break.
pub read_state-state_text :
    (state : StateMap) → state ≢ [] → All IsPlain state → read_state (state_text state) ≡ state
unfolding read_state state_text
read_state-state_text [] h _ = absurd (h refl)
read_state-state_text (e ∷ state) _ h =
    rw (lines-join_lines (entry_line e) (map entry_line state) (All-entry_line (e ∷ state) h))
      (cut_lines (e ∷ state) h)
