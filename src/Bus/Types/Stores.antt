-- ===== src/Bus/Types/Stores.antt =====
-- What sd-bus promises of the body of a message, and one `append_basic_raw` or `read_basic_raw` of
-- src/bus/mod.rs on it.
use rust_systemd.Base.{
  ℕ, ◌++◌, List, [], ◌∷◌, Bytes, Bool, true, Option, none, some, ◌⊎◌, inl, inr, ◌≡◌, ◌≢◌, refl, ap,
  if◌then◌else◌, ◌<◌, ◌≤◌, ◌^◌, ◌*◌, All, Lacks,
}
use rust_systemd.Base.Int.{ℤ, pos, negsuc}
use rust_systemd.Names.ObjectPath.Grammar.{IsPathElement, path_of}
use rust_systemd.Ffi.{Machine, Outcome, returns, fails, raw_os_error}
use rust_systemd.Bus.Handles.{iter_at}
use rust_systemd.Bus.SdBus.{SdBus, Basic, bits, text}
use rust_systemd.Bus.Message.{append_basic_raw, read_basic_raw}

-- Basic types of D-Bus, with their characters.
pub data WireType : Type 0 where
  byte int16 uint16 int32 uint32 int64 uint64 double boolean path string : WireType

unfoldable pub character : WireType → ℕ
character byte = b'y'
character int16 = b'n'
character uint16 = b'q'
character int32 = b'i'
character uint32 = b'u'
character int64 = b'x'
character uint64 = b't'
character double = b'd'
character boolean = b'b'
character path = b'o'
character string = b's'

-- A number in memory, of so many bytes.
abbrev pub HoldsNumber : ℕ → Basic → Type 0
HoldsNumber size v = (n : ℕ) × (n < 2 ^ (8 * size)) × (v ≡ bits size n)

abbrev pub IsContinuation : ℕ → Type 0
IsContinuation c = (0x80 ≤ c) × (c ≤ 0xBF)

-- Well-formed UTF-8: no longer forms than needed, no surrogates, nothing above U+10FFFF.
pub data IsUtf8 : Bytes → Type 0 where
  no_more : IsUtf8 []
  one_byte : {s : Bytes} (a : ℕ) → a < 0x80 → IsUtf8 s → IsUtf8 (a ∷ s)
  two_bytes :
      {s : Bytes} (a b : ℕ) → 0xC2 ≤ a → a ≤ 0xDF → IsContinuation b → IsUtf8 s → IsUtf8 (a ∷ b ∷ s)
  three_bytes :
      {s : Bytes} (a b c : ℕ)
      → 0xE0 ≤ a
      → a ≤ 0xEF
      → (a ≡ 0xE0 → 0xA0 ≤ b)
      → (a ≡ 0xED → b ≤ 0x9F)
      → IsContinuation b
      → IsContinuation c
      → IsUtf8 s
      → IsUtf8 (a ∷ b ∷ c ∷ s)
  four_bytes :
      {s : Bytes} (a b c d : ℕ)
      → 0xF0 ≤ a
      → a ≤ 0xF4
      → (a ≡ 0xF0 → 0x90 ≤ b)
      → (a ≡ 0xF4 → b ≤ 0x8F)
      → IsContinuation b
      → IsContinuation c
      → IsContinuation d
      → IsUtf8 s
      → IsUtf8 (a ∷ b ∷ c ∷ d ∷ s)

-- What sd_bus_message_append_basic(3) takes for a type: a number of its width, 0 or 1 in an `int`, an
-- object path of the specification, or a text in UTF-8.
abbrev pub Holds : WireType → Basic → Type 0
Holds byte v = HoldsNumber 1 v
Holds int16 v = HoldsNumber 2 v
Holds uint16 v = HoldsNumber 2 v
Holds int32 v = HoldsNumber 4 v
Holds uint32 v = HoldsNumber 4 v
Holds int64 v = HoldsNumber 8 v
Holds uint64 v = HoldsNumber 8 v
Holds double v = HoldsNumber 8 v
Holds boolean v = (b : Bool) × (v ≡ bits 4 (if b then 1 else 0))
Holds path v = (es : List Bytes) × All IsPathElement es × (v ≡ text (path_of es))
Holds string v = (s : Bytes) × Lacks 0 s × IsUtf8 s × (v ≡ text s)

-- sd_bus_message_append_basic(3) and sd_bus_message_read_basic(3), for these types. A message that is open
-- takes a value at its end. A read of the type that stands next gives its value and 1; a read of another
-- type gives -ENXIO, which is -6, and one at the end that or 0, and moves nothing.
pub record Stores {W : Type 0} (lib : SdBus W) : Type 0 where
  pub is_open : ℕ → W → Bool
  pub contents : ℕ → W → List (ℕ × Basic)
  pub unread : ℕ → W → List (ℕ × Basic)
  pub appends :
      (m : ℕ) (t : WireType) (v : Basic) (w : W)
      → Holds t v
      → is_open m w ≡ true
      → (n : ℕ) × ((lib.sd_bus_message_append_basic m (character t) v w).0 ≡ pos n)
        × (contents m (lib.sd_bus_message_append_basic m (character t) v w).1
            ≡ contents m w ++ (character t, v) ∷ [])
        × (is_open m (lib.sd_bus_message_append_basic m (character t) v w).1 ≡ true)
  pub reads :
      (m : ℕ) (t : WireType) (v : Basic) (rest : List (ℕ × Basic)) (w : W)
      → unread m w ≡ (character t, v) ∷ rest
      → ((lib.sd_bus_message_read_basic m (character t) w).0 ≡ (pos 1, v))
        × (unread m (lib.sd_bus_message_read_basic m (character t) w).1 ≡ rest)
  pub mismatch :
      (m : ℕ) (t u : WireType) (v : Basic) (rest : List (ℕ × Basic)) (w : W)
      → unread m w ≡ (character u, v) ∷ rest
      → t ≢ u
      → ((lib.sd_bus_message_read_basic m (character t) w).0.0 ≡ negsuc 5)
        × (unread m (lib.sd_bus_message_read_basic m (character t) w).1 ≡ (character u, v) ∷ rest)
  pub at_end :
      (m : ℕ) (t : WireType) (w : W)
      → unread m w ≡ []
      → (((lib.sd_bus_message_read_basic m (character t) w).0.0 ≡ pos 0)
          ⊎ ((lib.sd_bus_message_read_basic m (character t) w).0.0 ≡ negsuc 5))
        × (unread m (lib.sd_bus_message_read_basic m (character t) w).1 ≡ [])

-- The result of a read that gave no value: none, or ENXIO.
abbrev pub GivesNone : {T : Type 0} → Outcome (Option T) → Type 0
GivesNone o = (o ≡ returns none) ⊎ (o ≡ fails (raw_os_error (pos 6)))

module _ {W : Type 0} (lib : SdBus W) (stores : Stores lib) (self code : ℕ) (t : WireType)
    (same : code ≡ character t) where
  open stores use {is_open, contents, unread}

  pub append_one :
      (v : Basic) (s : Machine W)
      → Holds t v
      → is_open self s.world ≡ true
      → ((append_basic_raw lib self code v s).0 ≡ returns tt)
        × (contents self (append_basic_raw lib self code v s).1.world
            ≡ contents self s.world ++ (character t, v) ∷ [])
        × (is_open self (append_basic_raw lib self code v s).1.world ≡ true)
  unfolding append_basic_raw
  append_one v s holds o =
      let (n, e, c, o') = stores.appends self t v s.world holds o in
      (rw (same, e) refl, rw (same, e) c, rw (same, e) o')

  module _ {T : Type 0} (cons : Basic → T) (r : Machine W) where
    pub read_one :
        (v : Basic) (rest : List (ℕ × Basic))
        → unread self r.world ≡ (character t, v) ∷ rest
        → ((read_basic_raw lib (iter_at self) code cons r).0 ≡ returns (some (cons v)))
          × (unread self (read_basic_raw lib (iter_at self) code cons r).1.world ≡ rest)
    unfolding read_basic_raw
    read_one v rest h =
        let (e, u) = stores.reads self t v rest r.world h in
        let answer : (lib.sd_bus_message_read_basic self code r.world).0 ≡ (pos 1, v) = rw same e in
        (rw answer (ap (λ (x : ℤ × Basic). returns (some (cons x.1))) answer), rw (same, e) u)

    pub read_end :
        unread self r.world ≡ []
        → GivesNone (read_basic_raw lib (iter_at self) code cons r).0
          × (unread self (read_basic_raw lib (iter_at self) code cons r).1.world ≡ [])
    unfolding read_basic_raw
    read_end h =
        let (e, u) = stores.at_end self t r.world h in
        elim e [
          | inl z ↦ (inl (rw (same, z) refl), rw (same, z) u)
          | inr z ↦ (inr (rw (same, z) refl), rw (same, z) u)
        ]

    pub read_other :
        (other : WireType) (v : Basic) (rest : List (ℕ × Basic))
        → unread self r.world ≡ (character other, v) ∷ rest
        → t ≢ other
        → ((read_basic_raw lib (iter_at self) code cons r).0 ≡ fails (raw_os_error (pos 6)))
          × (unread self (read_basic_raw lib (iter_at self) code cons r).1.world
              ≡ (character other, v) ∷ rest)
    unfolding read_basic_raw
    read_other other v rest h ne =
        let (e, u) = stores.mismatch self t other v rest r.world h ne in
        (rw (same, e) refl, rw (same, e) u)
