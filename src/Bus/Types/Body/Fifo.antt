-- ===== src/Bus/Types/Body/Fifo.antt =====
-- The body of a message is a queue: what is appended to it is read in order, each value by its type.
use rust_systemd.Base.{
  ℕ, ◌++◌, List, [], ◌∷◌, true, Option, none, some, inl, inr, ◌≡◌, ◌≢◌, refl, ap, sym, ◌∙◌, map,
  append_assoc, append-nil, All, if◌then◌else◌,
}
use mathlib.Core.Option
use rust_systemd.Ffi.{Eff, Machine, Outcome, IoError, returns, fails, raw_os_error}
use rust_systemd.Base.Int.{pos}
use rust_systemd.Names.CStr
use rust_systemd.Names.CStr.{up_to_nul, up_to_nul-append, to_bytes-append}
use rust_systemd.Bus.Handles.{iter_at}
use rust_systemd.Bus.SdBus.{SdBus, Basic, bits, text}
use rust_systemd.Bus.Message.{append_basic_raw, read_basic_raw}
use rust_systemd.Bus.Types.{size_of, dbus_type}
use rust_systemd.Bus.Types.Stores.{
  Stores, GivesNone, append_one, read_one, read_end, read_other, WireType, boolean, path, string,
  character,
}
use rust_systemd.Bus.Types.RoundTrip.{read_again, path_again}
use rust_systemd.Bus.Types.Body.{
  Kind, number_kind, bool_kind, path_kind, text_kind, Value, number_value, bool_value, path_value,
  text_value, kind_of, arrives, IsSendable, IsValidValue, wire_type_of, field, code_of, basic_of,
  map_option, append_value, next_value, append_all,
}
use rust_systemd.Bus.Types.Body.Wire.{
  wire_type_of_unique, dbus_type_lem, basic_of-Holds, number_again, bool_again,
}

module _ {W A B : Type 0} (f : A → B) (m : Eff W (Option A)) (s : Machine W) where
  map_option-returns :
      (o : Option A)
      → (m s).0 ≡ returns o
      → ((map_option f m s).0 ≡ returns (Option.map f o)) × ((map_option f m s).1 ≡ (m s).1)
  unfolding map_option
  map_option-returns o e = (rw e refl, rw e refl)

  map_option-fails :
      (e : IoError)
      → (m s).0 ≡ fails e
      → ((map_option f m s).0 ≡ fails e) × ((map_option f m s).1 ≡ (m s).1)
  unfolding map_option
  map_option-fails e h = (rw h refl, rw h refl)

module _ {W : Type 0} (lib : SdBus W) (self : ℕ) where
  pub append_value-append_basic_raw :
      (v : Value)
      → append_value lib self v ≡ append_basic_raw lib self (code_of (kind_of v)) (basic_of v)
  unfolding append_value basic_of code_of
  append_value-append_basic_raw (number_value t n) =
      ap (λ c. append_basic_raw lib self c (bits (size_of t) n.value)) (dbus_type_lem t)
  append_value-append_basic_raw (bool_value n) = refl
  append_value-append_basic_raw (path_value n) = refl
  append_value-append_basic_raw (text_value n) = refl

module _ {W : Type 0} (lib : SdBus W) (stores : Stores lib) (self : ℕ) where
  open stores use {is_open, contents, unread}

  append_value_lem :
      (v : Value) (s : Machine W)
      → IsSendable v
      → IsValidValue v
      → is_open self s.world ≡ true
      → ((append_value lib self v s).0 ≡ returns tt)
        × (contents self (append_value lib self v s).1.world
            ≡ contents self s.world ++ field v ∷ [])
        × (is_open self (append_value lib self v s).1.world ≡ true)
  unfolding code_of
  append_value_lem v s h valid o = rw (append_value-append_basic_raw lib self v) (
      append_one lib stores self (code_of (kind_of v)) (wire_type_of (kind_of v)) refl (basic_of v)
        s (basic_of-Holds v h valid) o)

  pub append_all_lem :
      (vs : List Value) (s : Machine W)
      → All IsSendable vs
      → All IsValidValue vs
      → is_open self s.world ≡ true
      → ((append_all lib self vs s).0 ≡ returns tt)
        × (contents self (append_all lib self vs s).1.world ≡ contents self s.world ++ map field vs)
  unfolding append_all
  append_all_lem [] s h valid o = (refl, sym (append-nil (contents self s.world)))
  append_all_lem (v ∷ vs) s (h, hs) (valid, valids) o =
      let (taken, grown, still) = append_value_lem v s h valid o in
      let (all_taken, all_grown) =
        append_all_lem vs (append_value lib self v s).1 hs valids still in
      (
        rw taken all_taken,
        rw taken (
            all_grown
            ∙ rw grown (append_assoc (contents self s.world) (field v ∷ []) (map field vs))),
      )

  module _ {T : Type 0} (f : T → Value) (cons : Basic → T) (code : ℕ) (t : WireType)
      (same : code ≡ character t) (r : Machine W) where
    -- `next` at one type, as a value.
    abbrev mapped : Outcome (Option Value) × Machine W
    mapped = map_option f (read_basic_raw lib (iter_at self) code cons) r

    mapped_one :
        (v : Basic) (y : T) (rest : List (ℕ × Basic))
        → cons v ≡ y
        → unread self r.world ≡ (character t, v) ∷ rest
        → (mapped.0 ≡ returns (some (f y))) × (unread self mapped.1.world ≡ rest)
    mapped_one v y rest again e =
        let (given, left) = read_one lib stores self code t same cons r v rest e in
        let (made, kept) =
          map_option-returns f (read_basic_raw lib (iter_at self) code cons) r (some y)
            (given ∙ ap (λ z. returns (some z)) again) in
        (made, ap (λ m. unread self m.world) kept ∙ left)

    mapped_end : unread self r.world ≡ [] → GivesNone mapped.0 × (unread self mapped.1.world ≡ [])
    mapped_end e =
        let (given, left) = read_end lib stores self code t same cons r e in
        elim given [
          | inl none_given ↦
              (let (made, kept) =
                  map_option-returns f (read_basic_raw lib (iter_at self) code cons) r none
                    none_given in
                (inl made, ap (λ m. unread self m.world) kept ∙ left))
          | inr refused ↦
              (let (made, kept) =
                  map_option-fails f (read_basic_raw lib (iter_at self) code cons) r
                    (raw_os_error (pos 6)) refused in
                (inr made, ap (λ m. unread self m.world) kept ∙ left))
        ]

    mapped_other :
        (other : WireType) (v : Basic) (rest : List (ℕ × Basic))
        → unread self r.world ≡ (character other, v) ∷ rest
        → t ≢ other
        → (mapped.0 ≡ fails (raw_os_error (pos 6)))
          × (unread self mapped.1.world ≡ (character other, v) ∷ rest)
    mapped_other other v rest e ne =
        let (given, left) = read_other lib stores self code t same cons r other v rest e ne in
        let (made, kept) =
          map_option-fails f (read_basic_raw lib (iter_at self) code cons) r (raw_os_error (pos 6))
            given in
        (made, ap (λ m. unread self m.world) kept ∙ left)

  -- A read of the kind that stands next.
  pub next_value_lem :
      (v : Value) (rest : List (ℕ × Basic)) (r : Machine W)
      → IsSendable v
      → unread self r.world ≡ field v ∷ rest
      → ((next_value lib self (kind_of v) r).0 ≡ returns (some (arrives v)))
        × (unread self (next_value lib self (kind_of v) r).1.world ≡ rest)
  unfolding next_value basic_of code_of wire_type_of character
  next_value_lem (number_value t x) rest r h e =
      mapped_one (λ v. number_value t v) _ (dbus_type t) (wire_type_of (number_kind t))
        (dbus_type_lem t) r (bits (size_of t) x.value) x rest (number_again t x) e
  next_value_lem (bool_value x) rest r h e =
      mapped_one (λ v. bool_value v) _ b'b' boolean refl r (bits 4 (if x then 1 else 0)) x rest
        (bool_again x) e
  next_value_lem (path_value p) rest r (s, whole, lacks) e =
      mapped_one (λ v. path_value v) _ b'o' path refl r (text (up_to_nul p.inner))
        (record { inner = CStr.to_bytes p.inner }) rest
        (rw whole (path_again s lacks ∙ ap (λ i. record { inner = i }) (sym (to_bytes-append s 0))))
        e
  next_value_lem (text_value x) rest r (s, whole, lacks) e =
      mapped_one (λ v. text_value v) _ b's' string refl r (text (up_to_nul x.inner)) x rest
        (ap (λ y. record { inner = y }) (rw whole (read_again s lacks))) e

  pub next_value-end :
      (k : Kind) (r : Machine W)
      → unread self r.world ≡ []
      → GivesNone (next_value lib self k r).0 × (unread self (next_value lib self k r).1.world ≡ [])
  unfolding next_value character
  next_value-end (number_kind t) r e =
      mapped_end _ _ (dbus_type t) (wire_type_of (number_kind t)) (dbus_type_lem t) r e
  next_value-end bool_kind r e = mapped_end _ _ b'b' boolean refl r e
  next_value-end path_kind r e = mapped_end _ _ b'o' path refl r e
  next_value-end text_kind r e = mapped_end _ _ b's' string refl r e

  -- A read of any other kind than the one that stands next.
  pub next_value-other :
      (k : Kind) (v : Value) (rest : List (ℕ × Basic)) (r : Machine W)
      → k ≢ kind_of v
      → unread self r.world ≡ field v ∷ rest
      → ((next_value lib self k r).0 ≡ fails (raw_os_error (pos 6)))
        × (unread self (next_value lib self k r).1.world ≡ field v ∷ rest)
  unfolding next_value code_of character
  next_value-other k v rest r ne e = by_kind k (λ q. ne (wire_type_of_unique k (kind_of v) q))
    where
      by_kind :
          (l : Kind)
          → wire_type_of l ≢ wire_type_of (kind_of v)
          → ((next_value lib self l r).0 ≡ fails (raw_os_error (pos 6)))
            × (unread self (next_value lib self l r).1.world ≡ field v ∷ rest)
      by_kind (number_kind t) n =
          mapped_other _ _ (dbus_type t) (wire_type_of (number_kind t)) (dbus_type_lem t) r
            (wire_type_of (kind_of v)) (basic_of v) rest e n
      by_kind bool_kind n =
          mapped_other _ _ b'b' boolean refl r (wire_type_of (kind_of v)) (basic_of v) rest e
            (unfold wire_type_of in n)
      by_kind path_kind n =
          mapped_other _ _ b'o' path refl r (wire_type_of (kind_of v)) (basic_of v) rest e
            (unfold wire_type_of in n)
      by_kind text_kind n =
          mapped_other _ _ b's' string refl r (wire_type_of (kind_of v)) (basic_of v) rest e
            (unfold wire_type_of in n)
