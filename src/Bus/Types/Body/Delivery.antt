-- ===== src/Bus/Types/Body/Delivery.antt =====
-- Whole messages of src/bus: what a sender appends and what a reader is given.
use rust_systemd.Base.{ℕ, ◌++◌, List, [], ◌∷◌, true, some, ◌≡◌, ◌≢◌, refl, ap, ◌∙◌, All, map}
use rust_systemd.Ffi.{Machine, returns, fails, raw_os_error}
use rust_systemd.Base.Int.{pos}
use rust_systemd.Bus.SdBus.{SdBus, Basic}
use rust_systemd.Bus.Types.Stores.{Stores, GivesNone}
use rust_systemd.Bus.Types.Body.{
  Kind, Value, kind_of, arrives, IsSendable, IsValidValue, field, next_value, append_all, next_all,
}
use rust_systemd.Bus.Types.Body.Fifo.{
  append_all_lem, next_value_lem, next_value-end, next_value-other,
}

module _ {W : Type 0} (lib : SdBus W) (stores : Stores lib) (self : ℕ) where
  open stores use {is_open, contents, unread}

  pub next_all_lem :
      (vs : List Value) (r : Machine W)
      → All IsSendable vs
      → unread self r.world ≡ map field vs
      → ((next_all lib self (map kind_of vs) r).0 ≡ returns (map (λ v. some (arrives v)) vs))
        × (unread self (next_all lib self (map kind_of vs) r).1.world ≡ [])
  unfolding next_all
  next_all_lem [] r h e = (refl, e)
  next_all_lem (v ∷ vs) r (h, hs) e =
      let (given, left) = next_value_lem lib stores self v (map field vs) r h e in
      let (all_given, none_left) = next_all_lem vs (next_value lib self (kind_of v) r).1 hs left in
      (rw (given, all_given) refl, rw (given, all_given) none_left)

  -- Numbers of the eight types of `msg_basic!`, each of as many bytes as its type has, Booleans, object
  -- paths and texts, in any order, are appended to an open, empty message. Its body then holds them under
  -- the D-Bus types that `code_of` tells for their types, and they are read back in that order when each is
  -- asked for by its type, but for the '\0' that a path loses; a read of any of these types after the last
  -- gives none or ENXIO. This holds of texts and paths whose slices end with their only '\0', of paths of
  -- the specification and texts in UTF-8, where the message arrives as it was written and C appends and
  -- reads one value of these types at a time.
  pub delivered :
      (vs : List Value) (k : Kind) (s r : Machine W)
      → is_open self s.world ≡ true
      → contents self s.world ≡ []
      → All IsSendable vs
      → All IsValidValue vs
      → unread self r.world ≡ contents self (append_all lib self vs s).1.world
      → ((append_all lib self vs s).0 ≡ returns tt)
        × (contents self (append_all lib self vs s).1.world ≡ map field vs)
        × ((next_all lib self (map kind_of vs) r).0 ≡ returns (map (λ v. some (arrives v)) vs))
        × GivesNone (next_value lib self k (next_all lib self (map kind_of vs) r).1).0
  delivered vs k s r o empty h valid e =
      let (taken, grown) = append_all_lem lib stores self vs s h valid o in
      let body =
        grown ∙ ap {B = List (ℕ × Basic)} (λ (x : List (ℕ × Basic)). x ++ map field vs) empty in
      let (given, none_left) = next_all_lem vs r h (e ∙ body) in
      (
        taken,
        body,
        given,
        (next_value-end lib stores self k (next_all lib self (map kind_of vs) r).1 none_left).0,
      )

  -- A read by another type than that of the value that stands next fails with ENXIO and takes nothing:
  -- the value can still be read by its type; this holds where C answers so.
  pub wrong_kind :
      (k : Kind) (v : Value) (rest : List Value) (r : Machine W)
      → k ≢ kind_of v
      → IsSendable v
      → unread self r.world ≡ map field (v ∷ rest)
      → ((next_value lib self k r).0 ≡ fails (raw_os_error (pos 6)))
        × ((next_value lib self (kind_of v) (next_value lib self k r).1).0
            ≡ returns (some (arrives v)))
  wrong_kind k v rest r ne h e =
      let (failed, kept) = next_value-other lib stores self k v (map field rest) r ne e in
      (
        failed,
        (next_value_lem lib stores self v (map field rest) (next_value lib self k r).1 h kept).0,
      )
