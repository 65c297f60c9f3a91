-- ===== src/Daemon/Unordered.antt =====
-- The `HashMap` of `notify` in src/daemon.rs without the order in which `iter` gives its entries.
use rust_systemd.Base.{
  ◌≡◌, ◌≢◌, Bool, Option, none, some, [], ◌∷◌, ◌++◌, Bytes, All, refl, sym, subst, ap, ap₂, ◌∙◌,
  same_bytes, same_bytes-eq, Bool-cases, inl, inr, if◌then◌else◌,
}
use mathlib.Core.Logic.{∥∥₁_elim}
use mathlib.Core.List.{Memᴰ, Permᴰ, Perm, Pairwise, mem-cons_self}
use mathlib.Core.List.Permᴰ
use mathlib.Core.Quot
use mathlib.Core.Quot.{Quot}
use rust_systemd.Base.Int.{ℤ, bool_c_int}
use rust_systemd.Ffi.{Machine}
use rust_systemd.Ffi.Heap.{at, IsSound}
use rust_systemd.Daemon.Library.{SdDaemon}
use rust_systemd.Daemon.State.{StateMap, IsPlain, read_state}
use rust_systemd.Daemon.Notify.{NoNul, Sent, notify_lem}
use rust_systemd.Daemon.{notify, pid_notify}

abbrev pub Entry : Type 0
Entry = Bytes × Bytes

-- The value of the first entry under a key.
abbrev pub find : Bytes → StateMap → Option Bytes
find k [] = none
find k ((key, value) ∷ es) = if same_bytes key k then some value else find k es

-- No two entries have the same key.
abbrev pub IsDistinct : StateMap → Type 0
IsDistinct = Pairwise (λ (x : Entry) (y : Entry). x.0 ≢ y.0)

IsDistinct-Permᴰ : {xs ys : StateMap} → Permᴰ xs ys → IsDistinct xs → IsDistinct ys
IsDistinct-Permᴰ d =
    Permᴰ.pairwise {R = λ (x : Entry) (y : Entry). x.0 ≢ y.0} (λ a b. hlevel) (λ x y n e. n (sym e))
      d

find-swap :
    (k : Bytes) (a b : Entry) (es : StateMap)
    → a.0 ≢ b.0
    → find k (a ∷ b ∷ es) ≡ find k (b ∷ a ∷ es)
find-swap k a b es ne = elim (Bool-cases (same_bytes a.0 k)) [
  | inl x ↦ elim (Bool-cases (same_bytes b.0 k)) [
    | inl y ↦ absurd (ne (same_bytes-eq a.0 k x ∙ sym (same_bytes-eq b.0 k y)))
    | inr y ↦ rw (x, y) refl
  ]
  | inr x ↦ rw x refl
]

Option_set : IsSet (Option Bytes)
Option_set = hlevel

find-Permᴰ : (k : Bytes) {xs ys : StateMap} → Permᴰ xs ys → IsDistinct xs → find k xs ≡ find k ys
find-Permᴰ k Permᴰ.nil h = refl
find-Permᴰ k (Permᴰ.cons {a} {b} {l₁} {l₂} e d) (Pairwise.cons _ h) =
    ap (λ (x : Entry). find k (x ∷ l₁)) e
    ∙ ap (λ o. if same_bytes b.0 k then some b.1 else o) (find-Permᴰ k d h)
find-Permᴰ k (Permᴰ.swap {a} {b} {a'} {b'} {l} p q) (Pairwise.cons ne _) =
    find-swap k a b l (ne b mem-cons_self) ∙ ap₂ (λ (x : Entry) (y : Entry). find k (x ∷ y ∷ l)) q p
find-Permᴰ k (Permᴰ.trans d₁ d₂) h = find-Permᴰ k d₁ h ∙ find-Permᴰ k d₂ (IsDistinct-Permᴰ d₁ h)

find-Perm : (k : Bytes) {xs ys : StateMap} → Perm xs ys → IsDistinct xs → find k xs ≡ find k ys
find-Perm k p h = ∥∥₁_elim p (Option_set _ _) (λ d. find-Permᴰ k d h)

Memᴰ-All : (P : Entry → Type 0) {x : Entry} {es : StateMap} → Memᴰ x es → All P es → P x
Memᴰ-All P (Memᴰ.head e) (h, _) = subst P (sym e) h
Memᴰ-All P (Memᴰ.tail m) (_, hs) = Memᴰ-All P m hs

-- The keys differ if each differs from those behind it.
pub IsDistinct-cons :
    (e : Entry) (es : StateMap)
    → All (λ (x : Entry). e.0 ≢ x.0) es
    → IsDistinct es
    → IsDistinct (e ∷ es)
IsDistinct-cons e es h hs =
    Pairwise.cons (λ x m. ∥∥₁_elim m (hlevel) (λ d. Memᴰ-All (λ (y : Entry). e.0 ≢ y.0) d h)) hs

-- An order in which `iter` can go through a map with an entry, of keys and values that can be sent.
pub record Iteration : Type 0 where
  pub entries : StateMap
  pub distinct : IsDistinct entries
  pub some_entry : entries ≢ []
  pub plain : All IsPlain entries

-- The map is what all these orders have in common.
abbrev pub HashMap : Type 0
HashMap = Quot (λ (a : Iteration) (b : Iteration). Perm a.entries b.entries)

-- `HashMap::get`
pub get : Bytes → HashMap → Option Bytes
get k = Quot.lift Option_set (λ a. find k a.entries) (λ a b p. find-Perm k p a.distinct)

module _ {W : Type 0} (lib : SdDaemon W) (unset_environment : Bool) (s : Machine W) where
  -- `notify` and `pid_notify` give the C function one C string that can be read at the call, and free it
  -- whatever the call returns; its reader gets the entries back in the order in which they were iterated,
  -- and finds under each key what the map has there, whatever that order was. This holds for a map with an
  -- entry whose keys hold no '=', and whose keys and values hold neither a line break nor '\0', and on a
  -- heap whose addresses in use were handed out.
  pub notify_map :
      (map : HashMap) (order : Iteration) (pid : ℤ)
      → Quot.mk order ≡ map
      → All NoNul order.entries
      → IsSound s.memory
      → (text : Bytes) × (read_state text ≡ order.entries)
        × ((k : Bytes) → find k (read_state text) ≡ get k map)
        × Sent lib unset_environment order.entries s text
            (lib.sd_notify (bool_c_int unset_environment) (at (text ++ 0 ∷ [])) s.world)
            (notify lib unset_environment order.entries s)
        × Sent lib unset_environment order.entries s text
            (lib.sd_pid_notify pid (bool_c_int unset_environment) (at (text ++ 0 ∷ [])) s.world)
            (pid_notify lib pid unset_environment order.entries s)
  unfolding get
  notify_map map order pid same no_nul sound =
      let (text, read, told, pid_told) =
        notify_lem lib unset_environment order.entries s pid order.some_entry order.plain no_nul
          sound in
      (text, read, λ k. ap (find k) read ∙ ap (get k) same, told, pid_told)
