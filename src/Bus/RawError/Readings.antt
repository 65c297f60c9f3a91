-- ===== src/Bus/RawError/Readings.antt =====
-- What `RawError::name` and `RawError::message` of src/bus/mod.rs read.
use rust_systemd.Base.{
  true, ◌≡◌, [], ◌∷◌, ◌++◌, Bytes, Lacks, length, take-append, arith, refl, ap, some, codes,
}
use rust_systemd.Ffi.Heap.{Memory, at, view}
use rust_systemd.Names.CStr.{up_to_nul-append, from_ptr-append, to_bytes_with_nul_lem}
use rust_systemd.Names.InterfaceName
use rust_systemd.Names.InterfaceName.{InterfaceName}
use rust_systemd.Bus.Library.{Utf8CStr, text_of}
use rust_systemd.Bus.RawError.{
  RawError, Reading, gives, unset, is_set, name, message, DebugStruct, a_name, a_text, a_number,
  debug, display,
}

module _ (x : RawError) (m : Memory) where
  -- An error that is not set gives neither a name nor a message.
  pub readings-unset : x.inner.name ≡ 0 → (name x m ≡ unset) × (message x m ≡ unset)
  unfolding name message
  readings-unset h = (rw h refl, rw h refl)

  is_set-at : (b : Bytes) → view m x.inner.name ≡ at b → is_set x ≡ true
  unfolding is_set view
  is_set-at b h = ground arith

  -- The print of an error with that name and that message.
  abbrev pub printed : Reading InterfaceName → Reading Utf8CStr → DebugStruct
  printed n t = record {
    title = codes "RawError";
    fields =
        (codes "name", a_name n)
        ∷ (codes "message", a_text t)
        ∷ (codes "need_free", a_number x.inner.need_free)
        ∷ [];
  }

  prints :
      (n : Reading InterfaceName) (t : Reading Utf8CStr)
      → name x m ≡ n
      → message x m ≡ t
      → (display x m ≡ printed n t) × (debug x m ≡ printed n t)
  unfolding display debug
  prints n t named told = (cc, cc)

  -- Of an error whose name is a C string, `name` gives the name with its '\0', and `message` gives the
  -- text of the name too, whatever its message is; the print of it shows these two.
  pub message_reads_name :
      (b : Bytes)
      → Lacks 0 b
      → view m x.inner.name ≡ at (b ++ 0 ∷ [])
      → (name x m ≡ gives (record { inner = b ++ 0 ∷ [] }))
        × ((z : Utf8CStr) × (message x m ≡ gives z)
            × (text_of m z ≡ some b)
            × (display x m ≡ printed (gives (record { inner = b ++ 0 ∷ [] })) (gives z))
            × (debug x m ≡ printed (gives (record { inner = b ++ 0 ∷ [] })) (gives z)))
  unfolding name message text_of InterfaceName.from_ptr_unchecked InterfaceName.from_bytes_unchecked
  message_reads_name b lacks h =
      let set = is_set-at (b ++ 0 ∷ []) h in
      let z : Utf8CStr = record { ptr = x.inner.name; len = length b } in
      let named : name x m ≡ gives (record { inner = b ++ 0 ∷ [] }) =
        rw (set, h)
          (ap (λ i. gives (record { inner = i }))
            (rw to_bytes_with_nul_lem (from_ptr-append b [] lacks))) in
      let told : message x m ≡ gives z =
        rw (set, h)
          (ap (λ (s : Bytes). gives (record { ptr = x.inner.name; len = length s }))
            (up_to_nul-append b [] lacks)) in
      (
        named,
        (
          z,
          told,
          rw h (ap (λ (s : Bytes). some s) (take-append b (0 ∷ []))),
          (prints _ (gives z) named told).0,
          (prints _ (gives z) named told).1,
        ),
      )
