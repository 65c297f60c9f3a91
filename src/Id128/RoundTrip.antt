-- ===== src/Id128/RoundTrip.antt =====
-- An id of src/id128.rs that one of its sources gave, printed and read again.
use rust_systemd.Base.{ℕ, ◌≡◌, [], ◌∷◌, ◌++◌, Bytes, All, length, ap, sym, subst, ◌∙◌}
use rust_systemd.Base.Int.{ℤ, pos}
use rust_systemd.Ffi.{Eff, Machine, returns}
use rust_systemd.Id128.{Id128, SdId128, from_cstr, from_random, from_machine, from_boot, display}
use rust_systemd.Id128.Hex.{IsByte}
use rust_systemd.Id128.Sources.{ReadsHex, Answers, from_cstr-display, sources_answer}

pub data Source : Type 0 where
  random machine boot : Source

module _ {W : Type 0} (lib : SdId128 W) where
  abbrev pub from_source : Source → Eff W Id128
  from_source random = from_random lib
  from_source machine = from_machine lib
  from_source boot = from_boot lib

  -- The C function of a source.
  abbrev pub asked : Source → W → (ℤ × Bytes) × W
  asked random = lib.sd_id128_randomize
  asked machine = lib.sd_id128_get_machine
  asked boot = lib.sd_id128_get_boot

  -- sd_id128_randomize(3) and sd_id128_get_machine(3): where they succeed, an id of sixteen bytes is written.
  abbrev pub WritesIds : Type 0
  WritesIds =
      (x : Source) (w : W) (n : ℕ)
      → (asked x w).0.0 ≡ pos n
      → All IsByte (asked x w).0.1 × (length (asked x w).0.1 ≡ 16)

  module _ (s : Machine W) where
    source-Answers : (x : Source) → Answers lib s (asked x s.world) (from_source x s)
    source-Answers random = (sources_answer lib s).0
    source-Answers machine = (sources_answer lib s).1
    source-Answers boot = (sources_answer lib s).2

    -- An id that is random, or that of the machine or of this boot, is of sixteen bytes, and its print, with
    -- '\0', is read as that id. This holds where the C functions of the sources write an id when they succeed,
    -- and `sd_id128_from_string` reads hexadecimal text.
    pub from_cstr-from_source :
        ReadsHex lib
        → WritesIds
        → (x : Source) (id : Id128) → (from_source x s).0 ≡ returns id
        → (length id.inner ≡ 16)
          × (from_cstr lib (display id ++ 0 ∷ []) (from_source x s).1
              ≡ (returns id, (from_source x s).1))
    from_cstr-from_source reads writes x id given =
        let (same, (n, good)) = ((source-Answers x).0 id).0 given in
        let (bytes, sixteen) = writes x s.world n good in
        let long : length id.inner ≡ 16 = ap {B = ℕ} length same ∙ sixteen in
        (
          long,
          from_cstr-display lib (from_source x s).1 reads id (subst (All IsByte) (sym same) bytes)
              long,
        )
