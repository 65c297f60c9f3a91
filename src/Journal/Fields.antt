-- ===== src/Journal/Fields.antt =====
-- How `Journal::get_next_field` of src/journal.rs reads a field, and `previous_record` a record.
use rust_systemd.Base.{
  ℕ, suc, ◌≡◌, ◌≢◌, ◌⊎◌, inl, inr, ◌↔◌, Option, none, some, [], ◌∷◌, ◌++◌, arith, Bytes, Lacks,
  refl, sym, ◌∙◌,
}
use rust_systemd.Base.Int.{ℤ, pos, negsuc, neg_c_int, ℤ-cases}
use rust_systemd.Ffi.{IoError, returns, fails, panics, raw_os_error, unwrap_none, Machine}
use rust_systemd.Journal.Library.{SdJournal}
use rust_systemd.Journal.{Journal, split_field, field_of, get_next_field, previous_record}

split_field-spelled :
    (name value : Bytes) → Lacks b'=' name → split_field (name ++ b'=' ∷ value) ≡ (name, some value)
unfolding split_field
split_field-spelled [] value h = refl
split_field-spelled (c ∷ name) value (h, hs) = ground (arith, split_field-spelled name value hs)

split_field-some :
    (s name value : Bytes)
    → split_field s ≡ (name, some value)
    → Lacks b'=' name × (s ≡ name ++ b'=' ∷ value)
unfolding split_field
split_field-some [] name value e = ground arith
split_field-some (c ∷ s) [] value e = ground arith
split_field-some (c ∷ s) (d ∷ name) value e = ground (arith, split_field-some s name value)

split_field-none : (s : Bytes) → ((split_field s).1 ≡ none) ↔ Lacks b'=' s
unfolding split_field
split_field-none [] = (λ _. tt, λ _. refl)
split_field-none (c ∷ s) =
    (λ h. ground (arith, (split_field-none s).0), λ h. ground (arith, (split_field-none s).1))

field_of-some :
    (p : Bytes × Option Bytes) (name value : Bytes)
    → field_of p ≡ returns (some (name, value))
    → p ≡ (name, some value)
unfolding field_of
field_of-some (n, some v) name value e = ground arith
field_of-some (n, none) name value e = cc

field_of-panics : (p : Bytes × Option Bytes) → (field_of p ≡ panics unwrap_none) ↔ (p.1 ≡ none)
unfolding field_of
field_of-panics (n, some v) = (λ h. cc, λ h. cc)
field_of-panics (n, none) = (λ _. refl, λ _. refl)

field_of-ne-none : (p : Bytes × Option Bytes) → field_of p ≢ returns none
unfolding field_of
field_of-ne-none (n, some v) e = cc
field_of-ne-none (n, none) e = cc

field_of-ne-fails : (p : Bytes × Option Bytes) (x : IoError) → field_of p ≢ fails x
unfolding field_of
field_of-ne-fails (n, some v) x e = cc
field_of-ne-fails (n, none) x e = cc

module _ {W : Type 0} (lib : SdJournal W) (self : Journal) (s : Machine W) where
  -- The answer of `sd_journal_enumerate_data`, and the data that it gives.
  abbrev pub answer : ℤ
  answer = (lib.sd_journal_enumerate_data self.j s.world).0.0

  abbrev pub field : Bytes
  field = (lib.sd_journal_enumerate_data self.j s.world).0.1

  next_some :
      (n : ℕ) → answer ≡ pos (suc n) → (get_next_field lib self s).0 ≡ field_of (split_field field)
  unfolding get_next_field
  next_some n e = ground arith

  next_zero : answer ≡ pos 0 → (get_next_field lib self s).0 ≡ returns none
  unfolding get_next_field
  next_zero e = ground arith

  next_negative :
      (n : ℕ)
      → answer ≡ negsuc n
      → (get_next_field lib self s).0 ≡ fails (raw_os_error (neg_c_int (negsuc n)))
  unfolding get_next_field
  next_negative n e = ground arith

  -- `get_next_field` returns a name and a value exactly if there is data that is the name, without '=',
  -- then '=' and the value.
  pub get_next_field_iff :
      (name value : Bytes)
      → ((get_next_field lib self s).0 ≡ returns (some (name, value)))
        ↔ (Lacks b'=' name × (field ≡ name ++ b'=' ∷ value) × ((n : ℕ) × (answer ≡ pos (suc n))))
  get_next_field_iff name value = (
    λ h. elim (ℤ-cases answer) [
      | inl (n, e) ↦
          let (clean, whole) =
            split_field-some field name value
              (field_of-some _ name value (sym (next_some n e) ∙ h)) in
          (clean, whole, (n, e))
      | inr (inl e) ↦ cc (next_zero e)
      | inr (inr (n, e)) ↦ cc (next_negative n e)
    ],
    λ (clean, whole, (n, e)).
        next_some n e ∙ rw (whole, split_field-spelled name value clean) (unfold field_of in refl),
  )

  -- The end of the record is told apart from a field and from an error.
  pub get_next_field-none : ((get_next_field lib self s).0 ≡ returns none) ↔ (answer ≡ pos 0)
  get_next_field-none = (
    λ h. elim (ℤ-cases answer) [
      | inl (n, e) ↦ absurd (field_of-ne-none _ (sym (next_some n e) ∙ h))
      | inr (inl e) ↦ e
      | inr (inr (n, e)) ↦ cc (next_negative n e)
    ],
    next_zero,
  )

  -- `get_next_field` panics exactly at data without '='.
  pub get_next_field_panics :
      ((get_next_field lib self s).0 ≡ panics unwrap_none)
      ↔ (Lacks b'=' field × ((n : ℕ) × (answer ≡ pos (suc n))))
  get_next_field_panics = (
    λ h. elim (ℤ-cases answer) [
      | inl (n, e) ↦
          ((split_field-none field).0 ((field_of-panics _).0 (sym (next_some n e) ∙ h)), (n, e))
      | inr (inl e) ↦ cc (next_zero e)
      | inr (inr (n, e)) ↦ cc (next_negative n e)
    ],
    λ (bare, (n, e)). next_some n e ∙ (field_of-panics _).1 ((split_field-none field).1 bare),
  )

  get_next_field-fails :
      (x : IoError)
      → ((get_next_field lib self s).0 ≡ fails x)
        ↔ ((n : ℕ) × (answer ≡ negsuc n) × (x ≡ raw_os_error (neg_c_int (negsuc n))))
  get_next_field-fails x = (
    λ h. elim (ℤ-cases answer) [
      | inl (n, e) ↦ absurd (field_of-ne-fails _ x (sym (next_some n e) ∙ h))
      | inr (inl e) ↦ cc (next_zero e)
      | inr (inr (n, e)) ↦ (let failed = next_negative n e in (n, e, cc))
    ],
    λ (n, e, same). next_negative n e ∙ cc,
  )

  -- `get_next_field` returns a name and a value exactly if there is data that is the name, without '=',
  -- then '=' and the value; nothing exactly at the end of the data; the errno exactly if C failed; and
  -- it panics exactly at data without '='.
  pub get_next_field_lem :
      (name value : Bytes) (x : IoError)
      → (((get_next_field lib self s).0 ≡ returns (some (name, value)))
          ↔ (Lacks b'=' name × (field ≡ name ++ b'=' ∷ value) × ((n : ℕ) × (answer ≡ pos (suc n)))))
        × (((get_next_field lib self s).0 ≡ returns none) ↔ (answer ≡ pos 0))
        × (((get_next_field lib self s).0 ≡ fails x)
            ↔ ((n : ℕ) × (answer ≡ negsuc n) × (x ≡ raw_os_error (neg_c_int (negsuc n)))))
        × (((get_next_field lib self s).0 ≡ panics unwrap_none)
            ↔ (Lacks b'=' field × ((n : ℕ) × (answer ≡ pos (suc n)))))
  get_next_field_lem name value x = (
    get_next_field_iff name value,
    get_next_field-none,
    get_next_field-fails x,
    get_next_field_panics,
  )

  -- The answer of `sd_journal_previous`, and the state behind the C functions after it.
  abbrev pub stepped : ℤ × W
  stepped = lib.sd_journal_previous self.j s.world

  -- `previous_record` returns how far C went back, or none where it went nowhere, and starts the data of
  -- the record anew; after an error it does not.
  pub previous_record_lem :
      ((stepped.0 ≡ pos 0)
        × (previous_record lib self s ≡ (
          returns none,
          record s { world = (lib.sd_journal_restart_data self.j stepped.1).1 },
        )))
      ⊎ (((n : ℕ) × (stepped.0 ≡ pos (suc n))
            × (previous_record lib self s ≡ (
              returns (some (pos (suc n))),
              record s { world = (lib.sd_journal_restart_data self.j stepped.1).1 },
            )))
          ⊎ ((n : ℕ) × (stepped.0 ≡ negsuc n)
              × (previous_record lib self s
                  ≡ (fails (raw_os_error (neg_c_int (negsuc n))), record s { world = stepped.1 }))))
  unfolding previous_record
  previous_record_lem = elim (ℤ-cases stepped.0) [
    | inl (n, e) ↦ inr (inl (n, e, ground arith))
    | inr (inl e) ↦ inl (e, ground arith)
    | inr (inr (n, e)) ↦ inr (inr (n, e, ground arith))
  ]
