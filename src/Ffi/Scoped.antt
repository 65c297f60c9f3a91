-- ===== src/Ffi/Scoped.antt =====
-- The C strings that a chain of calls allocates: that it frees each of them, and frees nothing else.
use rust_systemd.Base.{
  ℕ, ◌≡◌, refl, Bytes, Bool, Bool-cases, inl, inr, true, false, if◌then◌else◌, Option, none, some,
  ◌++◌, ◌∷◌, [], ◌∙◌,
}
use rust_systemd.Base.Int.{ℤ}
use rust_systemd.Ffi.{
  Eff, Machine, Outcome, IoError, returns, fails, panics, pure, lift, owning, call, call_with,
  continue, ffi_result, sd_try, has_nul, new_c_string, char_or_null, ◌>>=◌,
}
use rust_systemd.Ffi.Heap.{
  CArg, IsSound, alloc, release, release-live, alloc-IsSound, release-IsSound,
}

-- On a heap whose addresses were handed out, the same strings are there after `m` as before, on every way
-- out, and the heap is such a heap again.
pub record IsScoped {W A : Type 0} (m : Eff W A) : Type 0 where
  pub same_live : (s : Machine W) → IsSound s.memory → (m s).1.memory.live ≡ s.memory.live
  pub still_sound : (s : Machine W) → IsSound s.memory → IsSound (m s).1.memory

module _ {W A : Type 0} where
  pub pure-IsScoped : (a : A) → IsScoped {W = W} (pure a)
  unfolding pure
  pure-IsScoped a = record { same_live = λ s h. refl; still_sound = λ s h. h }

  pub lift-IsScoped : (r : Outcome A) → IsScoped {W = W} (lift r)
  unfolding lift
  lift-IsScoped r = record { same_live = λ s h. refl; still_sound = λ s h. h }

  pub call-IsScoped : (g : W → A × W) → IsScoped (call g)
  unfolding call
  call-IsScoped g = record { same_live = λ s h. refl; still_sound = λ s h. h }

  pub call_with-IsScoped : (g : CArg → W → A × W) (p : ℕ) → IsScoped (call_with g p)
  unfolding call_with
  call_with-IsScoped g p = record { same_live = λ s h. refl; still_sound = λ s h. h }

  pub if-IsScoped :
      (b : Bool) (m n : Eff W A) → IsScoped m → IsScoped n → IsScoped (if b then m else n)
  if-IsScoped true m n h k = h
  if-IsScoped false m n h k = k

module _ {W A B : Type 0} where
  continue-IsScoped :
      (r : Outcome A) (k : A → Eff W B) → ((a : A) → IsScoped (k a)) → IsScoped (continue r k)
  continue-IsScoped (returns a) k next = next a
  continue-IsScoped (fails e) k next = record { same_live = λ s h. refl; still_sound = λ s h. h }
  continue-IsScoped (panics p) k next = record { same_live = λ s h. refl; still_sound = λ s h. h }

  pub bind-IsScoped :
      (m : Eff W A) (k : A → Eff W B) → IsScoped m → ((a : A) → IsScoped (k a)) → IsScoped (m >>= k)
  unfolding ◌>>=◌
  bind-IsScoped m k h next = record {
    same_live = λ s sound.
        (continue-IsScoped (m s).0 k next).same_live (m s).1 (h.still_sound s sound)
        ∙ h.same_live s sound;
    still_sound =
        λ s sound. (continue-IsScoped (m s).0 k next).still_sound (m s).1 (h.still_sound s sound);
  }

  -- What follows a failure does not run.
  pub fails-IsScoped : (e : IoError) (k : A → Eff W B) → IsScoped (lift (fails e) >>= k)
  unfolding ◌>>=◌ lift
  fails-IsScoped e k = record { same_live = λ s h. refl; still_sound = λ s h. h }

module _ {W : Type 0} where
  pub sd_try-IsScoped : (m : Eff W ℤ) → IsScoped m → IsScoped (sd_try m)
  unfolding sd_try
  sd_try-IsScoped m h =
      bind-IsScoped m (λ ret. lift (ffi_result ret)) h (λ ret. lift-IsScoped (ffi_result ret))

module _ {W A : Type 0} (b : Bytes) (k : ℕ → Eff W A) (inside : (p : ℕ) → IsScoped (k p)) where
  -- The machine after the string was made.
  abbrev holding : Machine W → Machine W
  holding s = record s { memory = (alloc (b ++ 0 ∷ []) s.memory).1 }

  freed :
      (s : Machine W)
      → IsSound s.memory
      → (release s.memory.next (k s.memory.next (holding s)).1.memory).live ≡ s.memory.live
  unfolding alloc
  freed s sound =
      release-live (b ++ 0 ∷ []) s.memory (k s.memory.next (holding s)).1.memory sound
        ((inside s.memory.next).same_live (holding s) (alloc-IsSound (b ++ 0 ∷ []) s.memory sound))

  freed-IsSound :
      (s : Machine W)
      → IsSound s.memory
      → IsSound (release s.memory.next (k s.memory.next (holding s)).1.memory)
  freed-IsSound s sound =
      release-IsSound s.memory.next (k s.memory.next (holding s)).1.memory (
        (inside s.memory.next).still_sound (holding s) (alloc-IsSound (b ++ 0 ∷ []) s.memory sound))

  -- A `CString` that is owned by the scope of what follows.
  pub new_c_string-IsScoped : IsScoped (new_c_string b >>= λ p. owning p (k p))
  unfolding new_c_string owning ◌>>=◌ alloc
  new_c_string-IsScoped = elim (Bool-cases (has_nul b)) [
    | inl e ↦ record { same_live = λ s h. rw e refl; still_sound = λ s h. rw e h }
    | inr e ↦ record {
      same_live = λ s h. rw e (freed s h);
      still_sound = λ s h. rw e (freed-IsSound s h);
    }
  ]

module _ {W : Type 0} where
  pub char_or_null-IsScoped : (path : Option Bytes) → IsScoped {W = W} (char_or_null path)
  unfolding char_or_null
  char_or_null-IsScoped none = pure-IsScoped 0
  char_or_null-IsScoped (some p) = new_c_string-IsScoped p pure pure-IsScoped

pub ruleset scoping = (
  pure-IsScoped, lift-IsScoped, call-IsScoped, call_with-IsScoped, if-IsScoped, bind-IsScoped,
  sd_try-IsScoped, new_c_string-IsScoped, char_or_null-IsScoped,
)
