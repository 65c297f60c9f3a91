-- ===== src/Ffi/Heap.antt =====
-- C strings on the heap, as `CString`, `CStr` and the C functions see them.
use rust_systemd.Base.{
  ℕ, ◌+◌, ◌<◌, ◌≡◌, List, [], ◌∷◌, arith, Bytes, ◌==◌, if◌then◌else◌, All, refl, ap, Bool, true,
  false,
}

-- The strings that are allocated, each with its address; null is 0, and no address is used twice.
pub record Memory : Type 0 where
  pub next : ℕ
  pub live : List (ℕ × Bytes)

-- What a C function finds behind a `const char *`.
pub data CArg : Type 0 where
  null dangling : CArg
  at : Bytes → CArg

find : ℕ → List (ℕ × Bytes) → CArg
find p [] = dangling
find p ((q, b) ∷ rest) = if q == p then at b else find p rest

without : ℕ → List (ℕ × Bytes) → List (ℕ × Bytes)
without p [] = []
without p ((q, b) ∷ rest) =
    let others = without p rest in if q == p then others else (q, b) ∷ others

unfoldable pub view : Memory → ℕ → CArg
unfolding find
view m p = if p == 0 then null else find p m.live

unfoldable pub alloc : Bytes → Memory → ℕ × Memory
alloc b m = (m.next, record { next = m.next + 1; live = (m.next, b) ∷ m.live })

unfoldable pub release : ℕ → Memory → Memory
unfolding without
release p m = record m { live = without p m.live }

-- Every address in use was handed out, and is not null.
pub record IsSound (m : Memory) : Type 0 where
  pub positive : 0 < m.next
  pub handed_out : All (λ (e : ℕ × Bytes). e.0 < m.next) m.live

module _ (p : ℕ) where
  find-unused :
      (live : List (ℕ × Bytes)) → All (λ (e : ℕ × Bytes). e.0 < p) live → find p live ≡ dangling
  unfolding find
  find-unused [] h = refl
  find-unused ((q, b) ∷ rest) (h, hs) = ground (arith, find-unused rest hs)

  without-unused :
      (live : List (ℕ × Bytes)) → All (λ (e : ℕ × Bytes). e.0 < p) live → without p live ≡ live
  unfolding without
  without-unused [] h = refl
  without-unused ((q, b) ∷ rest) (h, hs) = ground (arith, without-unused rest hs)

module _ (b : Bytes) (m : Memory) (sound : IsSound m) where
  -- A new string can be read at its address.
  pub view-alloc : view (alloc b m).1 (alloc b m).0 ≡ at b
  unfolding view alloc
  view-alloc = ground arith

  -- Released at once, its address dangles, and the other strings are as they were.
  pub view-release-alloc : view (release (alloc b m).0 (alloc b m).1) (alloc b m).0 ≡ dangling
  unfolding view alloc release
  view-release-alloc = ground (
    arith,
    find-unused m.next m.live sound.handed_out,
    without-unused m.next m.live sound.handed_out,
  )

  pub release-alloc : release (alloc b m).0 (alloc b m).1 ≡ record m { next = m.next + 1 }
  unfolding alloc release
  release-alloc = ground (arith, without-unused m.next m.live sound.handed_out)

module _ (n : ℕ) where
  below_next :
      (live : List (ℕ × Bytes))
      → All (λ (e : ℕ × Bytes). e.0 < n) live
      → All (λ (e : ℕ × Bytes). e.0 < n + 1) live
  below_next [] h = tt
  below_next (e ∷ es) (h, hs) = (omega arith, below_next es hs)

  All-if :
      (b : Bool) (xs ys : List (ℕ × Bytes))
      → All (λ (e : ℕ × Bytes). e.0 < n) xs
      → All (λ (e : ℕ × Bytes). e.0 < n) ys
      → All (λ (e : ℕ × Bytes). e.0 < n) (if b then xs else ys)
  All-if true xs ys h k = h
  All-if false xs ys h k = k

  All-without :
      (p : ℕ) (live : List (ℕ × Bytes))
      → All (λ (e : ℕ × Bytes). e.0 < n) live
      → All (λ (e : ℕ × Bytes). e.0 < n) (without p live)
  unfolding without
  All-without p [] h = tt
  All-without p ((q, b) ∷ rest) (h, hs) =
      let others = All-without p rest hs in
      All-if (q == p) (without p rest) ((q, b) ∷ without p rest) others (h, others)

-- A new string leaves a heap sound, and so does a release.
pub alloc-IsSound : (b : Bytes) (m : Memory) → IsSound m → IsSound (alloc b m).1
unfolding alloc
alloc-IsSound b m sound = record {
  positive = omega (arith, sound.positive);
  handed_out = (omega arith, below_next m.next m.live sound.handed_out);
}

pub release-IsSound : (p : ℕ) (m : Memory) → IsSound m → IsSound (release p m)
unfolding release
release-IsSound p m sound = record {
  positive = sound.positive;
  handed_out = All-without m.next p m.live sound.handed_out;
}

-- The release of a new string leaves what was there before.
pub release-live :
    (b : Bytes) (m m' : Memory)
    → IsSound m
    → m'.live ≡ (alloc b m).1.live
    → (release (alloc b m).0 m').live ≡ m.live
unfolding alloc release
release-live b m m' sound e = rw e (ap (λ (x : Memory). x.live) (release-alloc b m sound))
