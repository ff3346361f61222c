-- ===== src/Slabs/Class/Bytes.antt =====
-- The bytes of a file of slabs (lib/kvengine/local_fileset.cc) as a function from positions.
use ktable_fs.Base.{
  ℕ, zero, suc, ◌+◌, ◌≤◌, ◌<◌, ◌≡◌, ◌⊎◌, ◌∙◌, refl, ap, inl, inr, [], ◌∷◌, ◌++◌, ◌==◌,
  if◌then◌else◌, length, arith, Bool-cases, ==_iff,
}
use ktable_fs.Slice.{Slice}

unfoldable pub read_bytes : (ℕ → ℕ) → ℕ → ℕ → Slice
read_bytes g off zero = []
read_bytes g off (suc n) = g off ∷ read_bytes g (off + 1) n

unfoldable pub write_bytes : (ℕ → ℕ) → ℕ → Slice → ℕ → ℕ
write_bytes g off [] i = g i
write_bytes g off (x ∷ d) i = let rest = write_bytes g (off + 1) d i in if off == i then x else rest

read_agree :
    (g h : ℕ → ℕ) (off n : ℕ)
    → ((i : ℕ) → off ≤ i → i < off + n → g i ≡ h i)
    → read_bytes g off n ≡ read_bytes h off n
unfolding read_bytes
read_agree g h off zero same = refl
read_agree g h off (suc n) same =
    rw
      (
        same off (omega arith) (omega arith),
        read_agree g h (off + 1) n (λ i a b. same i (omega arith) (omega arith)),
      )
      refl

write_outside :
    (g : ℕ → ℕ) (off : ℕ) (d : Slice) (i : ℕ)
    → (i < off) ⊎ (off + length d ≤ i)
    → write_bytes g off d i ≡ g i
unfolding write_bytes
write_outside g off [] i out = refl
write_outside g off (x ∷ d) i out = elim (Bool-cases (off == i)) [
  | inl t ↦ ground (arith, t, out)
  | inr t ↦ rw (write_bytes, t) (write_outside g (off + 1) d i (ground (arith, t, out)))
]

-- What was written is read back.
pub read-write :
    (g : ℕ → ℕ) (off : ℕ) (d : Slice) (n : ℕ)
    → length d ≤ n
    → (rest : Slice) × (read_bytes (write_bytes g off d) off n ≡ d ++ rest)
unfolding write_bytes read_bytes
read-write g off [] n short = (read_bytes g off n, read_agree _ _ off n (λ i a b. refl))
read-write g off (x ∷ d) zero short = absurd (ground (arith, short))
read-write g off (x ∷ d) (suc n) short =
    let (rest, e) = read-write g (off + 1) d n (ground (arith, short)) in
    let behind =
      read_agree (write_bytes g off (x ∷ d)) (write_bytes g (off + 1) d) (off + 1) n
        (λ i a b. later i a) in
    (rest, rw (read_bytes, write_bytes, (==_iff off off).1 refl) (ap (◌∷◌ x) (behind ∙ e)))
  where
    later : (i : ℕ) → off + 1 ≤ i → write_bytes g off (x ∷ d) i ≡ write_bytes g (off + 1) d i
    later i a = elim (Bool-cases (off == i)) [
      | inl t ↦ absurd (ground (arith, t, a))
      | inr t ↦ rw (write_bytes, t) refl
    ]

-- Bytes that are not written are read as before.
pub read-write_other :
    (g : ℕ → ℕ) (off : ℕ) (d : Slice) (pos n : ℕ)
    → (pos + n ≤ off) ⊎ (off + length d ≤ pos)
    → read_bytes (write_bytes g off d) pos n ≡ read_bytes g pos n
read-write_other g off d pos n apart =
    read_agree _ _ pos n (λ i a b. write_outside g off d i (outside i a b apart))
  where
    outside :
        (i : ℕ)
        → pos ≤ i
        → i < pos + n
        → (pos + n ≤ off) ⊎ (off + length d ≤ pos)
        → (i < off) ⊎ (off + length d ≤ i)
    outside i a b (inl h) = inl (omega arith)
    outside i a b (inr h) = inr (omega arith)
