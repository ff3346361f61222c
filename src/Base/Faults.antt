-- ===== src/Base/Faults.antt =====
-- Faults as values: what undefined behaviour, a failed `assert` and a loop that does not end come to.
use Prim.Native.Nat.{ℕ, ◌%◌, ◌^◌}
use mathlib.Core.Path.{◌≡◌, refl, ap}
use mathlib.Core.Logic.{◌⊎◌, inl, inr}
use mathlib.Core.Bool.{Bool, true, false}

pub data Fault : Type 0 where
  out_of_range : Fault
  null_pointer : Fault
  assert_failed : Fault
  thrown : Fault
  hangs : Fault
  overflow : Fault
  use_after_free : Fault

-- What a call comes to: a value, or the fault at which it ended.
pub data Result {ℓ} (A : Type ℓ) : Type ℓ where
  fault : Fault → Result A
  ok : A → Result A

-- `assert(b)`
abbrev pub assert : Bool → Result (Unit {0})
assert b = elim b [ true ↦ ok tt | false ↦ fault assert_failed ]

infixl 5 ◌>>=◌ ◌>>◌
-- A call, and what is done with its value; the second form is for a test.
abbrev pub ◌>>=◌ {ℓ κ} :
    {A : Type ℓ} {B : Type κ} (call : Result A) (next : A → Result B) → Result B
call >>= next = elim call [ fault why ↦ fault why | ok value ↦ next value ]

abbrev pub ◌>>◌ {ℓ} : {B : Type ℓ} (test : Result (Unit {0})) (next : Result B) → Result B
test >> next = elim test [ fault why ↦ fault why | ok _ ↦ next ]

-- `uint16_t`, `uint32_t` and `uint64_t` (also `size_t`) keep a value modulo a power of two.
abbrev pub u16 : ℕ → ℕ
u16 x = x % 2 ^ 16

abbrev pub u32 : ℕ → ℕ
u32 x = x % 2 ^ 32

abbrev pub u64 : ℕ → ℕ
u64 x = x % 2 ^ 64

pub Result-cases {ℓ} :
    {A : Type ℓ} (r : Result A) → ((a : A) × (r ≡ ok a)) ⊎ ((e : Fault) × (r ≡ fault e))
Result-cases (ok a) = inl (a, refl)
Result-cases (fault e) = inr (e, refl)

pub >>=-ok {ℓ κ} :
    {A : Type ℓ} {B : Type κ} (m : Result A) (f : A → Result B) {a : A} {b : B}
    → m ≡ ok a
    → f a ≡ ok b
    → (m >>= f) ≡ ok b
>>=-ok m f h k = rw h k

pub ok-injective {ℓ} : {A : Type ℓ} {a b : A} → ok a ≡ ok b → a ≡ b
ok-injective {A} {a} e = ap {B = A} (λ r. elim r [ ok x ↦ x | fault _ ↦ a ]) e
