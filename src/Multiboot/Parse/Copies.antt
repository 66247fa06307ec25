-- ===== src/Multiboot/Parse/Copies.antt =====
-- The copying of the boot loader's tables in Multiboot::Parse (kernel/core/multiboot.cpp).
use Prim.Native.Nat.{min}
use tysos_cxx.Prelude.{
  ℕ, zero, suc, List, [], ◌∷◌, some, ◌+◌, ◌*◌, ◌%◌, ◌^◌, ◌≤◌, ◌<◌, ◌≡◌, set, refl, ap, ◌∙◌, length,
  get_elem?, add32, arith,
}
use tysos_cxx.Multiboot.Parse.{BootMemory, overwrite, copy_entries, copy_mmap, copy_bytes}

-- Entries that fit into the array leave its size as it is.
pub overwrite_fits {ℓ} :
    {A : Type ℓ} (xs old : List A)
    → length xs ≤ length old
    → (new : List A) × (overwrite xs old ≡ some new) × (length new ≡ length old)
unfolding overwrite
overwrite_fits [] old h = (old, refl, refl)
overwrite_fits (x ∷ xs) [] h = absurd (omega arith)
overwrite_fits (x ∷ xs) (y ∷ old) h =
    let (rest, ran, same) = overwrite_fits xs old (omega arith) in
    (x ∷ rest, rw ran refl, omega arith)

pub length-copy_bytes : (b : BootMemory) (n src : ℕ) → length (copy_bytes b n src) ≡ n
unfolding copy_bytes
length-copy_bytes b zero src = refl
length-copy_bytes b (suc n) src = ap suc (length-copy_bytes b n (add32 src 1))

pub length-copy_entries {ℓ} :
    {A : Type ℓ} (read : ℕ → A) (room count src stride : ℕ)
    → length (copy_entries read room count src stride) ≡ min room count
unfolding copy_entries
length-copy_entries read zero count src stride = omega arith
length-copy_entries read (suc room) zero src stride = omega arith
length-copy_entries read (suc room) (suc count) src stride =
    omega (arith, length-copy_entries read room count (add32 src stride) stride)

pub length-copy_mmap :
    (b : BootMemory) (room end src : ℕ) → length (copy_mmap b room end src) ≤ room
unfolding copy_mmap
length-copy_mmap b zero end src = omega arith
length-copy_mmap b (suc room) end src =
    ground (arith, length-copy_mmap b room end (add32 src (add32 (b.mmap_at src).size 4)))

pub get_elem?-copy_entries {ℓ} :
    {A : Type ℓ} (read : ℕ → A) (room count src stride i : ℕ)
    → i < room
    → i < count
    → src < 2 ^ 32
    → get_elem? (copy_entries read room count src stride) i
      ≡ some (read ((src + i * stride) % 2 ^ 32))
unfolding copy_entries
get_elem?-copy_entries read zero count src stride i h k l = absurd (omega arith)
get_elem?-copy_entries read (suc room) zero src stride i h k l = absurd (omega arith)
get_elem?-copy_entries read (suc room) (suc count) src stride zero h k l =
    let e : (src + 0 * stride) % 2 ^ 32 ≡ src = omega arith in rw e
get_elem?-copy_entries read (suc room) (suc count) src stride (suc i) h k l =
    let e : (add32 src stride + i * stride) % 2 ^ 32 ≡ (src + suc i * stride) % 2 ^ 32 =
      omega arith in
    get_elem?-copy_entries read room count (add32 src stride) stride i (omega arith) (omega arith)
      (omega arith)
    ∙ ap (λ x. some (read x)) e

pub length-set {ℓ} : {A : Type ℓ} (xs : List A) (i : ℕ) (v : A) → length (set xs i v) ≡ length xs
length-set [] i v = refl
length-set (x ∷ xs) zero v = refl
length-set (x ∷ xs) (suc i) v = ap suc (length-set xs i v)

pub get_elem?-some {ℓ} :
    {A : Type ℓ} (xs : List A) (i : ℕ) → i < length xs → (a : A) × (get_elem? xs i ≡ some a)
get_elem?-some [] i h = absurd (omega arith)
get_elem?-some (x ∷ xs) zero h = (x, refl)
get_elem?-some (x ∷ xs) (suc i) h = get_elem?-some xs i (omega arith)

pub get_elem?-length {ℓ} :
    {A : Type ℓ} (xs : List A) (i : ℕ) {a : A} → get_elem? xs i ≡ some a → i < length xs
get_elem?-length [] i h = absurd (cc)
get_elem?-length (x ∷ xs) zero h = omega arith
get_elem?-length (x ∷ xs) (suc i) h = omega (arith, get_elem?-length xs i h)
