-- ===== src/Strings.antt =====
-- The C library functions of kernel/core/stdclib.cpp over a memory of bytes; addresses are 32-bit
-- words. A loop over a string runs on fuel, and `none` is that it does not suffice.
pub mod Copies
pub mod Compare
use tysos_cxx.Prelude.{
  ℕ, zero, suc, ◌+◌, ◌-◌, ◌*◌, ◌%◌, Bool, true, false, List, [], ◌∷◌, Option, none, some, leb, ◌==◌,
  if◌then◌else◌, add32, mul32, ℤ, pos, negsuc,
}

unfoldable pub store : (ℕ → ℕ) → ℕ → ℕ → ℕ → ℕ
store mem p c a = if a == p then c else mem a

-- The loop of memcpy from byte `i` on.
unfoldable pub memcpy_from : ℕ → (ℕ → ℕ) → ℕ → ℕ → ℕ → ℕ → ℕ
memcpy_from zero mem dest src i = mem
memcpy_from (suc n) mem dest src i =
    memcpy_from n (store mem (add32 dest i) (mem (add32 src i))) dest src (suc i)

-- memcpy
unfoldable pub memcpy : (ℕ → ℕ) → ℕ → ℕ → ℕ → ℕ → ℕ
memcpy mem dest src n = memcpy_from n mem dest src 0

-- The loop of memset from byte `i` on.
unfoldable pub memset_from : ℕ → (ℕ → ℕ) → ℕ → ℕ → ℕ → ℕ → ℕ
memset_from zero mem s c i = mem
memset_from (suc n) mem s c i = memset_from n (store mem (add32 s i) (c % 256)) s c (suc i)

-- memset
unfoldable pub memset : (ℕ → ℕ) → ℕ → ℕ → ℕ → ℕ → ℕ
memset mem s c n = memset_from n mem s c 0

-- `(int)a - (int)b` of two characters, which are signed bytes.
unfoldable pub char_diff : ℕ → ℕ → ℤ
char_diff a b =
    let x = (a + 128) % 256 in
    let y = (b + 128) % 256 in if leb y x then pos (x - y) else negsuc (y - x - 1)

-- strcmp
unfoldable pub strcmp : ℕ → (ℕ → ℕ) → ℕ → ℕ → Option ℤ
strcmp zero mem p q = none
strcmp (suc fuel) mem p q =
    if mem p == 0 then some (char_diff (mem p) (mem q)) else elim (mem p == mem q) [
      | true ↦ strcmp fuel mem (add32 p 1) (add32 q 1)
      | false ↦ some (char_diff (mem p) (mem q))
    ]

-- The loop of strlen.
unfoldable pub strlen_from : ℕ → (ℕ → ℕ) → ℕ → ℕ → Option ℕ
strlen_from zero mem s n = none
strlen_from (suc fuel) mem s n = elim (mem s == 0) [
  | true ↦ some n
  | false ↦ strlen_from fuel mem (add32 s 1) (add32 n 1)
]

-- strlen
unfoldable pub strlen : ℕ → (ℕ → ℕ) → ℕ → Option ℕ
strlen fuel mem s = strlen_from fuel mem s 0

-- strcpy
unfoldable pub strcpy : ℕ → (ℕ → ℕ) → ℕ → ℕ → Option (ℕ → ℕ)
strcpy fuel mem dest src = elim (strlen fuel mem src) [
  | none ↦ none
  | some n ↦ some (memcpy mem dest src n)
]

-- strcat
unfoldable pub strcat : ℕ → (ℕ → ℕ) → ℕ → ℕ → Option (ℕ → ℕ)
strcat fuel mem dest src = elim (strlen fuel mem dest) [
  | none ↦ none
  | some d_len ↦ elim (strlen fuel mem src) [
    | none ↦ none
    | some s_len ↦ elim (strcpy fuel mem (add32 dest d_len) src) [
      | none ↦ none
      | some mem' ↦ some (store mem' (add32 dest (add32 d_len s_len)) 0)
    ]
  ]
]

-- The bytes that the loop of write puts on the console.
unfoldable pub bytes_at : ℕ → (ℕ → ℕ) → ℕ → List ℕ
bytes_at zero mem s = []
bytes_at (suc count) mem s = mem s ∷ bytes_at count mem (add32 s 1)

-- write: its result, and what it puts on the console.
unfoldable pub write : ℕ → (ℕ → ℕ) → ℕ → ℕ → ℕ × List ℕ
write fd mem buf count = (count, if fd == 2 then bytes_at count mem buf else [])

-- fwrite: its result, and what it puts on the console.
unfoldable pub fwrite : (ℕ → ℕ) → ℕ → ℕ → ℕ → ℕ × List ℕ
fwrite mem ptr size nmemb = (size, (write 2 mem ptr (mul32 size nmemb)).1)
