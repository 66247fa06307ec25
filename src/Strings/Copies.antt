-- ===== src/Strings/Copies.antt =====
-- memcpy, strcpy and strcat (kernel/core/stdclib.cpp) on strings in memory.
use tysos_cxx.Prelude.{
  ℕ, zero, suc, ◌+◌, ◌-◌, ◌^◌, ◌<◌, ◌≤◌, ◌≡◌, ◌≢◌, ◌⊎◌, ◌&&◌, inl, inr, false, List, [], ◌∷◌, ◌++◌,
  some, refl, ltb, leb, ◌==◌, if◌then◌else◌, length, arith, add32, Bool-cases, ◌∙◌,
}
use tysos_cxx.Strings.{store, memcpy_from, memcpy, strlen_from, strlen, strcpy, strcat}

-- The memory holds the characters from the address on, and then a NUL.
abbrev pub CString : (ℕ → ℕ) → ℕ → List ℕ → Type 0
CString mem p [] = mem p ≡ 0
CString mem p (c ∷ s) = (mem p ≡ c) × (c ≢ 0) × CString mem (suc p) s

memcpy_from_lem :
    (n : ℕ) (mem : ℕ → ℕ) (dest src i a : ℕ)
    → dest + (i + n) ≤ 2 ^ 32
    → src + (i + n) ≤ 2 ^ 32
    → (dest ≤ src) ⊎ (src + (i + n) ≤ dest)
    → memcpy_from n mem dest src i a
      ≡ (if leb (dest + i) a && ltb a (dest + (i + n)) then mem (src + (a - dest)) else mem a)
unfolding memcpy_from store
memcpy_from_lem zero mem dest src i a hd hs apart = ground arith
memcpy_from_lem (suc n) mem dest src i a hd hs apart =
    let to : add32 dest i ≡ dest + i = omega arith in
    let from : add32 src i ≡ src + i = omega arith in
    let mem1 = store mem (dest + i) (mem (src + i)) in
    let ih = memcpy_from_lem n mem1 dest src (suc i) a (omega arith) (omega arith) (omega arith) in
    rw (to, from)
      (ih ∙ elim (Bool-cases (a == dest + i)) [
        | inl here ↦
            let at : a ≡ dest + i = ground arith in
            let offset : src + (a - dest) ≡ src + i = omega arith in ground arith
        | inr elsewhere ↦ ground arith
      ])

-- memcpy copies `n` bytes to `dest` and changes no other byte, where the areas end within 32 bits
-- and `dest` does not lie inside the source behind its first byte.
pub memcpy_lem :
    (mem : ℕ → ℕ) (dest src n a : ℕ)
    → dest + n ≤ 2 ^ 32
    → src + n ≤ 2 ^ 32
    → (dest ≤ src) ⊎ (src + n ≤ dest)
    → memcpy mem dest src n a
      ≡ (if leb dest a && ltb a (dest + n) then mem (src + (a - dest)) else mem a)
unfolding memcpy
memcpy_lem mem dest src n a hd hs apart =
    let copied = memcpy_from_lem n mem dest src 0 a (omega arith) (omega arith) (omega arith) in
    ground arith

CString-end : (mem : ℕ → ℕ) (p : ℕ) (s : List ℕ) → CString mem p s → mem (p + length s) ≡ 0
CString-end mem p [] h = let e : p + 0 ≡ p = omega arith in rw e h
CString-end mem p (c ∷ s) (at, ne, h) =
    let e : suc p + length s ≡ p + suc (length s) = omega arith in
    rw (← e) (CString-end mem (suc p) s h)

-- A string elsewhere in memory, or in another memory.
CString-moved :
    (mem mem' : ℕ → ℕ) (p q : ℕ) (s : List ℕ)
    → ((k : ℕ) → k ≤ length s → mem' (q + k) ≡ mem (p + k))
    → CString mem p s
    → CString mem' q s
CString-moved mem mem' p q [] same h =
    let first = same 0 (omega arith) in
    let ep : p + 0 ≡ p = omega arith in
    let eq : q + 0 ≡ q = omega arith in (rw (ep, eq) at first) ∙ h
CString-moved mem mem' p q (c ∷ s) same (at, ne, h) =
    let first = same 0 (omega arith) in
    let ep : p + 0 ≡ p = omega arith in
    let eq : q + 0 ≡ q = omega arith in
    (
      (rw (ep, eq) at first) ∙ at,
      ne,
      CString-moved mem mem' (suc p) (suc q) s
          (λ k l.
            let next = same (suc k) (omega arith) in
            let sp : p + suc k ≡ suc p + k = omega arith in
            let sq : q + suc k ≡ suc q + k = omega arith in rw (sp, sq) at next)
          h,
    )

CString-append :
    (mem mem' : ℕ → ℕ) (p : ℕ) (s t : List ℕ)
    → ((k : ℕ) → k < length s → mem' (p + k) ≡ mem (p + k))
    → CString mem p s
    → CString mem' (p + length s) t
    → CString mem' p (s ++ t)
CString-append mem mem' p [] t same h rest = let e : p + 0 ≡ p = omega arith in rw e at rest
CString-append mem mem' p (c ∷ s) t same (at, ne, h) rest =
    let first = same 0 (omega arith) in
    let e : p + 0 ≡ p = omega arith in
    let end : p + suc (length s) ≡ suc p + length s = omega arith in
    (
      (rw e at first) ∙ at,
      ne,
      CString-append mem mem' (suc p) s t
          (λ k l.
            let next = same (suc k) (omega arith) in
            let sp : p + suc k ≡ suc p + k = omega arith in rw sp at next)
          h (rw end at rest),
    )

strlen_from_lem :
    (fuel : ℕ) (mem : ℕ → ℕ) (p n : ℕ) (s : List ℕ)
    → CString mem p s
    → p + length s < 2 ^ 32
    → n + length s < 2 ^ 32
    → length s < fuel
    → strlen_from fuel mem p n ≡ some (n + length s)
unfolding strlen_from
strlen_from_lem zero mem p n s h lp ln l = absurd (omega arith)
strlen_from_lem (suc fuel) mem p n [] h lp ln l = let e : n + 0 ≡ n = omega arith in ground arith
strlen_from_lem (suc fuel) mem p n (c ∷ s) (at, ne, h) lp ln l =
    let next : add32 p 1 ≡ suc p = omega arith in
    let more : add32 n 1 ≡ suc n = omega arith in
    let e : suc n + length s ≡ n + suc (length s) = omega arith in
    let ih =
      strlen_from_lem fuel mem (suc p) (suc n) s h (omega arith) (omega arith) (omega arith) in
    let go : (mem p == 0) ≡ false = ground arith in rw (strlen_from, go, next, more, ← e) ih

pub strlen_lem :
    (fuel : ℕ) (mem : ℕ → ℕ) (p : ℕ) (s : List ℕ)
    → CString mem p s
    → p + length s < 2 ^ 32
    → length s < fuel
    → strlen fuel mem p ≡ some (length s)
unfolding strlen
strlen_lem fuel mem p s h lp l =
    let e : 0 + length s ≡ length s = omega arith in
    rw e at (strlen_from_lem fuel mem p 0 s h lp (omega arith) l)

-- strcpy of a string ends and writes the characters of the string, but not its NUL: every other
-- byte, the one behind the copy too, stays as it was. The areas lie apart.
pub strcpy_lem :
    (fuel : ℕ) (mem : ℕ → ℕ) (dest src : ℕ) (s : List ℕ)
    → CString mem src s
    → length s < fuel
    → src + length s < 2 ^ 32
    → dest + length s ≤ 2 ^ 32
    → (dest ≤ src) ⊎ (src + length s ≤ dest)
    → (mem' : ℕ → ℕ) × (strcpy fuel mem dest src ≡ some mem')
      × ((a : ℕ)
          → mem' a
            ≡ (if leb dest a && ltb a (dest + length s) then mem (src + (a - dest)) else mem a))
unfolding strcpy
strcpy_lem fuel mem dest src s h l ls ld apart =
    let len = strlen_lem fuel mem src s h ls l in
    (
      memcpy mem dest src (length s),
      rw (strcpy, len) refl,
      λ a. memcpy_lem mem dest src (length s) a ld (omega arith) apart,
    )

strcat-run :
    (fuel : ℕ) (mem mem1 : ℕ → ℕ) (dest src d_len s_len to end : ℕ)
    → strlen fuel mem dest ≡ some d_len
    → strlen fuel mem src ≡ some s_len
    → add32 dest d_len ≡ to
    → add32 dest (add32 d_len s_len) ≡ end
    → strcpy fuel mem to src ≡ some mem1
    → strcat fuel mem dest src ≡ some (store mem1 end 0)
unfolding strcat
strcat-run fuel mem mem1 dest src d_len s_len to end ld ls at_to at_end copied =
    rw (strcat, ld, ls, at_to, copied, at_end) refl

-- The memory after strcat, from the copy that strcpy makes.
appended :
    (mem mem1 : ℕ → ℕ) (dest src : ℕ) (s t : List ℕ)
    → ((a : ℕ)
        → mem1 a ≡ (
            if leb (dest + length s) a && ltb a (dest + length s + length t)
            then mem (src + (a - (dest + length s)))
            else mem a))
    → (dest + (length s + length t) < src) ⊎ (src + length t < dest)
    → CString mem dest s
    → CString mem src t
    → CString (store mem1 (dest + (length s + length t)) 0) dest (s ++ t)
      × CString (store mem1 (dest + (length s + length t)) 0) src t
      × ((a : ℕ)
          → (a < dest) ⊎ (dest + (length s + length t) < a)
          → store mem1 (dest + (length s + length t)) 0 a ≡ mem a)
unfolding store
appended mem mem1 dest src s t is apart hs ht =
    let mem2 = store mem1 (dest + (length s + length t)) 0 in
    let end = CString-end mem src t ht in
    (
      CString-append mem mem2 dest s t (λ k l. (let at = is (dest + k) in ground arith)) hs
          (CString-moved mem mem2 src (dest + length s) t
            (λ k l.
              let at = is (dest + length s + k) in
              let offset : src + (dest + length s + k - (dest + length s)) ≡ src + k =
                omega arith in
              elim (Bool-cases (k == length t)) [
                | inl last ↦ let same : k ≡ length t = ground arith in ground arith
                | inr inside ↦ ground arith
              ])
            ht),
      CString-moved mem mem2 src src t (λ k l. (let at = is (src + k) in ground arith)) ht,
      λ a out. (let at = is a in ground arith),
    )

-- strcat of two strings that lie apart ends and puts the second behind the first, with a NUL behind
-- both; the second string stays as it was, and so does every byte outside of the result.
pub strcat_lem :
    (fuel : ℕ) (mem : ℕ → ℕ) (dest src : ℕ) (s t : List ℕ)
    → CString mem dest s
    → CString mem src t
    → length s < fuel
    → length t < fuel
    → dest + (length s + length t) < 2 ^ 32
    → src + length t < 2 ^ 32
    → (dest + (length s + length t) < src) ⊎ (src + length t < dest)
    → (mem' : ℕ → ℕ) × (strcat fuel mem dest src ≡ some mem')
      × CString mem' dest (s ++ t)
      × CString mem' src t
      × ((a : ℕ) → (a < dest) ⊎ (dest + (length s + length t) < a) → mem' a ≡ mem a)
strcat_lem fuel mem dest src s t hs ht ls lt bd bs apart =
    let to : add32 dest (length s) ≡ dest + length s = omega arith in
    let end : add32 dest (add32 (length s) (length t)) ≡ dest + (length s + length t) =
      omega arith in
    let (mem1, copied, is) =
      strcpy_lem fuel mem (dest + length s) src t ht lt bs (omega arith) (omega arith) in
    let (joined, kept, outside) = appended mem mem1 dest src s t is apart hs ht in
    (
      store mem1 (dest + (length s + length t)) 0,
      strcat-run fuel mem mem1 dest src (length s) (length t) (dest + length s)
          (dest + (length s + length t)) (strlen_lem fuel mem dest s hs (omega arith) ls)
          (strlen_lem fuel mem src t ht bs lt) to end copied,
      joined,
      kept,
      outside,
    )
