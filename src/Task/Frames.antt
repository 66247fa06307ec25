-- ===== src/Task/Frames.antt =====
-- Words on a stack (kernel/i386/i386_task.cpp), as a list from the stack pointer on.
use tysos_cxx.Prelude.{
  ℕ, ◌+◌, ◌-◌, ◌*◌, ◌^◌, ◌<◌, ◌≤◌, ◌≡◌, ◌≢◌, ◌⊎◌, inl, inr, List, [], ◌∷◌, refl, sym, ◌∙◌, ap,
  subst, sub32, arith, length,
}
use tysos_cxx.Task.{Stack, poke, push, push_all}

-- The words in memory from an address on.
abbrev pub Frame : (ℕ → ℕ) → ℕ → List ℕ → Type 0
Frame mem sp [] = Unit
Frame mem sp (w ∷ ws) = (mem sp ≡ w) × Frame mem (sp + 4) ws

-- The words in the order in which they are pushed, before the ones that are there.
abbrev pub onto : List ℕ → List ℕ → List ℕ
onto [] ws = ws
onto (v ∷ vs) ws = onto vs (v ∷ ws)

pub Frame-moved :
    (mem mem' : ℕ → ℕ) (sp : ℕ) (ws : List ℕ)
    → ((a : ℕ) → sp ≤ a → a < sp + 4 * length ws → mem' a ≡ mem a)
    → Frame mem sp ws
    → Frame mem' sp ws
Frame-moved mem mem' sp [] same f = tt
Frame-moved mem mem' sp (w ∷ ws) same (at, f) = (
  same sp (omega arith) (omega arith) ∙ at,
  Frame-moved mem mem' (sp + 4) ws (λ a l h. same a (omega arith) (omega arith)) f,
)

poke_other : (mem : ℕ → ℕ) (p w a : ℕ) → a ≢ p → poke mem p w a ≡ mem a
unfolding poke
poke_other mem p w a ne = ground arith

poke_at : (mem : ℕ → ℕ) (p w : ℕ) → poke mem p w p ≡ w
unfolding poke
poke_at mem p w = ground arith

push-run :
    (v : ℕ) (s : Stack)
    → 4 ≤ s.sp
    → s.sp < 2 ^ 32
    → push v s ≡ record { sp = s.sp - 4; mem = poke s.mem (s.sp - 4) v }
unfolding push
push-run v s l h =
    let p : sub32 s.sp 4 ≡ s.sp - 4 = omega arith in
    ap {B = Stack} (λ q. record { sp = q; mem = poke s.mem q v }) p

-- What pushing words leaves: the stack pointer, the words, and the memory outside of them.
pub record Pushed (vs ws : List ℕ) (s t : Stack) : Type 0 where
  pub sp : t.sp + 4 * length vs ≡ s.sp
  pub frame : Frame t.mem t.sp (onto vs ws)
  pub kept : (a : ℕ) → (a < t.sp) ⊎ (s.sp ≤ a) → t.mem a ≡ s.mem a

-- Words that are pushed within the address space stand below the ones that are there.
pub push_all-Pushed :
    (vs ws : List ℕ) (s : Stack)
    → Frame s.mem s.sp ws
    → 4 * length vs ≤ s.sp
    → s.sp < 2 ^ 32
    → Pushed vs ws s (push_all vs s)
unfolding push_all
push_all-Pushed [] ws s f l h = record { sp = omega arith; frame = f; kept = λ a out. refl }
push_all-Pushed (v ∷ vs) ws s f l h =
    let p : ℕ = s.sp - 4 in
    let one : Stack = record { sp = p; mem = poke s.mem p v } in
    let step = push-run v s (omega arith) h in
    let up : p + 4 ≡ s.sp = omega arith in
    let below =
      Frame-moved s.mem one.mem s.sp ws (λ a low high. poke_other s.mem p v a (λ e. omega arith))
        f in
    let rest =
      push_all-Pushed vs (v ∷ ws) one (poke_at s.mem p v, rw up below) (omega arith)
        (omega arith) in
    let sp = rest.sp in
    subst (λ x. Pushed (v ∷ vs) ws s (push_all vs x)) (sym step)
      (record {
        sp = omega arith;
        frame = rest.frame;
        kept = λ a out.
            rest.kept a (outside a (push_all vs one).sp p s.sp up out)
            ∙ poke_other s.mem p v a
                (λ e. between a (push_all vs one).sp p s.sp (length vs) up sp e out);
      })
  where
    outside : (a t p q : ℕ) → p + 4 ≡ q → (a < t) ⊎ (q ≤ a) → (a < t) ⊎ (p ≤ a)
    outside a t p q up (inl low) = inl low
    outside a t p q up (inr high) = inr (omega arith)

    between : (a t p q n : ℕ) → p + 4 ≡ q → t + 4 * n ≡ p → a ≡ p → (a < t) ⊎ (q ≤ a) → ⊥
    between a t p q n up sp e (inl low) = omega arith
    between a t p q n up sp e (inr high) = omega arith
