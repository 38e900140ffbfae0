-- ===== src/Gc/Collect/Listed.antt =====
-- The list of all objects after the sweep (src/gc/mod.rs): its addresses, and those that were freed.
use mathlib.Core.Path.{subst}
use mathlib.Core.List.{append_assoc, append-nil}
use tsuki.Base.{
  ℕ, zero, suc, ◌+◌, ◌<◌, ◌≡◌, ◌≢◌, refl, sym, ap, ◌∙◌, inl, inr, ◌↔◌, arith, Bool, true, not, List,
  [], ◌∷◌, ◌++◌, length, get_or, if◌then◌else◌, Bool-cases,
}
use tsuki.Gc.Mark.{is_dead}
use tsuki.Gc.Sweep.{Released, free, sweep_tag}
use tsuki.Gc.Sweep.Part.{survivors_of, dead_of, free_all}
use tsuki.Gc.Trace.Step.{In}
use tsuki.Gc.Collect.{objects_from, addresses}

-- The addresses, from `i` on, of the marks that pass a test.
abbrev pub picked : (ℕ → Bool) → ℕ → List ℕ → List ℕ
picked p i [] = []
picked p i (m ∷ ms) = if p m then i ∷ picked p (suc i) ms else picked p (suc i) ms

picked-later : (p : ℕ → Bool) (i j : ℕ) (ms : List ℕ) → j < i → In j (picked p i ms) → ⊥
picked-later p i j [] lt m = m
picked-later p i j (x ∷ ms) lt m = ground (arith, picked-later p (suc i) j ms)

picked-In :
    (p : ℕ → Bool) (i k : ℕ) (ms : List ℕ)
    → k < length ms
    → In (i + k) (picked p i ms) ↔ (p (get_or ms k 0) ≡ true)
picked-In p i k [] lt = absurd (omega arith)
picked-In p i zero (m ∷ ms) lt = ground (arith, picked-later p (suc i) (i + 0) ms)
picked-In p i (suc k) (m ∷ ms) lt =
    let moved : suc i + k ≡ i + suc k = omega arith in
    let later = picked-In p (suc i) k ms (omega arith) in
    let later' : In (i + suc k) (picked p (suc i) ms) ↔ (p (get_or ms k 0) ≡ true) =
      subst (λ a. In a (picked p (suc i) ms) ↔ (p (get_or ms k 0) ≡ true)) moved later in
    ground (arith, later')

pub picked-In_start :
    (p : ℕ → Bool) (k : ℕ) (ms : List ℕ)
    → k < length ms
    → In k (picked p 0 ms) ↔ (p (get_or ms k 0) ≡ true)
picked-In_start p k ms lt =
    let same : 0 + k ≡ k = omega arith in
    subst (λ a. In a (picked p 0 ms) ↔ (p (get_or ms k 0) ≡ true)) same (picked-In p 0 k ms lt)

pub survivors-picked :
    (w i : ℕ) (tts ms : List ℕ)
    → length tts ≡ length ms
    → addresses (survivors_of w (objects_from i tts ms)) ≡ picked (λ m. not (is_dead w m)) i ms
survivors-picked w i [] [] e = refl
survivors-picked w i [] (m ∷ ms) e = absurd (omega arith)
survivors-picked w i (tt ∷ tts) [] e = absurd (omega arith)
survivors-picked w i (tt ∷ tts) (m ∷ ms) e = ground (arith, survivors-picked w (suc i) tts ms)

pub dead-picked :
    (w i : ℕ) (tts ms : List ℕ)
    → length tts ≡ length ms
    → addresses (dead_of w (objects_from i tts ms)) ≡ picked (λ m. is_dead w m) i ms
dead-picked w i [] [] e = refl
dead-picked w i [] (m ∷ ms) e = absurd (omega arith)
dead-picked w i (tt ∷ tts) [] e = absurd (omega arith)
dead-picked w i (tt ∷ tts) (m ∷ ms) e = ground (arith, dead-picked w (suc i) tts ms)

pub length-objects :
    (i : ℕ) (tts ms : List ℕ) → length tts ≡ length ms → length (objects_from i tts ms) ≡ length ms
length-objects i [] [] e = refl
length-objects i [] (m ∷ ms) e = absurd (omega arith)
length-objects i (tt ∷ tts) [] e = refl
length-objects i (tt ∷ tts) (m ∷ ms) e = ap suc (length-objects (suc i) tts ms (omega arith))

-- No object of the heap is the mark of an earlier sweep.
abbrev pub AllPlain : List ℕ → Type 0
AllPlain [] = Unit
AllPlain (tt ∷ tts) = (tt ≢ sweep_tag) × AllPlain tts

free_plain :
    (i tt m : ℕ) (r : Released)
    → tt ≢ sweep_tag
    → free (record { address = i; tt = tt; marked = m }) r
      ≡ record r { freed = r.freed ++ (i ∷ []) }
unfolding free
free_plain i tt m r ne = ground arith

pub freed_lem :
    (w i : ℕ) (tts ms : List ℕ) (r : Released)
    → AllPlain tts
    → Released.freed (free_all (dead_of w (objects_from i tts ms)) r)
      ≡ r.freed ++ addresses (dead_of w (objects_from i tts ms))
unfolding free
freed_lem w i [] ms r plain = sym (append-nil r.freed)
freed_lem w i (tt ∷ tts) [] r plain = sym (append-nil r.freed)
freed_lem w i (tt ∷ tts) (m ∷ ms) r plain = elim (Bool-cases (is_dead w m)) [
  | inr e ↦ rw (e) (freed_lem w (suc i) tts ms r plain.1)
  | inl e ↦
      let dead = dead_of w (objects_from (suc i) tts ms) in
      rw (e) (
        ap (λ q. Released.freed (free_all dead q)) (free_plain i tt m r plain.0)
        ∙ freed_lem w (suc i) tts ms (record r { freed = r.freed ++ (i ∷ []) }) plain.1
        ∙ append_assoc r.freed (i ∷ []) (addresses dead))
]
