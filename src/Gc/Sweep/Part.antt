-- ===== src/Gc/Sweep/Part.antt =====
-- One run of the loop of `sweep` (src/gc/mod.rs).
use tsuki.Base.{
  ℕ, zero, suc, ◌+◌, ◌-◌, ◌≤◌, ◌<◌, ◌≡◌, refl, sym, ap, ◌∙◌, true, false, Option, some, List, [],
  ◌∷◌, ◌++◌, ◌==◌, if◌then◌else◌, length, arith, Bool-cases, inl, inr,
}
use mathlib.Core.List.{append_assoc, append-nil}
use tsuki.Gc.Mark.{is_dead, recolour}
use tsuki.Gc.Sweep.{Object, Gc, Released, free, release, keep, sweep_loop, strict_sub}

-- What is to become of the objects of a list, for the current white.
abbrev pub survivors_of : ℕ → List Object → List Object
survivors_of white [] = []
survivors_of white (o ∷ os) =
    if is_dead white o.marked
    then survivors_of white os
    else record o { marked = recolour white o.marked } ∷ survivors_of white os

abbrev pub dead_of : ℕ → List Object → List Object
dead_of white [] = []
dead_of white (o ∷ os) = if is_dead white o.marked then o ∷ dead_of white os else dead_of white os

abbrev pub free_all : List Object → Released → Released
free_all [] h = h
free_all (o ∷ os) h = free_all os (free o h)

-- The state after a part `os` of `rest` is swept and `left` remains.
abbrev pub swept : List Object → List Object → Gc → Gc
swept os left g = record g {
  ahead = g.ahead ++ survivors_of g.currentwhite os;
  rest = left;
  heap = free_all (dead_of g.currentwhite os) g.heap;
  debt = g.debt - length (dead_of g.currentwhite os);
  survivors = g.survivors + length (survivors_of g.currentwhite os);
}

-- One round of the loop, on the state.
swept_dead :
    (o : Object) (os left : List Object) (g : Gc)
    → is_dead g.currentwhite o.marked ≡ true
    → swept os left (record g { heap = free o g.heap; debt = g.debt - 1 }) ≡ swept (o ∷ os) left g
swept_dead o os left g h = rw h (ground arith)

swept_alive :
    (o : Object) (os left : List Object) (g : Gc)
    → is_dead g.currentwhite o.marked ≡ false
    → swept os left (keep o g) ≡ swept (o ∷ os) left g
unfolding keep
swept_alive o os left g h = rw h (
    ground (
      arith,
      append_assoc g.ahead (record o { marked = recolour g.currentwhite o.marked } ∷ [])
          (survivors_of g.currentwhite os),
    ))

swept_none : (left : List Object) (g : Gc) → swept [] left g ≡ record g { rest = left }
swept_none left g = ground (arith, append-nil g.ahead)

released : Object → Gc → Gc
released o g = record g { heap = free o g.heap; debt = g.debt - 1 }

strict_sub-one : (n : ℕ) → 0 < n → strict_sub n 1 ≡ some (n - 1)
strict_sub-one zero h = elim h [ ]
strict_sub-one (suc zero) h = refl
strict_sub-one (suc (suc n)) h = ground arith

release_lem : (o : Object) (g : Gc) → 0 < g.debt → release o g ≡ some (released o g)
unfolding release released
release_lem o g h = rw (strict_sub-one g.debt h, release) refl

-- What a run of the loop promises: it sweeps a first part of the list, and a nonempty one if it can.
pub record SweptPart (progress : Type 0) (os : List Object) (g : Gc) (result : Option Gc)
    : Type 0 where
  pub done : List Object
  pub left : List Object
  pub parts : os ≡ done ++ left
  pub returns : result ≡ some (swept done left g)
  pub moves : progress → 0 < length done

stop_here :
    (os : List Object) (g : Gc) {P : Type 0}
    → ¬ P
    → SweptPart P os g (some (record g { rest = os }))
stop_here os g idle = record {
  done = [];
  left = os;
  parts = refl;
  returns = ap some (sym (swept_none os g));
  moves = λ p. absurd (idle p);
}

-- An object before a part.
after_dead :
    (o : Object) (os : List Object) (g : Gc) {P Q : Type 0} {r : Option Gc}
    → is_dead g.currentwhite o.marked ≡ true
    → SweptPart P os (released o g) r
    → SweptPart Q (o ∷ os) g r
unfolding released
after_dead o os g h s = record {
  done = o ∷ s.done;
  left = s.left;
  parts = ap (λ l. o ∷ l) s.parts;
  returns = s.returns ∙ ap some (swept_dead o s.done s.left g h);
  moves = λ _. omega arith;
}

after_alive :
    (o : Object) (os : List Object) (g : Gc) {P Q : Type 0} {r : Option Gc}
    → is_dead g.currentwhite o.marked ≡ false
    → SweptPart P os (keep o g) r
    → SweptPart Q (o ∷ os) g r
after_alive o os g h s = record {
  done = o ∷ s.done;
  left = s.left;
  parts = ap (λ l. o ∷ l) s.parts;
  returns = s.returns ∙ ap some (swept_alive o s.done s.left g h);
  moves = λ _. omega arith;
}

abbrev Busy : ℕ → List Object → Type 0
Busy rounds os = (0 < rounds) × (0 < length os)

pub sweep_loop_lem :
    (rounds n : ℕ) (os : List Object) (g : Gc)
    → length (dead_of g.currentwhite os) ≤ g.debt
    → SweptPart (Busy rounds os) os g (sweep_loop rounds n os g)
unfolding sweep_loop
sweep_loop_lem zero n os g fits = stop_here os g (λ b. omega arith)
sweep_loop_lem (suc rounds) n [] g fits = stop_here [] g (λ b. omega arith)
sweep_loop_lem (suc rounds) n (o ∷ os) g fits =
    elim (Bool-cases (is_dead g.currentwhite o.marked)) [
      | inr alive ↦
          rw (alive, sweep_loop)
            (after_alive o os g {P = Busy rounds os} alive
              (sweep_loop_lem rounds n os (keep o g) (unfold keep in rw alive at fits)))
      | inl dead ↦
          let one : length (dead_of g.currentwhite os) + 1 ≤ g.debt = ground arith in
          rw (dead, release_lem o g (omega arith), sweep_loop)
            (elim (Bool-cases (n + 1 == 2)) [
              | inl two ↦
                  rw (two, sweep_loop)
                    (after_dead o os g {P = ⊥} dead (stop_here os (released o g) (λ b. b)))
              | inr more ↦
                  rw (more, sweep_loop)
                    (after_dead o os g {P = Busy rounds os} dead (
                      sweep_loop_lem rounds (n + 1) os (released o g)
                        (unfold released in omega arith)))
            ])
    ]
