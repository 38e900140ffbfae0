-- ===== src/Code/Jumps/Chain.antt =====
-- A list of jumps as the list of its pcs, and how writing one word affects it.
use tsuki.Base.Distinct.{NotIn, AllLt}
use tsuki.Base.Int.{ℤ, pos}
use tsuki.Base.{
  ℕ, zero, suc, ◌<◌, ◌≡◌, refl, List, [], ◌∷◌, length, get_or, set, arith, length-set,
  get_or-set_ne,
}
use tsuki.Code.Jumps.{ok, no_jump, jump_target, last_jump}
use tsuki.Code.Jumps.Target.{getjump_lem}

abbrev pub word : List ℕ → ℕ → ℕ
word code p = get_or code p 0

abbrev pub Chain : List ℕ → ℤ → List ℕ → Type 0
Chain code h [] = h ≡ no_jump
Chain code h (p ∷ l) =
    (h ≡ pos p) × (p < length code) × Chain code (jump_target (pos p) (word code p)) l

pub Chain-AllLt : (code : List ℕ) (h : ℤ) (l : List ℕ) → Chain code h l → AllLt (length code) l
Chain-AllLt code h [] c = tt
Chain-AllLt code h (p ∷ l) c = (c.1, Chain-AllLt code (jump_target (pos p) (word code p)) l c.2)

pub Chain-set :
    (code : List ℕ) (q v : ℕ) (h : ℤ) (l : List ℕ)
    → NotIn q l
    → Chain code h l
    → Chain (set code q v) h l
Chain-set code q v h [] out c = c
Chain-set code q v h (p ∷ l) out c = (
  c.0,
  rw length-set c.1,
  rw (get_or-set_ne code q p v 0 out.0)
      (Chain-set code q v (jump_target (pos p) (word code p)) l out.1 c.2),
)

abbrev pub last : ℕ → List ℕ → ℕ
last p [] = p
last p (x ∷ l) = last x l

pub last_jump_lem :
    (n : ℕ) (code : List ℕ) (p : ℕ) (l : List ℕ)
    → length l < n
    → Chain code (pos p) (p ∷ l)
    → last_jump n code (pos p) ≡ ok (pos (last p l))
unfolding last_jump
last_jump_lem zero code p l lt c = absurd (omega arith)
last_jump_lem (suc n) code p [] lt c = rw (getjump_lem code p c.1, c.2) refl
last_jump_lem (suc n) code p (x ∷ l) lt c =
    rw (getjump_lem code p c.1, c.2.0) (last_jump_lem n code x l (omega arith) (refl, c.2.1, c.2.2))
