-- ===== src/Code/Jumps/Concat.antt =====
-- `luaK_concat` of src/lcode.rs joins two lists of jumps.
use tsuki.Base.Distinct.{NotIn, Distinct, NotIn-append, Distinct-append, length-le_of_Distinct}
use native.Mathlib.Decide.{ℕ_discrete}
use tsuki.Base.Int.{ℤ, pos}
use tsuki.Base.{
  ℕ, ◌+◌, ◌^◌, ◌≤◌, ◌<◌, ◌≡◌, ◌≢◌, refl, sym, List, [], ◌∷◌, ◌++◌, length, set, arith, length-set,
  get_or-set_self, get_or-set_ne,
}
use tsuki.Code.Word.{get_opcode}
use tsuki.Code.Jumps.{ok, offset_sj, jump_target, concat}
use tsuki.Code.Jumps.Chain.{word, Chain, Chain-AllLt, Chain-set, last, last_jump_lem}
use tsuki.Code.Jumps.Target.{
  jump_word, InReach, jump_target-jump_word, opcode-jump_word, jump_word-lt, fixjump_lem,
}

-- The words are `u32`s, and there are few enough that every jump is in reach.
pub record IsCode (code : List ℕ) : Type 0 where
  pub words : (p : ℕ) → p < length code → word code p < 2 ^ 32
  pub small : length code ≤ offset_sj

pub IsCode-InReach :
    (code : List ℕ) (p d : ℕ) → IsCode code → p < length code → d < length code + 1 → InReach p d
IsCode-InReach code p d c hp hd = let s = c.small in (omega arith, omega arith)

-- Writing a jump keeps the code well formed.
pub IsCode-set :
    (code : List ℕ) (p d : ℕ)
    → IsCode code
    → p < length code
    → InReach p d
    → IsCode (set code p (jump_word p d (word code p)))
IsCode-set code p d c hp reach = record {
  words = λ j hj. elim (ℕ_discrete p j) [
    | yes e ↦ rw (← e, get_or-set_self code p _ 0 hp) (jump_word-lt p d (word code p) reach)
    | no ne ↦ rw (get_or-set_ne code p j _ 0 ne) (c.words j (rw length-set at hj))
  ];
  small = rw length-set c.small;
}

last-lt :
    (code : List ℕ) (h : ℤ) (p : ℕ) (l : List ℕ) → Chain code h (p ∷ l) → last p l < length code
last-lt code h p [] c = c.1
last-lt code h p (x ∷ l) c = last-lt code (jump_target (pos p) (word code p)) x l c.2

NotIn-last : (q p : ℕ) (l : List ℕ) → NotIn q (p ∷ l) → q ≢ last p l
NotIn-last q p [] h = h.0
NotIn-last q p (x ∷ l) h = NotIn-last q x l h.1

-- The last of the first list is none of the second.
last_apart : (p : ℕ) (l m : List ℕ) → Distinct ((p ∷ l) ++ m) → NotIn (last p l) m
last_apart p [] m d = d.0
last_apart p (x ∷ l) m d = last_apart x l m d.1

Chain-append :
    (code : List ℕ) (h : ℤ) (p : ℕ) (l : List ℕ) (q : ℕ) (m : List ℕ)
    → let e = last p l in
      let w = jump_word e q (word code e) in
      InReach e q
      → Chain code h (p ∷ l)
      → Distinct ((p ∷ l) ++ (q ∷ m))
      → Chain (set code e w) (pos q) (q ∷ m)
      → Chain (set code e w) h ((p ∷ l) ++ (q ∷ m))
Chain-append code h p [] q m reach c d rest = (
  c.0,
  rw length-set c.1,
  rw (get_or-set_self code p _ 0 c.1, jump_target-jump_word p q (word code p) reach d.0.0) rest,
)
Chain-append code h p (x ∷ l) q m reach c d rest =
    let apart = NotIn-last p x l (NotIn-append p (x ∷ l) (q ∷ m) d.0).0 in
    (
      c.0,
      rw length-set c.1,
      rw (get_or-set_ne code (last x l) p _ 0 (λ e. apart (sym e)))
          (Chain-append code (jump_target (pos p) (word code p)) x l q m reach c.2 d.1 rest),
    )

-- What joining leaves: the list of all the jumps, the other words, and every opcode.
pub record IsJoined (code : List ℕ) (p : ℕ) (l : List ℕ) (q : ℕ) (m : List ℕ) (code' : List ℕ)
    : Type 0 where
  pub chain : Chain code' (pos p) ((p ∷ l) ++ (q ∷ m))
  pub valid : IsCode code'
  pub same_length : length code' ≡ length code
  pub others : (j : ℕ) → j ≢ last p l → word code' j ≡ word code j
  pub opcodes : (j : ℕ) → j < length code → get_opcode (word code' j) ≡ get_opcode (word code j)

-- Joining two disjoint, nonempty lists of jumps succeeds, keeps the head, and leaves the list of the
-- first one's jumps followed by the second one's; it writes one word, and no opcode changes.
pub concat-IsJoined :
    (code : List ℕ) (p : ℕ) (l : List ℕ) (q : ℕ) (m : List ℕ)
    → IsCode code
    → Chain code (pos p) (p ∷ l)
    → Chain code (pos q) (q ∷ m)
    → Distinct ((p ∷ l) ++ (q ∷ m))
    → (code' : List ℕ) × (concat code (pos p) (pos q) ≡ ok (code', pos p))
      × IsJoined code p l q m code'
unfolding concat
concat-IsJoined code p l q m valid c c' d =
    let e = last p l in
    let he : e < length code = last-lt code (pos p) p l c in
    let reach : InReach e q = IsCode-InReach code e q valid he (omega (arith, c'.1)) in
    let short : length (p ∷ l) ≤ length code =
      length-le_of_Distinct (length code) (p ∷ l) (Distinct-append (p ∷ l) (q ∷ m) d).0
        (Chain-AllLt code (pos p) (p ∷ l) c) in
    (
      set code e (jump_word e q (word code e)),
      rw
          (
            last_jump_lem (length code + 1) code p l (omega arith) c,
            fixjump_lem code e q he (valid.words e he) reach,
          )
          refl,
      record {
        chain =
            Chain-append code (pos p) p l q m reach c d
              (Chain-set code e _ (pos q) (q ∷ m) (last_apart p l (q ∷ m) d) c');
        valid = IsCode-set code e q valid he reach;
        same_length = length-set code e _;
        others = λ j ne. get_or-set_ne code e j _ 0 (λ h. ne (sym h));
        opcodes = λ j hj. elim (ℕ_discrete e j) [
          | yes h ↦
              rw (← h, get_or-set_self code e _ 0 he) (opcode-jump_word e q (word code e) reach)
          | no ne ↦ rw (get_or-set_ne code e j _ 0 ne) refl
        ];
      },
    )
