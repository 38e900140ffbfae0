-- ===== src/Gc/Trace/Step.antt =====
-- What a call of `mark` does to the state: it turns white objects gray or black, pays for what it
-- blackens, and owes what it turned gray (src/gc/mod.rs).
use tsuki.Base.{
  ℕ, ◌+◌, ◌≤◌, ◌<◌, ◌≡◌, refl, sym, ◌∙◌, ◌⊎◌, inl, inr, arith, Bool, true, false, Option, none,
  some, List, [], ◌∷◌, ◌++◌, map, length, Bool-cases,
}
use tsuki.Gc.Trace.{
  Ref, Shape, leaf, upvalue, userdata, table, lua_fn, rust_fn, proto, thread, Node, Heap, shape_at,
  Marking, ◌>>=◌, white_at, mark_at,
}
use tsuki.Gc.Trace.Bytes.{whites_in}

abbrev pub In : ℕ → List ℕ → Type 0
In a [] = ⊥
In a (x ∷ xs) = (a ≡ x) ⊎ In a xs

-- A property of every object that the references lead to.
abbrev pub Refs : (ℕ → Type 0) → List Ref → Type 0
Refs P [] = Unit
Refs P (none ∷ rs) = Refs P rs
Refs P (some a ∷ rs) = P a × Refs P rs

pub Refs-map : (P Q : ℕ → Type 0) (rs : List Ref) → ((a : ℕ) → P a → Q a) → Refs P rs → Refs Q rs
Refs-map P Q [] f h = tt
Refs-map P Q (none ∷ rs) f h = Refs-map P Q rs f h
Refs-map P Q (some a ∷ rs) f h = (f a h.0, Refs-map P Q rs f h.1)

pub Refs-append : (P : ℕ → Type 0) (rs qs : List Ref) → Refs P rs → Refs P qs → Refs P (rs ++ qs)
Refs-append P [] qs h g = g
Refs-append P (none ∷ rs) qs h g = Refs-append P rs qs h g
Refs-append P (some a ∷ rs) qs h g = (h.0, Refs-append P rs qs h.1 g)

pub append-Refs : (P : ℕ → Type 0) (rs qs : List Ref) → Refs P (rs ++ qs) → Refs P rs × Refs P qs
append-Refs P [] qs h = (tt, h)
append-Refs P (none ∷ rs) qs h = append-Refs P rs qs h
append-Refs P (some a ∷ rs) qs h = let rest = append-Refs P rs qs h.1 in ((h.0, rest.0), rest.1)

-- What an entry holds on to: nothing when its value is nil.
abbrev pub held_by : Bool → Ref → Ref → List Ref
held_by true key value = []
held_by false key value = key ∷ value ∷ []

abbrev pub node_refs : List Node → List Ref
node_refs [] = []
node_refs (n ∷ ns) = held_by n.empty n.key n.value ++ node_refs ns

-- The references of an object.
abbrev pub children : Shape → List Ref
children leaf = []
children (upvalue is_open value) = value ∷ []
children (userdata props mt uv) = props ∷ mt ∷ uv ∷ []
children (table metatable array nodes) = metatable ∷ array ++ node_refs nodes
children (lua_fn p upvals) = p ∷ upvals
children (rust_fn upvals) = upvals
children (proto k upvalues p locvars) = ((k ++ upvalues) ++ p) ++ locvars
children (thread stack openupval) = stack ++ map some openupval

-- How deep `mark` goes from an object of this type.
abbrev pub rank : Shape → ℕ
rank (upvalue _ _) = 2
rank (userdata _ _ _) = 1
rank _ = 0

abbrev pub rank_at : Heap → ℕ → ℕ
rank_at h a = rank (shape_at h a)

-- The objects that only `mark_one_gray` traverses.
abbrev pub IsLinked : Shape → Type 0
IsLinked leaf = ⊥
IsLinked (upvalue _ _) = ⊥
IsLinked (userdata _ _ _) = ⊥
IsLinked _ = Unit

-- What waits on a gray list is marked, and is of a type that is traversed.
abbrev pub Waits : Heap → Marking → List ℕ → Type 0
Waits h s xs = (x : ℕ) → In x xs → IsLinked (shape_at h x) × (white_at s x ≡ false)

abbrev pub whites_of : Marking → ℕ
whites_of s = whites_in s.marks

abbrev pub Yields : (Marking → Type 0) → Option Marking → Type 0
Yields P none = ⊥
Yields P (some s) = P s

pub Yields-bind :
    (P Q : Marking → Type 0) (o : Option Marking) (k : Marking → Option Marking)
    → Yields P o
    → ((s : Marking) → P s → Yields Q (k s))
    → Yields Q (o >>= k)
Yields-bind P Q none k h g = absurd h
Yields-bind P Q (some s) k h g = g s h

pub Yields-map :
    (P Q : Marking → Type 0) (o : Option Marking)
    → Yields P o
    → ((s : Marking) → P s → Q s)
    → Yields Q o
Yields-map P Q none h g = absurd h
Yields-map P Q (some s) h g = g s h

-- What `mark` recurses on.
abbrev pub inner : Shape → List Ref
inner (upvalue is_open value) = value ∷ []
inner (userdata props mt uv) = props ∷ mt ∷ uv ∷ []
inner _ = []

-- The value of an upvalue is no upvalue, and what a userdata holds is neither upvalue nor userdata.
abbrev pub IsRanked : Heap → Type 0
IsRanked h = (a : ℕ) → Refs (λ c. rank_at h c < rank_at h a) (inner (shape_at h a))

-- A set of objects that is closed under references.
abbrev pub IsClosed : Heap → (ℕ → Type 0) → Type 0
IsClosed h R = (a : ℕ) → R a → Refs R (children (shape_at h a))

-- What is white in the end was white before.
pub still_white :
    (s t : Marking)
    → ((x : ℕ) → white_at s x ≡ false → white_at t x ≡ false)
    → (x : ℕ) → white_at t x ≡ true
    → white_at s x ≡ true
still_white s t kept x w = elim (Bool-cases (white_at s x)) [
  | inl e ↦ e
  | inr e ↦ let gray = kept x e in absurd (true≢false (sym w ∙ gray))
]
  where
    true≢false : ¬ (true ≡ false)
    true≢false e = cc

module _ (h : Heap) (R : ℕ → Type 0) where
  abbrev pub Settled : Marking → ℕ → Type 0
  Settled t x = Refs (λ c. white_at t c ≡ false) (children (shape_at h x))

  -- Objects of rank `k` or more keep their colour.
  pub record Grown (k : ℕ) (s t : Marking) : Type 0 where
    pub state : t.state ≡ s.state
    pub again : t.grayagain ≡ s.grayagain
    pub refs : t.refs ≡ s.refs
    pub size : length t.marks ≡ length s.marks
    pub balance : t.debt + (whites_of s + length s.gray) ≡ s.debt + (whites_of t + length t.gray)
    pub fewer : whites_of t + length t.gray ≤ whites_of s + length s.gray
    pub longer : length s.gray ≤ length t.gray
    pub stays : (x : ℕ) → In x s.gray → In x t.gray
    pub waits : Waits h s s.gray → Waits h t t.gray
    pub kept : (x : ℕ) → white_at s x ≡ false → white_at t x ≡ false
    pub pure : (x : ℕ) → white_at t x ≡ true → mark_at t x ≡ mark_at s x
    pub reached : (x : ℕ) → white_at s x ≡ true → white_at t x ≡ false → R x
    pub high : (x : ℕ) → k ≤ rank_at h x → white_at t x ≡ white_at s x

  -- What became marked is on the gray list, or what it refers to is marked as well.
  abbrev pub Settles : Marking → Marking → Type 0
  Settles s t = (x : ℕ) → white_at s x ≡ true → white_at t x ≡ false → In x t.gray ⊎ Settled t x

  pub Grown-refl : (k : ℕ) (s : Marking) → Grown k s s
  Grown-refl k s = record {
    state = refl;
    again = refl;
    refs = refl;
    size = refl;
    balance = refl;
    fewer = omega arith;
    longer = omega arith;
    stays = λ x i. i;
    waits = λ l. l;
    kept = λ x w. w;
    pure = λ x w. refl;
    reached = λ x w g. cc;
    high = λ x l. refl;
  }

  pub Grown-trans : (k : ℕ) (s t u : Marking) → Grown k s t → Grown k t u → Grown k s u
  Grown-trans k s t u p q = record {
    state = q.state ∙ p.state;
    again = q.again ∙ p.again;
    refs = q.refs ∙ p.refs;
    size = q.size ∙ p.size;
    balance = omega (arith, p.balance, q.balance);
    fewer = omega (arith, p.fewer, q.fewer);
    longer = omega (arith, p.longer, q.longer);
    stays = λ x i. q.stays x (p.stays x i);
    waits = λ l. q.waits (p.waits l);
    kept = λ x w. q.kept x (p.kept x w);
    pure = λ x w. q.pure x w ∙ p.pure x (still_white t u q.kept x w);
    reached = λ x w g. elim (Bool-cases (white_at t x)) [
      | inl e ↦ q.reached x e g
      | inr e ↦ p.reached x w e
    ];
    high = λ x l. q.high x l ∙ p.high x l;
  }

  pub Grown-mono : (j k : ℕ) (s t : Marking) → j ≤ k → Grown j s t → Grown k s t
  Grown-mono j k s t le p = record {
    state = p.state;
    again = p.again;
    refs = p.refs;
    size = p.size;
    balance = p.balance;
    fewer = p.fewer;
    longer = p.longer;
    stays = p.stays;
    waits = p.waits;
    kept = p.kept;
    pure = p.pure;
    reached = p.reached;
    high = λ x l. p.high x (omega (arith, le, l));
  }

  pub Settled-kept : (k : ℕ) (t u : Marking) (x : ℕ) → Grown k t u → Settled t x → Settled u x
  Settled-kept k t u x q =
      Refs-map (λ c. white_at t c ≡ false) (λ c. white_at u c ≡ false) (children (shape_at h x))
        q.kept

  pub Settles-trans :
      (k : ℕ) (s t u : Marking) → Grown k t u → Settles s t → Settles t u → Settles s u
  Settles-trans k s t u q p r x w g = elim (Bool-cases (white_at t x)) [
    | inl e ↦ r x e g
    | inr e ↦ elim (p x w e) [ inl i ↦ inl (q.stays x i) | inr d ↦ inr (Settled-kept k t u x q d) ]
  ]
