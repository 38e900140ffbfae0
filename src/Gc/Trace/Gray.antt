-- ===== src/Gc/Trace/Gray.antt =====
-- `mark_one_gray` takes one object off the gray list and settles it, or puts a thread off to the end
-- of the marking (src/gc/mod.rs).
use tsuki.Base.{
  ℕ, ◌<◌, ◌≡◌, refl, ◌⊎◌, inl, inr, arith, Bool, true, false, Option, none, some, List, [], ◌∷◌,
  ◌++◌, map, length, ◌==◌, Bool-cases, not, ◌&&◌, ltb,
}
use tsuki.Gc.Trace.{
  Ref, Shape, leaf, upvalue, userdata, table, lua_fn, rust_fn, proto, thread, Node, Heap, shape_at,
  Marking, ◌>>=◌, link_grayagain, mark_ref, mark, mark_each, mark_nodes, mark_table,
  mark_strong_table, mark_lf, mark_rf, mark_proto, mark_thread, enter_twups, is_member, traverse,
}
use tsuki.Gc.Trace.Step.{
  Refs, children, held_by, node_refs, append-Refs, IsRanked, IsClosed, rank_at, IsLinked, Yields,
  Yields-bind,
}
use tsuki.Gc.Trace.Marks.{Pays, Done, Done-refl, Done-bind, mark_ref_lem, mark_each_lem}
use tsuki.Gc.Trace.Shapes.{mark_lem, rank_lt}
use tsuki.Gc.Trace.Cycle.{depth}

all_Refs : (P : ℕ → Type 0) (rs : List Ref) → ((a : ℕ) → P a) → Refs P rs
all_Refs P [] f = tt
all_Refs P (none ∷ rs) f = all_Refs P rs f
all_Refs P (some a ∷ rs) f = (f a, all_Refs P rs f)

abbrev pub marker : Heap → ℕ → Marking → Option Marking
marker h = mark h depth

-- A thread that is put off.
abbrev pub PutOff : Marking → Shape → Type 0
PutOff s (thread _ _) = s.state ≡ 0
PutOff s _ = ⊥

module _ (h : Heap) (R : ℕ → Type 0) (ranked : IsRanked h) (closed : IsClosed h R) where
  abbrev mk : ℕ → Marking → Option Marking
  mk = marker h

  low : (rs : List Ref) → Refs (λ c. rank_at h c < 3) rs
  low rs = all_Refs (λ c. rank_at h c < 3) rs (λ c. rank_lt (shape_at h c))

  pub ref_Done :
      (r : Ref) (s : Marking)
      → Refs R (r ∷ [])
      → Pays s
      → Yields (Done h R 3 (r ∷ []) s) (mark_ref mk r s)
  ref_Done r s rs p =
      mark_ref_lem h R 3 mk (mark_lem h R ranked closed 3) 3 r s (low (r ∷ [])) (low (r ∷ [])) rs p

  pub each_Done :
      (rs : List Ref) (s : Marking)
      → Refs R rs
      → Pays s
      → Yields (Done h R 3 rs s) (mark_each mk rs s)
  each_Done rs s r p =
      mark_each_lem h R 3 mk (mark_lem h R ranked closed 3) 3 rs s (low rs) (low rs) r p

  -- Two parts in turn.
  pub both_Done :
      (rs qs : List Ref) (s : Marking) (o : Option Marking) (f : Marking → Option Marking)
      → Pays s
      → Yields (Done h R 3 rs s) o
      → ((t : Marking) → Pays t → Yields (Done h R 3 qs t) (f t))
      → Yields (Done h R 3 (rs ++ qs) s) (o >>= f)
  both_Done = Done-bind h R 3

  node_Done :
      (empty : Bool) (key value : Ref) (s : Marking)
      → Refs R (held_by empty key value)
      → Pays s
      → Yields
          (Done h R 3 (held_by empty key value) s)
          (elim empty [ true ↦ some s | false ↦ mark_ref mk key s >>= mark_ref mk value ])
  node_Done true key value s r p = Done-refl h R 3 s
  node_Done false key value s r p =
      let (r0, r1) = append-Refs R (key ∷ []) (value ∷ []) r in
      both_Done (key ∷ []) (value ∷ []) s (mark_ref mk key s) (mark_ref mk value) p
        (ref_Done key s r0 p) (λ t. ref_Done value t r1)

  nodes_Done :
      (ns : List Node) (s : Marking)
      → Refs R (node_refs ns)
      → Pays s
      → Yields (Done h R 3 (node_refs ns) s) (mark_nodes mk ns s)
  unfolding mark_nodes
  nodes_Done [] s r p = Done-refl h R 3 s
  nodes_Done (n ∷ ns) s r p =
      let held = held_by n.empty n.key n.value in
      let (r0, r1) = append-Refs R held (node_refs ns) r in
      both_Done held (node_refs ns) s
        (elim n.empty [ true ↦ some s | false ↦ mark_ref mk n.key s >>= mark_ref mk n.value ])
        (mark_nodes mk ns) p (node_Done n.empty n.key n.value s r0 p) (λ t. nodes_Done ns t r1)

  lists_Done :
      (rs qs : List Ref) (s : Marking)
      → Refs R (rs ++ qs)
      → Pays s
      → Yields (Done h R 3 (rs ++ qs) s) (mark_each mk rs s >>= mark_each mk qs)
  lists_Done rs qs s r p =
      let (r0, r1) = append-Refs R rs qs r in
      both_Done rs qs s (mark_each mk rs s) (mark_each mk qs) p (each_Done rs s r0 p)
        (λ t. each_Done qs t r1)

  table_Done :
      (mt : Ref) (array : List Ref) (nodes : List Node) (s : Marking)
      → Refs R (children (table mt array nodes))
      → Pays s
      → Yields (Done h R 3 (children (table mt array nodes)) s) (mark_table mk mt array nodes s)
  unfolding mark_table mark_strong_table
  table_Done mt array nodes s r p =
      let (r0, r1) = append-Refs R (mt ∷ []) (array ++ node_refs nodes) r in
      let (r2, r3) = append-Refs R array (node_refs nodes) r1 in
      both_Done (mt ∷ []) (array ++ node_refs nodes) s (mark_ref mk mt s)
        (mark_strong_table mk array nodes) p (ref_Done mt s r0 p)
        (λ t pt.
          both_Done array (node_refs nodes) t (mark_each mk array t) (mark_nodes mk nodes) pt
            (each_Done array t r2 pt) (λ u. nodes_Done nodes u r3))

  lf_Done :
      (f : Ref) (upvals : List Ref) (s : Marking)
      → Refs R (children (lua_fn f upvals))
      → Pays s
      → Yields (Done h R 3 (children (lua_fn f upvals)) s) (mark_lf mk f upvals s)
  unfolding mark_lf
  lf_Done f upvals s r p =
      let (r0, r1) = append-Refs R (f ∷ []) upvals r in
      both_Done (f ∷ []) upvals s (mark_ref mk f s) (mark_each mk upvals) p (ref_Done f s r0 p)
        (λ t. each_Done upvals t r1)

  proto_Done :
      (k upvalues ps locvars : List Ref) (s : Marking)
      → Refs R (children (proto k upvalues ps locvars))
      → Pays s
      → Yields
          (Done h R 3 (children (proto k upvalues ps locvars)) s)
          (mark_proto mk k upvalues ps locvars s)
  unfolding mark_proto
  proto_Done k upvalues ps locvars s r p =
      let (r0, rl) = append-Refs R ((k ++ upvalues) ++ ps) locvars r in
      let (r1, rp) = append-Refs R (k ++ upvalues) ps r0 in
      both_Done ((k ++ upvalues) ++ ps) locvars s
        (mark_each mk k s >>= mark_each mk upvalues >>= mark_each mk ps) (mark_each mk locvars) p
        (both_Done (k ++ upvalues) ps s (mark_each mk k s >>= mark_each mk upvalues)
          (mark_each mk ps) p (lists_Done k upvalues s r1 p) (λ t. each_Done ps t rp))
        (λ t. each_Done locvars t rl)

  -- A field that the marking does not read.
  pub same_Done :
      (rs : List Ref) (s t : Marking) (twups : List ℕ)
      → Done h R 3 rs s t
      → Done h R 3 rs s (record t { twups = twups })
  same_Done rs s t twups (grown, settles, marked) = (
    record {
      state = grown.state;
      again = grown.again;
      refs = grown.refs;
      size = grown.size;
      balance = grown.balance;
      fewer = grown.fewer;
      longer = grown.longer;
      stays = grown.stays;
      waits = grown.waits;
      kept = grown.kept;
      pure = grown.pure;
      reached = grown.reached;
      high = grown.high;
    },
    settles,
    marked,
  )

  enter_Done :
      (rs : List Ref) (s t : Marking) (a : ℕ) (uvs : List ℕ)
      → Done h R 3 rs s t
      → Done h R 3 rs s (enter_twups a uvs t)
  unfolding enter_twups
  enter_Done rs s t a uvs q = elim (Bool-cases (not (is_member a t.twups) && ltb 0 (length uvs))) [
    | inl e ↦ rw (e) (same_Done rs s t (a ∷ t.twups) q)
    | inr e ↦ rw (e) q
  ]

  thread_Done :
      (a : ℕ) (stack : List Ref) (uvs : List ℕ) (s : Marking)
      → (s.state == 0) ≡ false
      → Refs R (children (thread stack uvs))
      → Pays s
      → Yields (Done h R 3 (children (thread stack uvs)) s) (mark_thread mk a stack uvs s)
  unfolding mark_thread
  thread_Done a stack uvs s e r p =
      rw (e, mark_thread)
        (Yields-bind (Done h R 3 (stack ++ map some uvs) s) (Done h R 3 (stack ++ map some uvs) s)
          (mark_each mk stack s >>= mark_each mk (map some uvs)) (λ t. some (enter_twups a uvs t))
          (lists_Done stack (map some uvs) s r p)
          (λ t. enter_Done (stack ++ map some uvs) s t a uvs))

  pub traverse-Done :
      (a : ℕ) (sh : Shape) (s : Marking)
      → IsLinked sh
      → Refs R (children sh)
      → Pays s
      → (PutOff s sh × (traverse mk a sh s ≡ some (link_grayagain a s)))
        ⊎ Yields (Done h R 3 (children sh) s) (traverse mk a sh s)
  unfolding traverse mark_rf
  traverse-Done a leaf s l r p = absurd l
  traverse-Done a (upvalue is_open value) s l r p = absurd l
  traverse-Done a (userdata props mt uv) s l r p = absurd l
  traverse-Done a (table mt array nodes) s l r p = inr (table_Done mt array nodes s r p)
  traverse-Done a (lua_fn f upvals) s l r p = inr (lf_Done f upvals s r p)
  traverse-Done a (rust_fn upvals) s l r p = inr (each_Done upvals s r p)
  traverse-Done a (proto k upvalues ps locvars) s l r p =
      inr (proto_Done k upvalues ps locvars s r p)
  traverse-Done a (thread stack uvs) s l r p = elim (Bool-cases (s.state == 0)) [
    | inl e ↦ inl (ground arith, rw (e, mark_thread) refl)
    | inr e ↦ inr (thread_Done a stack uvs s e r p)
  ]
