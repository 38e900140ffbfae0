-- ===== src/Gc/Trace/Shapes.antt =====
-- `mark` for each type of object (src/gc/mod.rs).
use mathlib.Core.Path.{subst}
use tsuki.Base.{
  ℕ, zero, suc, ◌≤◌, ◌<◌, ◌≡◌, refl, sym, ap, ◌∙◌, inl, inr, arith, Bool, true, false, Option, [],
  ◌∷◌, if◌then◌else◌, Bool-cases,
}
use tsuki.Gc.Mark.{is_white, set_gray, blacken}
use tsuki.Gc.Trace.{
  Ref, Shape, leaf, upvalue, userdata, table, lua_fn, rust_fn, proto, thread, Heap, shape_at,
  Marking, ◌>>=◌, white_at, mark_at, recolour_at, pay, link_gray, mark_ref, mark_shape, mark,
}
use tsuki.Gc.Trace.Bytes.{is_white-set_gray, is_white-blacken}
use tsuki.Gc.Trace.Step.{
  Refs, Refs-map, append-Refs, children, inner, IsRanked, IsClosed, rank, rank_at, IsLinked, Yields,
  Yields-bind, Yields-map, Settled, Grown, Grown-trans, Grown-mono, Settles-trans,
}
use tsuki.Gc.Trace.Marks.{
  Pays, Pays-kept, one_owed, pay_eq, changed, changed_self, only_changed, kept_gray, changed-Grown,
  Marked, Done, Marks, Done-bind, mark_ref_lem,
}

is_white-upvalue :
    (is_open : Bool) (m : ℕ) → is_white ((if is_open then set_gray else blacken) m) ≡ false
is_white-upvalue true m = is_white-set_gray m
is_white-upvalue false m = is_white-blacken m

module _ (h : Heap) (R : ℕ → Type 0) (a : ℕ) (s : Marking) (w : white_at s a ≡ true) (p : Pays s)
    (r : R a) where
  Settled-children :
      (t : Marking) (sh : Shape) (x : ℕ)
      → x ≡ a
      → shape_at h a ≡ sh
      → Refs (λ c. white_at t c ≡ false) (children sh)
      → Settled h R t x
  Settled-children t sh x same e g =
      subst (λ z. Refs (λ c. white_at t c ≡ false) (children z)) (sym (ap (shape_at h) same ∙ e)) g

  -- An object that is paid for.
  paid-Grown :
      (t : Marking) (v d : ℕ)
      → white_at t a ≡ true
      → is_white v ≡ false
      → t.debt ≡ suc d
      → Grown h R (suc (rank_at h a)) t (changed t a v t.gray d)
  paid-Grown t v d wt e owed =
      changed-Grown h R t a v t.gray d wt e r (omega (arith, owed)) (omega arith) (omega arith)
        (λ x i. i) (λ l x i. ((l x i).0, kept_gray t a v t.gray d wt e x (l x i).1))

  leaf_Marked : shape_at h a ≡ leaf → Yields (Marked h R a s) (pay (recolour_at s a blacken))
  leaf_Marked e =
      let (d, owed) = one_owed s a w p in
      let v = blacken (mark_at s a) in
      let gray = is_white-blacken (mark_at s a) in
      subst (Yields (Marked h R a s)) (sym (pay_eq (recolour_at s a blacken) d owed)) (
        paid-Grown s v d w gray owed,
        λ x wx gx. inr (
            Settled-children (changed s a v s.gray d) leaf x
              (only_changed s a v s.gray d w gray x wx gx) e tt),
        changed_self s a v s.gray d w gray,
      )

  linked_Marked : IsLinked (shape_at h a) → Marked h R a s (link_gray a s)
  unfolding link_gray
  linked_Marked l =
      let v = set_gray (mark_at s a) in
      let gray = is_white-set_gray (mark_at s a) in
      let t = link_gray a s in
      let joined : (x : ℕ) → x ≡ a → white_at t x ≡ false = λ x same.
        subst (λ y. white_at t y ≡ false) (sym same)
          (changed_self s a v (a ∷ s.gray) s.debt w gray) in
      (
        changed-Grown h R s a v (a ∷ s.gray) s.debt w gray r (omega arith) (omega arith)
            (omega arith) (λ x i. inr i)
            (λ ls x i. elim i [
              | inl same ↦ (subst (λ y. IsLinked (shape_at h y)) (sym same) l, joined x same)
              | inr j ↦ ((ls x j).0, kept_gray s a v (a ∷ s.gray) s.debt w gray x (ls x j).1)
            ]),
        λ x wx gx. inl (inl (only_changed s a v (a ∷ s.gray) s.debt w gray x wx gx)),
        changed_self s a v (a ∷ s.gray) s.debt w gray,
      )

  module _ (n : ℕ) (mk : ℕ → Marking → Option Marking) (spec : Marks h R n mk) where
    upvalue_Marked :
        (is_open : Bool) (value : Ref)
        → shape_at h a ≡ upvalue is_open value
        → 2 ≤ n
        → Refs (λ c. rank_at h c < 2) (value ∷ [])
        → Refs R (value ∷ [])
        → Yields (Marked h R a s) (mark_shape mk a (upvalue is_open value) s)
    unfolding mark_shape
    upvalue_Marked is_open value e low ranks rs =
        let (d, owed) = one_owed s a w p in
        let v = (if is_open then set_gray else blacken) (mark_at s a) in
        let gray = is_white-upvalue is_open (mark_at s a) in
        let t = changed s a v s.gray d in
        let first = paid-Grown s v d w gray owed in
        let self = changed_self s a v s.gray d w gray in
        let rank_is : rank_at h a ≡ 2 = ap rank e in
        subst (λ o. Yields (Marked h R a s) (o >>= mark_ref mk value))
          (sym (pay_eq (recolour_at s a (if is_open then set_gray else blacken)) d owed))
          (Yields-map (Done h R 2 (value ∷ []) t) (Marked h R a s) (mark_ref mk value t)
            (mark_ref_lem h R n mk spec 2 value t
              (Refs-map (λ c. rank_at h c < 2) (λ c. rank_at h c < n) (value ∷ [])
                (λ c lt. omega arith) ranks)
              ranks rs (Pays-kept h R (suc (rank_at h a)) s t first p))
            (λ u q. (
              Grown-trans h R (suc (rank_at h a)) s t u first
                  (Grown-mono h R 2 (suc (rank_at h a)) t u (omega arith) q.0),
              λ x wx gx. elim (Bool-cases (white_at t x)) [
                | inl wt ↦ q.1 x wt gx
                | inr gt ↦ inr (
                    Settled-children u (upvalue is_open value) x
                      (only_changed s a v s.gray d w gray x wx gt) e q.2)
              ],
              q.0.kept a self,
            )))

    -- One of the references of a userdata.
    held_Done :
        (ref : Ref) (t : Marking)
        → 1 ≤ n
        → Refs (λ c. rank_at h c < 1) (ref ∷ [])
        → Refs R (ref ∷ [])
        → Pays t
        → Yields (Done h R 1 (ref ∷ []) t) (mark_ref mk ref t)
    held_Done ref t low ranks rs pt =
        mark_ref_lem h R n mk spec 1 ref t
          (Refs-map (λ c. rank_at h c < 1) (λ c. rank_at h c < n) (ref ∷ []) (λ c lt. omega arith)
            ranks)
          ranks rs pt

    -- The userdata itself, once its references are marked.
    last_Marked :
        (props mt uv : Ref) (t : Marking)
        → shape_at h a ≡ userdata props mt uv
        → Done h R 1 (props ∷ mt ∷ uv ∷ []) s t
        → Yields (Marked h R a s) (pay (recolour_at t a blacken))
    last_Marked props mt uv t e q =
        let rank_is : rank_at h a ≡ 1 = ap rank e in
        let wt = q.0.high a (omega arith) ∙ w in
        let (d, owed) = one_owed t a wt (Pays-kept h R 1 s t q.0 p) in
        let v = blacken (mark_at t a) in
        let gray = is_white-blacken (mark_at t a) in
        let u = changed t a v t.gray d in
        let last = paid-Grown t v d wt gray owed in
        subst (Yields (Marked h R a s)) (sym (pay_eq (recolour_at t a blacken) d owed)) (
          Grown-trans h R (suc (rank_at h a)) s t u
              (Grown-mono h R 1 (suc (rank_at h a)) s t (omega arith) q.0) last,
          Settles-trans h R (suc (rank_at h a)) s t u last q.1 (λ x wx gx. inr (
              Settled-children u (userdata props mt uv) x
                (only_changed t a v t.gray d wt gray x wx gx) e
                (Refs-map (λ c. white_at t c ≡ false) (λ c. white_at u c ≡ false)
                  (props ∷ mt ∷ uv ∷ []) last.kept q.2))),
          changed_self t a v t.gray d wt gray,
        )

    userdata_Marked :
        (props mt uv : Ref)
        → shape_at h a ≡ userdata props mt uv
        → 1 ≤ n
        → Refs (λ c. rank_at h c < 1) (props ∷ mt ∷ uv ∷ [])
        → Refs R (props ∷ mt ∷ uv ∷ [])
        → Yields (Marked h R a s) (mark_shape mk a (userdata props mt uv) s)
    unfolding mark_shape
    userdata_Marked props mt uv e low ranks rs =
        let (k0, k12) = append-Refs (λ c. rank_at h c < 1) (props ∷ []) (mt ∷ uv ∷ []) ranks in
        let (k1, k2) = append-Refs (λ c. rank_at h c < 1) (mt ∷ []) (uv ∷ []) k12 in
        let (r0, r12) = append-Refs R (props ∷ []) (mt ∷ uv ∷ []) rs in
        let (r1, r2) = append-Refs R (mt ∷ []) (uv ∷ []) r12 in
        let two =
          Done-bind h R 1 (props ∷ []) (mt ∷ []) s (mark_ref mk props s) (mark_ref mk mt) p
            (held_Done props s low k0 r0 p) (λ t pt. held_Done mt t low k1 r1 pt) in
        let three =
          Done-bind h R 1 (props ∷ mt ∷ []) (uv ∷ []) s (mark_ref mk props s >>= mark_ref mk mt)
            (mark_ref mk uv) p two (λ t pt. held_Done uv t low k2 r2 pt) in
        Yields-bind (Done h R 1 (props ∷ mt ∷ uv ∷ []) s) (Marked h R a s)
          (mark_ref mk props s >>= mark_ref mk mt >>= mark_ref mk uv)
          (λ t. pay (recolour_at t a blacken)) three (λ t q. last_Marked props mt uv t e q)

    -- Every type of object, by its rank.
    shape_Marked :
        (sh : Shape)
        → shape_at h a ≡ sh
        → rank sh ≤ n
        → Refs (λ c. rank_at h c < rank sh) (inner sh)
        → Refs R (inner sh)
        → Yields (Marked h R a s) (mark_shape mk a sh s)
    unfolding mark_shape
    shape_Marked leaf e low ranks rs = leaf_Marked e
    shape_Marked (upvalue is_open value) e low ranks rs =
        upvalue_Marked is_open value e low ranks rs
    shape_Marked (userdata props mt uv) e low ranks rs = userdata_Marked props mt uv e low ranks rs
    shape_Marked (table mt array nodes) e low ranks rs = linked_Marked (subst IsLinked (sym e) tt)
    shape_Marked (lua_fn f upvals) e low ranks rs = linked_Marked (subst IsLinked (sym e) tt)
    shape_Marked (rust_fn upvals) e low ranks rs = linked_Marked (subst IsLinked (sym e) tt)
    shape_Marked (proto k upvalues ps locvars) e low ranks rs =
        linked_Marked (subst IsLinked (sym e) tt)
    shape_Marked (thread stack uvs) e low ranks rs = linked_Marked (subst IsLinked (sym e) tt)

inner-children : (P : ℕ → Type 0) (sh : Shape) → Refs P (children sh) → Refs P (inner sh)
inner-children P leaf g = tt
inner-children P (upvalue is_open value) g = g
inner-children P (userdata props mt uv) g = g
inner-children P (table mt array nodes) g = tt
inner-children P (lua_fn f upvals) g = tt
inner-children P (rust_fn upvals) g = tt
inner-children P (proto k upvalues ps locvars) g = tt
inner-children P (thread stack uvs) g = tt

-- `mark` on objects of a rank below its fuel.
pub mark_lem :
    (h : Heap) (R : ℕ → Type 0) → IsRanked h → IsClosed h R → (n : ℕ) → Marks h R n (mark h n)
unfolding mark
mark_lem h R ranked closed zero a s lt w p r = absurd (omega (arith, lt))
mark_lem h R ranked closed (suc n) a s lt w p r =
    shape_Marked h R a s w p r n (mark h n) (mark_lem h R ranked closed n) (shape_at h a) refl
      (omega (arith, lt)) (ranked a) (inner-children R (shape_at h a) (closed a r))

pub rank_lt : (sh : Shape) → rank sh < 3
rank_lt leaf = omega arith
rank_lt (upvalue is_open value) = omega arith
rank_lt (userdata props mt uv) = omega arith
rank_lt (table mt array nodes) = omega arith
rank_lt (lua_fn f upvals) = omega arith
rank_lt (rust_fn upvals) = omega arith
rank_lt (proto k upvalues ps locvars) = omega arith
rank_lt (thread stack uvs) = omega arith
