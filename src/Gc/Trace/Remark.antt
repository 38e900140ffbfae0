-- ===== src/Gc/Trace/Remark.antt =====
-- `remark_upvalues` marks nothing but what is wanted (src/gc/mod.rs).
use mathlib.Core.Path.{subst}
use tsuki.Base.{
  ℕ, zero, suc, ◌<◌, ◌≡◌, ◌≢◌, refl, inl, inr, arith, false, not, ◌&&◌, Option, List, [], ◌∷◌, ◌++◌,
  length, Bool-cases, ltb,
}
use tsuki.Gc.Trace.{
  Ref, Shape, leaf, upvalue, userdata, table, lua_fn, rust_fn, proto, thread, Heap, shape_at,
  Marking, ◌>>=◌, white_at, mark_ref,
}
use tsuki.Gc.Trace.Step.{Refs, children, IsRanked, IsClosed, Yields, Yields-bind, Yields-map}
use tsuki.Gc.Trace.Marks.{Pays, Pays-kept, Done, Done-refl, Done-trans}
use tsuki.Gc.Trace.Gray.{marker, ref_Done, same_Done}
use tsuki.Gc.Trace.Cycle.{remark_values, remark_loop, remark_upvalues, open_upvalues, upvalue_value}

pub shape-lt : (xs : Heap) (o : ℕ) → shape_at xs o ≢ leaf → o < length xs
shape-lt [] o l = absurd (l refl)
shape-lt (x ∷ xs) zero l = omega arith
shape-lt (x ∷ xs) (suc o) l = omega (arith, shape-lt xs o l)

module _ (h : Heap) (R : ℕ → Type 0) (ranked : IsRanked h) (closed : IsClosed h R) where
  abbrev Wanted : Marking → Type 0
  Wanted s = (x : ℕ) → x < length h → white_at s x ≡ false → R x

  Wanted-kept : (s t : Marking) (rs : List Ref) → Done h R 3 rs s t → Wanted s → Wanted t
  Wanted-kept s t rs (grown, _, _) w x lt g = elim (Bool-cases (white_at s x)) [
    | inl e ↦ grown.reached x e g
    | inr e ↦ w x lt e
  ]

  value_wanted :
      (uv : ℕ) (sh : Shape)
      → shape_at h uv ≡ sh
      → (uv < length h → R uv)
      → Refs R (upvalue_value sh ∷ [])
  value_wanted uv (upvalue is_open value) e r =
      subst (λ s. Refs R (children s)) e (closed uv (r (shape-lt h uv (λ l. cc))))
  value_wanted uv leaf e r = tt
  value_wanted uv (userdata _ _ _) e r = tt
  value_wanted uv (table _ _ _) e r = tt
  value_wanted uv (lua_fn _ _) e r = tt
  value_wanted uv (rust_fn _) e r = tt
  value_wanted uv (proto _ _ _ _) e r = tt
  value_wanted uv (thread _ _) e r = tt

  forget : (rs : List Ref) (s t : Marking) → Done h R 3 rs s t → Done h R 3 [] s t
  forget rs s t (grown, settles, _) = (grown, settles, tt)

  -- Two parts in turn, what they mark not counted.
  then_Done :
      (s : Marking) (o : Option Marking) (f : Marking → Option Marking)
      → Wanted s
      → Pays s
      → Yields (Done h R 3 [] s) o
      → ((t : Marking) → Wanted t → Pays t → Yields (Done h R 3 [] t) (f t))
      → Yields (Done h R 3 [] s) (o >>= f)
  then_Done s o f w p d k = Yields-bind (Done h R 3 [] s) (Done h R 3 [] s) o f d (λ t q.
      Yields-map (Done h R 3 [] t) (Done h R 3 [] s) (f t)
        (k t (Wanted-kept s t [] q w) (Pays-kept h R 3 s t q.0 p))
        (λ u. Done-trans h R 3 [] [] s t u q))

  values_Done :
      (uvs : List ℕ) (s : Marking)
      → Wanted s
      → Pays s
      → Yields (Done h R 3 [] s) (remark_values h uvs s)
  unfolding remark_values
  values_Done [] s w p = Done-refl h R 3 s
  values_Done (uv ∷ uvs) s w p = elim (Bool-cases (white_at s uv)) [
    | inl e ↦ rw (e, remark_values) (values_Done uvs s w p)
    | inr e ↦
        let value = upvalue_value (shape_at h uv) in
        rw (e, remark_values)
          (then_Done s (mark_ref (marker h) value s) (remark_values h uvs) w p
            (Yields-map (Done h R 3 (value ∷ []) s) (Done h R 3 [] s) (mark_ref (marker h) value s)
              (ref_Done h R ranked closed value s
                (value_wanted uv (shape_at h uv) refl (λ lt. w uv lt e)) p)
              (forget (value ∷ []) s))
            (values_Done uvs))
  ]

  loop_Done :
      (kept ths : List ℕ) (s : Marking)
      → Wanted s
      → Pays s
      → Yields (Done h R 3 [] s) (remark_loop h kept ths s)
  unfolding remark_loop
  loop_Done kept [] s w p = same_Done h R ranked closed [] s s kept (Done-refl h R 3 s)
  loop_Done kept (th ∷ ths) s w p =
      elim (Bool-cases (not (white_at s th) && ltb 0 (length (open_upvalues (shape_at h th))))) [
        | inl e ↦ rw (e, remark_loop) (loop_Done (kept ++ th ∷ []) ths s w p)
        | inr e ↦
            let uvs = open_upvalues (shape_at h th) in
            rw (e, remark_loop)
              (then_Done s (remark_values h uvs s) (remark_loop h kept ths) w p
                (values_Done uvs s w p) (loop_Done kept ths))
      ]

  pub remark_Done :
      (s : Marking) → Wanted s → Pays s → Yields (Done h R 3 [] s) (remark_upvalues h s)
  unfolding remark_upvalues
  remark_Done s = loop_Done [] s.twups s
