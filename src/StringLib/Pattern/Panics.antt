-- ===== src/StringLib/Pattern/Panics.antt =====
-- Patterns for which the matcher indexes past the end of the text, or unwraps the length of a position
-- capture.
use tsuki.Base.{
  ℕ, suc, ◌-◌, ◌≡◌, refl, sym, ap, ◌∙◌, arith, false, none, some, List, [], ◌∷◌, ◌++◌, length,
  get_elem?, length-append, ◌==◌,
}
use tsuki.StringLib.Pattern.{ok, panic}
use tsuki.StringLib.Pattern.Class.{matchbracketclass, classend}
use tsuki.StringLib.Pattern.Captures.{Capture, match_capture}
use tsuki.StringLib.Pattern.Match.{match_0, matchbalance, frontier, at_frontier, start_capture}

get_elem?-end : (s : List ℕ) → get_elem? s (length s) ≡ none
get_elem?-end [] = refl
get_elem?-end (x ∷ xs) = get_elem?-end xs

get_elem?-last : (s : List ℕ) (c : ℕ) → get_elem? (s ++ c ∷ []) (length s) ≡ some c
get_elem?-last [] c = refl
get_elem?-last (x ∷ xs) c = get_elem?-last xs c

balance_panic :
    (src : List ℕ) (depth : ℕ) (caps : List Capture) (x : ℕ) (q : List ℕ)
    → match_0 src (suc depth) caps (length src) (b'%' ∷ b'b' ∷ x ∷ q) ≡ panic
unfolding match_0 matchbalance
balance_panic src depth caps x q = rw (get_elem?-end src) refl

reference_panic :
    (src : List ℕ) (depth off : ℕ) (q : List ℕ)
    → match_0 src (suc (suc depth)) [] off (b'(' ∷ b')' ∷ b'%' ∷ b'1' ∷ q) ≡ panic
unfolding match_0 start_capture match_capture
reference_panic src depth off q = refl

last_then :
    (src : List ℕ) (c : ℕ) (p : List ℕ) (ep : ℕ)
    → matchbracketclass c p (ep - 1) ≡ ok false
    → get_elem? (src ++ c ∷ []) (suc (length src)) ≡ none
    → at_frontier (src ++ c ∷ []) (suc (length src)) p ep ≡ panic
last_then src c p ep out here =
    let before : suc (length src) - 1 ≡ length src = omega arith in
    let start : (suc (length src) == 0) ≡ false = ground arith in
    rw (start, before, get_elem?-last src c, out, here) refl

past_end :
    (src : List ℕ) (c : ℕ) (p : List ℕ) (ep : ℕ)
    → matchbracketclass c p (ep - 1) ≡ ok false
    → at_frontier (src ++ c ∷ []) (length (src ++ c ∷ [])) p ep ≡ panic
past_end src c p ep out =
    let size : length (src ++ c ∷ []) ≡ suc (length src) =
      omega (arith, length-append src (c ∷ [])) in
    let here : get_elem? (src ++ c ∷ []) (suc (length src)) ≡ none =
      ap (λ i. get_elem? (src ++ c ∷ []) i) (sym size) ∙ get_elem?-end (src ++ c ∷ []) in
    ap (λ k. at_frontier (src ++ c ∷ []) k p ep) size ∙ last_then src c p ep out here

frontier_panic :
    (src : List ℕ) (c depth : ℕ) (caps : List Capture) (q : List ℕ) (ep : ℕ)
    → classend (b'[' ∷ q) ≡ ok ep
    → matchbracketclass c (b'[' ∷ q) (ep - 1) ≡ ok false
    → match_0 (src ++ c ∷ []) (suc depth) caps (length (src ++ c ∷ [])) (b'%' ∷ b'f' ∷ b'[' ∷ q)
      ≡ panic
unfolding match_0 frontier
frontier_panic src c depth caps q ep set out = rw (set, past_end src c (b'[' ∷ q) ep out) refl

-- Three ways to stop with a panic, whatever the depth and the rest of the pattern: the end of the text
-- at a balance item; the end of the text at a frontier whose set lacks the last byte; a back
-- reference to a position capture.
pub match_0_panics :
    (src : List ℕ) (c depth : ℕ) (caps : List Capture) (x ep off : ℕ) (q : List ℕ)
    → classend (b'[' ∷ q) ≡ ok ep
    → matchbracketclass c (b'[' ∷ q) (ep - 1) ≡ ok false
    → (match_0 src (suc depth) caps (length src) (b'%' ∷ b'b' ∷ x ∷ q) ≡ panic)
      × (match_0 (src ++ c ∷ []) (suc depth) caps (length (src ++ c ∷ [])) (b'%' ∷ b'f' ∷ b'[' ∷ q)
          ≡ panic)
      × (match_0 src (suc (suc depth)) [] off (b'(' ∷ b')' ∷ b'%' ∷ b'1' ∷ q) ≡ panic)
match_0_panics src c depth caps x ep off q set out = (
  balance_panic src depth caps x q,
  frontier_panic src c depth caps q ep set out,
  reference_panic src depth off q,
)
