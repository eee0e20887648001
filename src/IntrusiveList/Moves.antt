-- ===== src/IntrusiveList/Moves.antt =====
-- The move constructor of intrusive_list: the new sentinel takes over the links of the old one, but the
-- first and the last node still point to the old sentinel, and the old sentinel points to the new one.
use gloxor.Base.{
  ℕ, suc, ◌<◌, ◌≡◌, ◌≢◌, refl, sym, ◌∙◌, List, [], ◌∷◌, ◌++◌, length, arith, length-append, some,
}
use gloxor.Algorithms.{write}
use gloxor.IntrusiveList.{Links, IntrusiveList, move_from, forwards, begin, end, size}
use gloxor.IntrusiveList.Chain.{Fresh, Represents, Fresh-append}
use gloxor.IntrusiveList.Walk.{Nexts, Seg-Nexts, forwards-Nexts}

-- A chain whose first link starts elsewhere and whose end leads on to `t`.
Nexts-moved :
    (m m' : Links) (a a' o t : ℕ) (xs : List ℕ)
    → ((i : ℕ) → i ≢ t → i ≢ o → m'.next i ≡ m.next i)
    → m'.next a' ≡ m.next a
    → m'.next o ≡ t
    → Fresh t xs
    → Fresh o xs
    → Nexts m a xs o
    → Nexts m' a' (xs ++ o ∷ []) t
Nexts-moved m m' a a' o t [] same e f ht ho s = (e ∙ s, f)
Nexts-moved m m' a a' o t (x ∷ xs) same e f ht ho s = (
  e ∙ s.0,
  Nexts-moved m m' x x o t xs same (same x (λ h. ht.0 (sym h)) (λ h. ho.0 (sym h))) f ht.1 ho.1 s.1,
)

-- A loop over the list that the move constructor makes visits the nodes of the old list and then the
-- sentinel of the old list, as if it were an element, while size() counts the nodes.
pub move_from-sentinel :
    (fuel t : ℕ) (other : IntrusiveList) (m : Links) (xs : List ℕ)
    → Represents other m xs
    → Fresh t (other.sentinel ∷ xs)
    → suc (length xs) < fuel
    → let r : (IntrusiveList × IntrusiveList) × Links = move_from t other m in
      (forwards fuel (begin r.0.0 r.1) (end r.0.0) r.1 ≡ some (xs ++ other.sentinel ∷ []))
      × (size r.0.0 ≡ length xs)
      × (size r.0.1 ≡ 0)
unfolding move_from begin end size write
move_from-sentinel fuel t other m xs r f h =
    let o = other.sentinel in
    let m' = (move_from t other m).1 in
    let chain =
      Nexts-moved m m' o t o t xs (λ i h k. ground arith) (ground (arith, f.0)) (ground arith) f.1
        r.circle.1.0 (Seg-Nexts m o o xs r.circle.0) in
    let fewer : length (xs ++ o ∷ []) < fuel = omega (arith, length-append {0} xs (o ∷ [])) in
    (
      forwards-Nexts fuel t t m' (xs ++ o ∷ []) chain (Fresh-append t xs (o ∷ []) f.1 (f.0, tt))
          fewer,
      r.counted,
      refl,
    )
