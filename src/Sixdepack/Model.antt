-- ===== src/Sixdepack/Model.antt =====
-- src/sixdepack.cpp: `updatemodel` ends and leaves a tree.
use adplug.Base.{ℕ, zero, suc, ◌+◌, ◌%◌, ◌^◌, ◌≤◌, ◌≡◌, ◌≢◌, refl, sym, ap, ◌∙◌, arith}
use adplug.Base.{true, ◌==◌, ltb, leb, if_both, if_split}
use adplug.Base.{Returns, Returns-bind}
use adplug.Sixdepack.{Tree, put, swap, updatefreq, promote, climb, updatemodel}
use adplug.Sixdepack.Paths.{Climbs}
use adplug.Sixdepack.Shape.{IsNode, IsValid, SameShape, SameShape-IsValid, Sibling}
use adplug.Sixdepack.Shape.{sibling-ok, updatefreq-SameShape, depth-le}
use adplug.Sixdepack.Swap.Steps.{Swapped, swap-Swapped}

-- Below `code1`, and on the way that `code1` had.
pub record Promoted (t : Tree) (code1 code2 : ℕ) (x : ℕ × Tree) : Type 0 where
  pub valid : IsValid x.1
  pub in_tree : IsNode x.0
  pub under_1 : x.1.dad x.0 ≡ code1
  pub under_2 : x.1.dad code1 ≡ code2
  pub way : (n : ℕ) → Climbs t.dad n code1 → Climbs x.1.dad n code1

-- A way of a node is short enough for the fuel of `updatefreq`.
node_way : (t : Tree) (a : ℕ) → IsValid t → IsNode a → (n : ℕ) × Climbs t.dad n a × (n ≤ 1775)
node_way t a v at =
    let (n, c) =
      v.climbs (t.dad a) (omega (arith, (v.dads a at).0)) (omega (arith, (v.dads a at).0)) in
    let short = depth-le t.leftc t.rghtc t.dad v n (t.dad a) (v.dads a at).0 c in
    (suc n, (λ e. absurd (omega arith), c), omega arith)

promote-Promoted :
    (t : Tree) (a b : ℕ)
    → IsValid t
    → IsNode a
    → t.dad a ≢ 1
    → Sibling (t.dad a) b t
    → Returns
        (Promoted t (t.dad a) (t.dad (t.dad a)))
        (promote 1775 a b (t.dad a) (t.dad (t.dad a)) t)
unfolding promote
promote-Promoted t a b v at below sib =
    let code1 = t.dad a in
    let code2 = t.dad code1 in
    let in_a : leb a 3549 ≡ true = ground (arith, at) in
    let in_b : leb b 3549 ≡ true = ground (arith, sib.is_node) in
    let P = Promoted t code1 code2 in
    let swapped =
      Returns-bind (Swapped t b code1 code2) P (swap a b code1 code2 t) _
        (swap-Swapped t a b v at below sib)
        (λ (x : ℕ × Tree) w.
          let (n, cb, short) = node_way x.1 b w.valid sib.is_node in
          Returns-bind (SameShape x.1) P (updatefreq 1775 b x.0 x.1) _
            (updatefreq-SameShape 1775 n b x.0 x.1 w.valid sib.is_node w.c_node.1 cb short)
            (λ u same. record {
              valid = SameShape-IsValid x.1 u w.valid same;
              in_tree = sib.is_node;
              under_1 = rw same.same_dad w.under_1;
              under_2 = rw same.same_dad w.under_2;
              way = λ n c1. rw same.same_dad (w.way n c1);
            })) in
    rw (in_a, in_b)
      (if_both (Returns P) (ltb (t.freq b) (t.freq a)) _ _ swapped
        (record { valid = v; in_tree = at; under_1 = refl; under_2 = refl; way = λ n c1. c1 }))

-- The loop ends, with a round for each node above `a`.
climb-IsValid :
    (fuel n a : ℕ) (t : Tree)
    → IsValid t
    → IsNode a
    → t.dad a ≢ 1
    → Climbs t.dad n (t.dad a)
    → n ≤ fuel
    → Returns IsValid (climb fuel a (t.dad a) t)
unfolding climb
climb-IsValid fuel zero a t v at below c enough = absurd (below c)
climb-IsValid zero (suc n) a t v at below c enough = absurd (omega arith)
climb-IsValid (suc fuel) (suc n) a t v at below c enough =
    let code1 = t.dad a in
    let inner_1 = (v.dads a at).0 in
    let node_1 : IsNode code1 = (ground (arith, inner_1), omega (arith, inner_1)) in
    let in_1 : leb code1 3549 ≡ true = ground (arith, node_1) in
    let (b, eb, sib) = sibling-ok code1 t node_1 v in
    rw (in_1, eb)
      (Returns-bind (Promoted t code1 (t.dad code1)) IsValid
        (promote 1775 a b code1 (t.dad code1) t) _ (promote-Promoted t a b v at below sib)
        (λ (x : ℕ × Tree) w.
          let a2 = x.1.dad x.0 in
          let node_2 : IsNode a2 = rw w.under_1 node_1 in
          let in_0 : leb x.0 3549 ≡ true = ground (arith, w.in_tree) in
          let in_2 : leb a2 3549 ≡ true = ground (arith, node_2) in
          let c2 : Climbs x.1.dad (suc n) a2 = rw w.under_1 (w.way (suc n) c) in
          rw (in_0, in_2)
            (if_split (Returns IsValid) (x.1.dad a2 == 1) _ _ (λ root. w.valid)
              (λ more.
                climb-IsValid fuel n a2 x.1 w.valid node_2 (ground arith) c2.1 (omega arith)))))

after_freq :
    (a : ℕ) (t u : Tree)
    → IsValid t
    → SameShape t u
    → IsNode a
    → t.dad a ≢ 1
    → Returns IsValid (climb 1775 a (t.dad a) u)
after_freq a t u v same at below =
    let e : t.dad a ≡ u.dad a = sym (ap (λ (f : ℕ → ℕ). f a) same.same_dad) in
    let w : IsValid u = SameShape-IsValid t u v same in
    let (n, c) =
      w.climbs (u.dad a) (omega (arith, (w.dads a at).0)) (omega (arith, (w.dads a at).0)) in
    let short = depth-le u.leftc u.rghtc u.dad w n (u.dad a) (w.dads a at).0 c in
    rw e (climb-IsValid 1775 n a u w at (λ root. below (e ∙ root)) c (omega arith))

-- `updatemodel` of any code of the tree ends, reads and writes inside of the arrays only, and leaves a
-- tree: each inner node is the parent of two different children, and each node comes to the root.
pub updatemodel-IsValid :
    (code : ℕ) (t : Tree) → IsValid t → code ≤ 1774 → Returns IsValid (updatemodel code t)
unfolding updatemodel
updatemodel-IsValid code t v h =
    let a = code + 1775 in
    let at : IsNode a = (omega arith, omega arith) in
    let in_a : leb a 3549 ≡ true = ground arith in
    let t1 : Tree = record t { freq = put a ((t.freq a + 1) % 2 ^ 16) t.freq } in
    let (b, eb, sib) = sibling-ok a t1 at v in
    let (n, c, short) = node_way t a v at in
    rw (in_a, eb)
      (if_split (Returns IsValid) (t.dad a == 1) _ _ (λ root. v)
        (λ below.
          Returns-bind (SameShape t1) IsValid (updatefreq 1775 a b t1) _
            (updatefreq-SameShape 1775 n a b t1 v at sib.is_node.1 c short)
            (λ u same. after_freq a t1 u v same at (ground arith))))
