-- ===== src/Sixdepack/Swap/Steps.antt =====
-- src/sixdepack.cpp: the writes of `updatemodel` exchange the two nodes.
use adplug.Base.{ℕ, ◌≡◌, ◌≢◌, refl, sym, ◌∙◌, arith, inl, inr, true, false}
use adplug.Base.{◌==◌, ltb, leb, Returns}
use adplug.Sixdepack.{Tree, put, swap}
use adplug.Sixdepack.Paths.{Climbs}
use adplug.Sixdepack.Shape.{IsNode, IsValid, Sibling, sibling-ok}
use adplug.Sixdepack.Swap.{Family, Exchanged, Exchanged-IsTree, low, apart_codes, a_b, a_1}

put_self : (i v : ℕ) (f : ℕ → ℕ) → put i v f i ≡ v
put_self i v f = ground arith

put_ne : (i v j : ℕ) (f : ℕ → ℕ) → j ≢ i → put i v f j ≡ f j
put_ne i v j f ne = ground arith

-- What the exchange leaves for the way up: the tree, the place of `b`, and the way of `code1`.
pub record Swapped (t : Tree) (b code1 code2 : ℕ) (x : ℕ × Tree) : Type 0 where
  pub valid : IsValid x.1
  pub c_node : IsNode x.0
  pub under_1 : x.1.dad b ≡ code1
  pub under_2 : x.1.dad code1 ≡ code2
  pub way : (n : ℕ) → Climbs t.dad n code1 → Climbs x.1.dad n code1

module _ (t : Tree) (a b c code1 code2 : ℕ)
    (f : Family t.leftc t.rghtc t.dad a b c code1 code2) where
  abbrev next_dad : ℕ → ℕ
  next_dad = put a code2 (put b code1 t.dad)

  Swapped-of :
      (l' r' : ℕ → ℕ)
      → Exchanged t.leftc t.rghtc t.dad l' r' next_dad a b c code1 code2
      → Swapped t b code1 code2 (c, record t { leftc = l'; rghtc = r'; dad = next_dad })
  Swapped-of l' r' x = record {
    valid = Exchanged-IsTree t.leftc t.rghtc t.dad a b c code1 code2 f l' r' next_dad x;
    c_node = f.c_node;
    under_1 = x.of_b;
    under_2 =
        x.others code1 (λ e. a_1 t.leftc t.rghtc t.dad a b c code1 code2 f (sym e))
          (λ e. f.b_1 (sym e))
        ∙ f.dad_1;
    way = λ n c1.
        low t.leftc t.rghtc t.dad a b c code1 code2 f l' r' next_dad x n n code1 c1 c1 (omega arith)
          (λ e. f.b_1 (sym e));
  }

  apart : code1 ≢ code2
  apart = apart_codes t.leftc t.rghtc t.dad a b c code1 code2 f

  of_b : next_dad b ≡ code1
  of_b =
      put_ne a code2 b (put b code1 t.dad)
        (λ e. a_b t.leftc t.rghtc t.dad a b c code1 code2 f (sym e))
      ∙ put_self b code1 t.dad

  others : (y : ℕ) → y ≢ a → y ≢ b → next_dad y ≡ t.dad y
  others y na nb = put_ne a code2 y (put b code1 t.dad) na ∙ put_ne b code1 y t.dad nb

  -- The four ways in which the two may stand.
  module _ (in_1 : ltb code1 1775 ≡ true) (in_2 : ltb code2 1775 ≡ true) (in_a : leb a 3549 ≡ true)
      (in_b : leb b 3549 ≡ true) where
    left_left :
        t.leftc code2 ≡ code1
        → t.rghtc code2 ≡ b
        → t.leftc code1 ≡ a
        → t.rghtc code1 ≡ c
        → Returns (Swapped t b code1 code2) (swap a b code1 code2 t)
    unfolding swap
    left_left l2 r2 l1 r1 =
        let test_2 : (t.leftc code2 == code1) ≡ true = ground arith in
        let test_1 : (t.leftc code1 == a) ≡ true = ground arith in
        let kept : put code2 a t.rghtc code1 ≡ c = put_ne code2 a code1 t.rghtc apart ∙ r1 in
        let r' = put code2 a t.rghtc in
        let l' = put code1 b t.leftc in
        rw (in_2, test_2, in_1, test_1, in_a, in_b, kept, Returns)
          (Swapped-of l' r' (record {
            at_1 = inl (put_self code1 b t.leftc, kept);
            at_2 =
                inl (
                  put_ne code1 b code2 t.leftc (λ e. apart (sym e)) ∙ l2,
                  put_self code2 a t.rghtc,
                );
            lefts = λ i n1 n2. put_ne code1 b i t.leftc n1;
            rights = λ i n1 n2. put_ne code2 a i t.rghtc n2;
            of_a = put_self a code2 (put b code1 t.dad);
            of_b = of_b;
            others = others;
          }))

    left_right :
        t.leftc code2 ≡ code1
        → t.rghtc code2 ≡ b
        → t.leftc code1 ≡ c
        → t.rghtc code1 ≡ a
        → Returns (Swapped t b code1 code2) (swap a b code1 code2 t)
    unfolding swap
    left_right l2 r2 l1 r1 =
        let a_c = f.a_c in
        let test_2 : (t.leftc code2 == code1) ≡ true = ground arith in
        let test_1 : (t.leftc code1 == a) ≡ false = ground arith in
        let r1' = put code2 a t.rghtc in
        let r' = put code1 b r1' in
        rw (in_2, test_2, in_1, test_1, in_a, in_b, l1, Returns)
          (Swapped-of t.leftc r' (record {
            at_1 = inr (l1, put_self code1 b r1');
            at_2 =
                inl (l2, put_ne code1 b code2 r1' (λ e. apart (sym e)) ∙ put_self code2 a t.rghtc);
            lefts = λ i n1 n2. refl;
            rights = λ i n1 n2. put_ne code1 b i r1' n1 ∙ put_ne code2 a i t.rghtc n2;
            of_a = put_self a code2 (put b code1 t.dad);
            of_b = of_b;
            others = others;
          }))

    right_left :
        t.leftc code2 ≡ b
        → t.rghtc code2 ≡ code1
        → t.leftc code1 ≡ a
        → t.rghtc code1 ≡ c
        → Returns (Swapped t b code1 code2) (swap a b code1 code2 t)
    unfolding swap
    right_left l2 r2 l1 r1 =
        let b_1 = f.b_1 in
        let l1' = put code2 a t.leftc in
        let kept : l1' code1 ≡ a = put_ne code2 a code1 t.leftc apart ∙ l1 in
        let test_2 : (t.leftc code2 == code1) ≡ false = ground arith in
        let test_1 : (l1' code1 == a) ≡ true = ground (arith, kept) in
        let l' = put code1 b l1' in
        rw (in_2, test_2, in_1, test_1, in_a, in_b, r1, Returns)
          (Swapped-of l' t.rghtc (record {
            at_1 = inl (put_self code1 b l1', r1);
            at_2 =
                inr (put_ne code1 b code2 l1' (λ e. apart (sym e)) ∙ put_self code2 a t.leftc, r2);
            lefts = λ i n1 n2. put_ne code1 b i l1' n1 ∙ put_ne code2 a i t.leftc n2;
            rights = λ i n1 n2. refl;
            of_a = put_self a code2 (put b code1 t.dad);
            of_b = of_b;
            others = others;
          }))

    right_right :
        t.leftc code2 ≡ b
        → t.rghtc code2 ≡ code1
        → t.leftc code1 ≡ c
        → t.rghtc code1 ≡ a
        → Returns (Swapped t b code1 code2) (swap a b code1 code2 t)
    unfolding swap
    right_right l2 r2 l1 r1 =
        let b_1 = f.b_1 in
        let a_c = f.a_c in
        let l' = put code2 a t.leftc in
        let kept : l' code1 ≡ c = put_ne code2 a code1 t.leftc apart ∙ l1 in
        let test_2 : (t.leftc code2 == code1) ≡ false = ground arith in
        let test_1 : (l' code1 == a) ≡ false = ground (arith, kept) in
        let r' = put code1 b t.rghtc in
        rw (in_2, test_2, in_1, test_1, in_a, in_b, kept, Returns)
          (Swapped-of l' r' (record {
            at_1 = inr (kept, put_self code1 b t.rghtc);
            at_2 =
                inr (
                  put_self code2 a t.leftc,
                  put_ne code1 b code2 t.rghtc (λ e. apart (sym e)) ∙ r2,
                );
            lefts = λ i n1 n2. put_ne code2 a i t.leftc n2;
            rights = λ i n1 n2. put_ne code1 b i t.rghtc n1;
            of_a = put_self a code2 (put b code1 t.dad);
            of_b = of_b;
            others = others;
          }))

-- `a` below `code1`, which is not the root, changes places with the sibling of `code1`.
pub swap-Swapped :
    (t : Tree) (a b : ℕ)
    → IsValid t
    → IsNode a
    → t.dad a ≢ 1
    → Sibling (t.dad a) b t
    → Returns (Swapped t b (t.dad a) (t.dad (t.dad a))) (swap a b (t.dad a) (t.dad (t.dad a)) t)
swap-Swapped t a b v at below sib =
    let code1 = t.dad a in
    let code2 = t.dad code1 in
    let inner_1 = (v.dads a at).0 in
    let node_1 : IsNode code1 = (ground (arith, inner_1), omega (arith, inner_1)) in
    let inner_2 = (v.dads code1 node_1).0 in
    let (c, ec, own) = sibling-ok a t at v in
    let f : Family t.leftc t.rghtc t.dad a b c code1 code2 = record {
      tree = v;
      a_node = at;
      b_node = sib.is_node;
      c_node = own.is_node;
      dad_a = refl;
      dad_c = own.same_dad;
      a_c = own.differ;
      not_root = below;
      dad_1 = refl;
      dad_b = sib.same_dad;
      b_1 = λ e. sib.differ (sym e);
      under_1 = own.both;
      under_2 = sib.both;
    } in
    let in_1 : ltb code1 1775 ≡ true = ground (arith, inner_1) in
    let in_2 : ltb code2 1775 ≡ true = ground (arith, inner_2) in
    let in_a : leb a 3549 ≡ true = ground (arith, at) in
    let in_b : leb b 3549 ≡ true = ground (arith, sib.is_node) in
    elim sib.both [
      | inl (l2, r2) ↦ elim own.both [
        | inl (l1, r1) ↦ left_left t a b c code1 code2 f in_1 in_2 in_a in_b l2 r2 l1 r1
        | inr (l1, r1) ↦ left_right t a b c code1 code2 f in_1 in_2 in_a in_b l2 r2 l1 r1
      ]
      | inr (l2, r2) ↦ elim own.both [
        | inl (l1, r1) ↦ right_left t a b c code1 code2 f in_1 in_2 in_a in_b l2 r2 l1 r1
        | inr (l1, r1) ↦ right_right t a b c code1 code2 f in_1 in_2 in_a in_b l2 r2 l1 r1
      ]
    ]
