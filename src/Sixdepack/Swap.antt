-- ===== src/Sixdepack/Swap.antt =====
-- src/sixdepack.cpp: to exchange a node with the sibling of its parent leaves a tree.
pub mod Steps
use adplug.Base.{
  ℕ, zero, suc, ◌+◌, ◌-◌, ◌≤◌, ◌<◌, ◌≡◌, ◌≢◌, refl, sym, ap, ◌∙◌, arith, ◌⊎◌, inl, inr,
}
use adplug.Base.{order_cases}
use adplug.Sixdepack.Paths.{Climbs, Climbs-unique}
use adplug.Sixdepack.Shape.{IsInner, IsNode, IsTree, step_up}

eq_cases : (x y : ℕ) → (x ≡ y) ⊎ (x ≢ y)
eq_cases x y = elim (order_cases x y) [
  | inl lt ↦ inr (λ e. absurd (omega arith))
  | inr (inl same) ↦ inl same
  | inr (inr gt) ↦ inr (λ e. absurd (omega arith))
]

-- A node that is its own parent never comes to the root.
no_loop : (dad : ℕ → ℕ) (n x : ℕ) → dad x ≡ x → x ≢ 1 → Climbs dad n x → ⊥
no_loop dad zero x e ne c = ne c
no_loop dad (suc n) x e ne c = no_loop dad n x e ne (rw e at c.1)

-- The children of one node are as deep as one another.
same_depth :
    (dad : ℕ → ℕ) (n x y : ℕ) → dad x ≡ dad y → x ≢ 1 → y ≢ 1 → Climbs dad n x → Climbs dad n y
same_depth dad zero x y e nx ny c = absurd (nx c)
same_depth dad (suc n) x y e nx ny c = (ny, rw (sym e) c.1)

-- `a` and `c` are the children of `code1`, and `code1` and `b` those of `code2`.
pub record Family (l r d : ℕ → ℕ) (a b c code1 code2 : ℕ) : Type 0 where
  pub tree : IsTree l r d
  pub a_node : IsNode a
  pub b_node : IsNode b
  pub c_node : IsNode c
  pub dad_a : d a ≡ code1
  pub dad_c : d c ≡ code1
  pub a_c : a ≢ c
  pub not_root : code1 ≢ 1
  pub dad_1 : d code1 ≡ code2
  pub dad_b : d b ≡ code2
  pub b_1 : b ≢ code1
  pub under_1 : ((l code1 ≡ a) × (r code1 ≡ c)) ⊎ ((l code1 ≡ c) × (r code1 ≡ a))
  pub under_2 : ((l code2 ≡ code1) × (r code2 ≡ b)) ⊎ ((l code2 ≡ b) × (r code2 ≡ code1))

-- `a` and `b` have changed places.
pub record Exchanged (l r d l' r' d' : ℕ → ℕ) (a b c code1 code2 : ℕ) : Type 0 where
  pub at_1 : ((l' code1 ≡ b) × (r' code1 ≡ c)) ⊎ ((l' code1 ≡ c) × (r' code1 ≡ b))
  pub at_2 : ((l' code2 ≡ code1) × (r' code2 ≡ a)) ⊎ ((l' code2 ≡ a) × (r' code2 ≡ code1))
  pub lefts : (i : ℕ) → i ≢ code1 → i ≢ code2 → l' i ≡ l i
  pub rights : (i : ℕ) → i ≢ code1 → i ≢ code2 → r' i ≡ r i
  pub of_a : d' a ≡ code2
  pub of_b : d' b ≡ code1
  pub others : (x : ℕ) → x ≢ a → x ≢ b → d' x ≡ d x

module _ (l r d : ℕ → ℕ) (a b c code1 code2 : ℕ) (f : Family l r d a b c code1 code2) where
  a_not_root : a ≢ 1
  a_not_root e = absurd (omega (arith, f.a_node.0))

  b_not_root : b ≢ 1
  b_not_root e = absurd (omega (arith, f.b_node.0))

  code1-IsInner : IsInner code1
  code1-IsInner = rw f.dad_a at (f.tree.dads a f.a_node).0

  code1-IsNode : IsNode code1
  code1-IsNode =
      let ne = f.not_root in (ground (arith, code1-IsInner), omega (arith, code1-IsInner))

  code2-IsInner : IsInner code2
  code2-IsInner = rw f.dad_1 at (f.tree.dads code1 code1-IsNode).0

  depth_1 : (n : ℕ) × Climbs d n code1
  depth_1 = f.tree.climbs code1 (omega (arith, code1-IsNode)) (omega (arith, code1-IsNode))

  pub apart_codes : code1 ≢ code2
  apart_codes e = no_loop d depth_1.0 code1 (f.dad_1 ∙ sym e) f.not_root depth_1.1

  pub a_1 : a ≢ code1
  a_1 e =
      let (n, climb) = f.tree.climbs a (omega (arith, f.a_node)) (omega (arith, f.a_node)) in
      no_loop d n a (f.dad_a ∙ sym e) a_not_root climb

  pub a_b : a ≢ b
  a_b e = apart_codes (sym f.dad_a ∙ ap d e ∙ f.dad_b)

  pub c_b : c ≢ b
  c_b e = apart_codes (sym f.dad_c ∙ ap d e ∙ f.dad_b)

  module _ (l' r' d' : ℕ → ℕ) (x : Exchanged l r d l' r' d' a b c code1 code2) where
    -- A node no deeper than `code1` goes up as it did.
    low : (n m y : ℕ) → Climbs d n code1 → Climbs d m y → m ≤ n → y ≢ b → Climbs d' m y
    low n zero y c1 cy h ne = cy
    low n (suc m) y c1 cy h ne =
        let deep_a : Climbs d (suc n) a = step_up d n a code1 f.dad_a a_not_root c1 in
        let not_a : y ≢ a = λ e.
          let deep : Climbs d (suc n) y = rw e deep_a in
          absurd (omega (arith, Climbs-unique d (suc n) (suc m) y deep cy)) in
        let deep_b : Climbs d n b =
          same_depth d n code1 b (f.dad_1 ∙ sym f.dad_b) f.not_root b_not_root c1 in
        let up_not_b : d y ≢ b = λ e.
          let deep : Climbs d m b = rw (sym e) cy.1 in
          absurd (omega (arith, Climbs-unique d n m b deep_b deep)) in
        let rest : Climbs d' m (d y) = low n m (d y) c1 cy.1 (omega arith) up_not_b in
        step_up d' m y (d y) (x.others y not_a ne) cy.0 rest

    -- The parents of `a` and `b` go up as they did.
    climb_1 : (n : ℕ) × Climbs d' n code1
    climb_1 = let (n, c1) = depth_1 in (n, low n n code1 c1 c1 (omega arith) (λ e. f.b_1 (sym e)))

    climb_2 : (n : ℕ) × Climbs d' n code2
    climb_2 = above depth_1.0 depth_1.1
      where
        above : (n : ℕ) → Climbs d n code1 → (k : ℕ) × Climbs d' k code2
        above zero c1 = absurd (f.not_root c1)
        above (suc n) c1 =
            let c2 : Climbs d n code2 = rw (sym f.dad_1) c1.1 in
            let not_b : code2 ≢ b = λ e.
              let deep_b : Climbs d (suc n) b =
                same_depth d (suc n) code1 b (f.dad_1 ∙ sym f.dad_b) f.not_root b_not_root c1 in
              let deep : Climbs d n b = rw (sym e) c2 in
              absurd (omega (arith, Climbs-unique d (suc n) n b deep_b deep)) in
            (n, low (suc n) n code2 c1 c2 (omega arith) not_b)

    on-Climbs : (m y : ℕ) → Climbs d m y → (n : ℕ) × Climbs d' n y
    on-Climbs zero y cy = (0, cy)
    on-Climbs (suc m) y cy = elim (eq_cases y a) [
      | inl is_a ↦
          let (n, c2) = climb_2 in (suc n, step_up d' n y code2 (ap d' is_a ∙ x.of_a) cy.0 c2)
      | inr not_a ↦ elim (eq_cases y b) [
        | inl is_b ↦
            let (n, c1) = climb_1 in (suc n, step_up d' n y code1 (ap d' is_b ∙ x.of_b) cy.0 c1)
        | inr not_b ↦
            let (n, c') = on-Climbs m (d y) cy.1 in
            (suc n, step_up d' n y (d y) (x.others y not_a not_b) cy.0 c')
      ]
    ]

    abbrev Kid : ℕ → ℕ → Type 0
    Kid i k = IsNode k × (d' k ≡ i)

    b-Kid : Kid code1 b
    b-Kid = (f.b_node, x.of_b)

    c-Kid : Kid code1 c
    c-Kid = (f.c_node, x.others c (λ e. f.a_c (sym e)) c_b ∙ f.dad_c)

    a-Kid : Kid code2 a
    a-Kid = (f.a_node, x.of_a)

    code1-Kid : Kid code2 code1
    code1-Kid = (code1-IsNode, x.others code1 (λ e. a_1 (sym e)) (λ e. f.b_1 (sym e)) ∙ f.dad_1)

    on-Kid : (i k : ℕ) → i ≢ code1 → i ≢ code2 → IsNode k → d k ≡ i → Kid i k
    on-Kid i k n1 n2 node e = (
      node,
      x.others k (λ at_a. n1 (sym e ∙ ap d at_a ∙ f.dad_a))
            (λ at_b. n2 (sym e ∙ ap d at_b ∙ f.dad_b))
          ∙ e,
    )

    kids : (i : ℕ) → IsInner i → Kid i (l' i) × Kid i (r' i) × (l' i ≢ r' i)
    kids i h = elim (eq_cases i code1) [
      | inl e ↦ rw e (elim x.at_1 [
        | inl (lb, rc) ↦ rw (lb, rc) (b-Kid, c-Kid, λ e. c_b (sym e))
        | inr (lc, rb) ↦ rw (lc, rb) (c-Kid, b-Kid, c_b)
      ])
      | inr n1 ↦ elim (eq_cases i code2) [
        | inl e ↦ rw e (elim x.at_2 [
          | inl (l1, ra) ↦ rw (l1, ra) (code1-Kid, a-Kid, λ e. a_1 (sym e))
          | inr (la, r1) ↦ rw (la, r1) (a-Kid, code1-Kid, a_1)
        ])
        | inr n2 ↦
            let (ln, ld) = f.tree.lefts i h in
            let (rn, rd) = f.tree.rights i h in
            rw (x.lefts i n1 n2, x.rights i n1 n2)
              (on-Kid i (l i) n1 n2 ln ld, on-Kid i (r i) n1 n2 rn rd, f.tree.apart i h)
      ]
    ]

    -- A child of an inner node is one of its two.
    abbrev Child : ℕ → ℕ → Type 0
    Child i k = (l' i ≡ k) ⊎ (r' i ≡ k)

    abbrev Parent : ℕ → Type 0
    Parent k = IsInner (d' k) × Child (d' k) k

    b-Parent : Parent b
    b-Parent =
        rw x.of_b (code1-IsInner, elim x.at_1 [ inl (lb, rc) ↦ inl lb | inr (lc, rb) ↦ inr rb ])

    a-Parent : Parent a
    a-Parent =
        rw x.of_a (code2-IsInner, elim x.at_2 [ inl (l1, ra) ↦ inr ra | inr (la, r1) ↦ inl la ])

    c-Parent : (k : ℕ) → k ≡ c → Parent k
    c-Parent k e =
        rw (e, c-Kid.1)
          (code1-IsInner, elim x.at_1 [ inl (lb, rc) ↦ inr rc | inr (lc, rb) ↦ inl lc ])

    code1-Parent : (k : ℕ) → k ≡ code1 → Parent k
    code1-Parent k e =
        rw (e, code1-Kid.1)
          (code2-IsInner, elim x.at_2 [ inl (l1, ra) ↦ inl l1 | inr (la, r1) ↦ inr r1 ])

    -- Of the old children of `code1` and `code2` only `a` and `b` have another parent now.
    old_1 : (k : ℕ) → k ≢ a → (l code1 ≡ k) ⊎ (r code1 ≡ k) → k ≡ c
    old_1 k na child = elim f.under_1 [
      | inl (la, rc) ↦ elim child [ inl at ↦ absurd (na (sym at ∙ la)) | inr at ↦ sym at ∙ rc ]
      | inr (lc, ra) ↦ elim child [ inl at ↦ sym at ∙ lc | inr at ↦ absurd (na (sym at ∙ ra)) ]
    ]

    old_2 : (k : ℕ) → k ≢ b → (l code2 ≡ k) ⊎ (r code2 ≡ k) → k ≡ code1
    old_2 k nb child = elim f.under_2 [
      | inl (l1, rb) ↦ elim child [ inl at ↦ sym at ∙ l1 | inr at ↦ absurd (nb (sym at ∙ rb)) ]
      | inr (lb, r1) ↦ elim child [ inl at ↦ absurd (nb (sym at ∙ lb)) | inr at ↦ sym at ∙ r1 ]
    ]

    on-Parent : (k : ℕ) → IsNode k → k ≢ a → k ≢ b → d k ≢ code1 → d k ≢ code2 → Parent k
    on-Parent k h na nb n1 n2 =
        let (inside, child) = f.tree.dads k h in
        rw (x.others k na nb, x.lefts (d k) n1 n2, x.rights (d k) n1 n2) (inside, child)

    parents : (k : ℕ) → IsNode k → Parent k
    parents k h = elim (eq_cases k a) [
      | inl is_a ↦ rw is_a a-Parent
      | inr na ↦ elim (eq_cases k b) [
        | inl is_b ↦ rw is_b b-Parent
        | inr nb ↦ elim (eq_cases (d k) code1) [
          | inl of_1 ↦ c-Parent k (old_1 k na (rw of_1 at (f.tree.dads k h).1))
          | inr n1 ↦ elim (eq_cases (d k) code2) [
            | inl of_2 ↦ code1-Parent k (old_2 k nb (rw of_2 at (f.tree.dads k h).1))
            | inr n2 ↦ on-Parent k h na nb n1 n2
          ]
        ]
      ]
    ]

    -- The exchange leaves a tree.
    pub Exchanged-IsTree : IsTree l' r' d'
    Exchanged-IsTree = record {
      lefts = λ i h. (kids i h).0;
      rights = λ i h. (kids i h).1;
      apart = λ i h. (kids i h).2;
      dads = parents;
      climbs = λ y low high. let (m, cy) = f.tree.climbs y low high in on-Climbs m y cy;
    }
