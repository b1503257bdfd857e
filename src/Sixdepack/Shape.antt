-- ===== src/Sixdepack/Shape.antt =====
-- src/sixdepack.cpp: the shape of the code tree, and the steps that leave it alone.
use adplug.Base.{ℕ, zero, suc, ◌+◌, ◌*◌, ◌/◌, ◌%◌, ◌^◌, ◌≤◌, ◌<◌, ◌≡◌, ◌≢◌, refl, sym, ◌∙◌}
use adplug.Base.{arith, true, ◌==◌, ltb, leb, if_both, Bool-cases, inl, inr}
use adplug.Base.{◌⊎◌, ok, Returns, Returns-map}
use adplug.Sixdepack.{Tree, put, inittree, sibling, halve}
use adplug.Sixdepack.{updatefreq}
use adplug.Sixdepack.Paths.{Climbs, Climbs-le, up}

abbrev pub IsInner : ℕ → Type 0
IsInner i = (1 ≤ i) × (i ≤ 1774)

-- A node below the root.
abbrev pub IsNode : ℕ → Type 0
IsNode x = (2 ≤ x) × (x ≤ 3549)

-- Every inner node has two children that know it as their parent, and every node comes to the root.
pub record IsTree (leftc rghtc dad : ℕ → ℕ) : Type 0 where
  pub lefts : (i : ℕ) → IsInner i → IsNode (leftc i) × (dad (leftc i) ≡ i)
  pub rights : (i : ℕ) → IsInner i → IsNode (rghtc i) × (dad (rghtc i) ≡ i)
  pub apart : (i : ℕ) → IsInner i → leftc i ≢ rghtc i
  pub dads : (x : ℕ) → IsNode x → IsInner (dad x) × ((leftc (dad x) ≡ x) ⊎ (rghtc (dad x) ≡ x))
  pub climbs : (x : ℕ) → 1 ≤ x → x ≤ 3549 → (n : ℕ) × Climbs dad n x

abbrev pub IsValid : Tree → Type 0
IsValid t = IsTree t.leftc t.rghtc t.dad

-- Only frequencies have changed.
pub record SameShape (t t' : Tree) : Type 0 where
  pub same_leftc : t'.leftc ≡ t.leftc
  pub same_rghtc : t'.rghtc ≡ t.rghtc
  pub same_dad : t'.dad ≡ t.dad

pub SameShape-IsValid : (t t' : Tree) → IsValid t → SameShape t t' → IsValid t'
SameShape-IsValid t t' v same = rw (same.same_leftc, same.same_rghtc, same.same_dad) v

-- A node is no further from the root than there are inner nodes.
up-inside :
    (dad : ℕ → ℕ) (n x : ℕ)
    → ((y : ℕ) → IsNode y → IsInner (dad y))
    → IsInner x
    → Climbs dad n x
    → (k : ℕ) → k < n
    → IsInner (up dad (suc k) x)
unfolding up
up-inside dad zero x inside at c k h = absurd (omega arith)
up-inside dad (suc n) x inside at c zero h =
    let ne = c.0 in let big : 2 ≤ x = ground arith in inside x (big, omega arith)
up-inside dad (suc n) x inside at c (suc k) h =
    let ne = c.0 in
    let big : 2 ≤ x = ground arith in
    up-inside dad n (dad x) inside (inside x (big, omega arith)) c.1 k (omega arith)

pub depth-le :
    (leftc rghtc dad : ℕ → ℕ)
    → IsTree leftc rghtc dad
    → (n x : ℕ) → IsInner x
    → Climbs dad n x
    → n ≤ 1774
depth-le leftc rghtc dad v n x at c =
    Climbs-le dad 1774 n x (up-inside dad n x (λ y hy. (v.dads y hy).0) at c) c

-- The way of a node, which is a step longer than its parent's.
pub record Sibling (a c : ℕ) (t : Tree) : Type 0 where
  pub is_node : IsNode c
  pub same_dad : t.dad c ≡ t.dad a
  pub differ : a ≢ c
  pub both :
      ((t.leftc (t.dad a) ≡ a) × (t.rghtc (t.dad a) ≡ c))
      ⊎ ((t.leftc (t.dad a) ≡ c) × (t.rghtc (t.dad a) ≡ a))

pub sibling-ok :
    (a : ℕ) (t : Tree) → IsNode a → IsValid t → (c : ℕ) × (sibling a t ≡ ok c) × Sibling a c t
unfolding sibling
sibling-ok a t at v =
    let d = t.dad a in
    let (inside, child) = v.dads a at in
    let (ln, ld) = v.lefts d inside in
    let (rn, rd) = v.rights d inside in
    let ne = v.apart d inside in
    let in_nodes : leb a 3549 ≡ true = ground (arith, at.1) in
    let in_inner : ltb d 1775 ≡ true = ground (arith, inside.1) in
    elim (Bool-cases (t.leftc d == a)) [
      | inl left ↦
          let same : t.leftc d ≡ a = ground arith in
          (
            t.rghtc d,
            rw (in_nodes, in_inner, left) refl,
            record {
              is_node = rn;
              same_dad = rd;
              differ = λ e. ne (same ∙ e);
              both = inl (same, refl);
            },
          )
      | inr right ↦
          let other : t.leftc d ≢ a = ground arith in
          let is_right : t.rghtc d ≡ a = elim child [ inl l ↦ absurd (other l) | inr r ↦ r ] in
          (
            t.leftc d,
            rw (in_nodes, in_inner, right) refl,
            record {
              is_node = ln;
              same_dad = ld;
              differ = λ e. other (sym e);
              both = inr (refl, is_right);
            },
          )
    ]

halve-SameShape : (t : Tree) → SameShape t (halve t)
unfolding halve
halve-SameShape t =
    if_both (SameShape t) (t.freq 1 == 2000) _ _
      (record { same_leftc = refl; same_rghtc = refl; same_dad = refl })
      (record { same_leftc = refl; same_rghtc = refl; same_dad = refl })

SameShape-trans : (t u w : Tree) → SameShape t u → SameShape u w → SameShape t w
SameShape-trans t u w p q = record {
  same_leftc = q.same_leftc ∙ p.same_leftc;
  same_rghtc = q.same_rghtc ∙ p.same_rghtc;
  same_dad = q.same_dad ∙ p.same_dad;
}

-- The loop up to the root ends, within a round for each node on the way.
pub updatefreq-SameShape :
    (fuel n a b : ℕ) (t : Tree)
    → IsValid t
    → IsNode a
    → b ≤ 3549
    → Climbs t.dad n a
    → n ≤ fuel
    → Returns (SameShape t) (updatefreq fuel a b t)
unfolding updatefreq
updatefreq-SameShape zero zero a b t v at hb c enough = absurd (omega arith)
updatefreq-SameShape zero (suc n) a b t v at hb c enough = absurd (omega arith)
updatefreq-SameShape (suc fuel) zero a b t v at hb c enough = absurd (omega arith)
updatefreq-SameShape (suc fuel) (suc n) a b t v at hb c enough =
    let d = t.dad a in
    let (inside, child) = v.dads a at in
    let t1 : Tree = record t { freq = put d ((t.freq a + t.freq b) % 2 ^ 16) t.freq } in
    let a_in : leb a 3549 ≡ true = ground (arith, at.1) in
    let b_in : leb b 3549 ≡ true = ground arith in
    let d_in : leb d 3549 ≡ true = ground (arith, inside.1) in
    let kept : SameShape t t1 = record { same_leftc = refl; same_rghtc = refl; same_dad = refl } in
    elim (Bool-cases (d == 1)) [
      | inl root ↦
          rw (a_in, b_in, d_in, root, Returns)
            (SameShape-trans t t1 (halve t1) kept (halve-SameShape t1))
      | inr below ↦
          let d_node : IsNode d = (ground (arith, inside.0), omega (arith, inside.1)) in
          let (s, es, sib) = sibling-ok d t1 d_node v in
          rw (a_in, b_in, d_in, below, es)
            (Returns-map (SameShape t1) (SameShape t) (updatefreq fuel d s t1)
              (λ w. SameShape-trans t t1 w kept)
              (updatefreq-SameShape fuel n d s t1 v d_node sib.is_node.1 c.1 (omega arith)))
    ]

-- The first tree is the heap of 3549 nodes.
heap_dad : (t : Tree) (x : ℕ) → IsNode x → (inittree t).dad x ≡ x / 2
unfolding inittree
heap_dad t x h = ground arith

pub step_up : (dad : ℕ → ℕ) (n x y : ℕ) → dad x ≡ y → x ≢ 1 → Climbs dad n y → Climbs dad (suc n) x
step_up dad n x y e ne c = (ne, rw e c)

heap-Climbs :
    (t : Tree) (bound x : ℕ) → x ≤ bound → 1 ≤ x → x ≤ 3549 → (n : ℕ) × Climbs (inittree t).dad n x
heap-Climbs t zero x small low high = absurd (omega arith)
heap-Climbs t (suc bound) x small low high = elim (Bool-cases (x == 1)) [
  | inl root ↦ (0, ground arith)
  | inr below ↦
      let ne : x ≢ 1 = ground arith in
      let two : 2 ≤ x = ground arith in
      let (n, c) = heap-Climbs t bound (x / 2) (omega arith) (omega arith) (omega arith) in
      (suc n, step_up (inittree t).dad n x (x / 2) (heap_dad t x (two, high)) ne c)
]

heap_left : (t : Tree) (i : ℕ) → IsInner i → (inittree t).leftc i ≡ 2 * i
unfolding inittree
heap_left t i h = ground arith

heap_right : (t : Tree) (i : ℕ) → IsInner i → (inittree t).rghtc i ≡ 2 * i + 1
unfolding inittree
heap_right t i h = ground arith

heap_child :
    (t : Tree) (x : ℕ)
    → IsNode x
    → IsInner (x / 2) × (((inittree t).leftc (x / 2) ≡ x) ⊎ ((inittree t).rghtc (x / 2) ≡ x))
heap_child t x h =
    let inside : IsInner (x / 2) = (omega arith, omega arith) in
    let l = heap_left t (x / 2) inside in
    let r = heap_right t (x / 2) inside in (inside, ground arith)

-- `inittree` makes a tree, whatever the memory held.
pub inittree-IsValid : (t : Tree) → IsValid (inittree t)
inittree-IsValid t = record {
  lefts = λ i h.
      let e = heap_left t i h in
      let node : IsNode (2 * i) = (omega arith, omega arith) in
      rw e (node, heap_dad t (2 * i) node ∙ omega arith);
  rights = λ i h.
      let e = heap_right t i h in
      let node : IsNode (2 * i + 1) = (omega arith, omega arith) in
      rw e (node, heap_dad t (2 * i + 1) node ∙ omega arith);
  apart = λ i h e. absurd (omega (arith, heap_left t i h, heap_right t i h));
  dads = λ x h. rw (heap_dad t x h) (heap_child t x h);
  climbs = λ x low high. heap-Climbs t x x (omega arith) low high;
}
