-- ===== src/Sixdepack/Decode/Input.antt =====
-- src/sixdepack.cpp: the bits of the input, and the codes that are read with them.
use adplug.Base.{ℕ, zero, suc, ◌+◌, ◌-◌, ◌*◌, ◌^◌, ◌≤◌, ◌<◌, ◌≡◌, arith}
use adplug.Base.{length, get_elem?-of_lt, true, ◌==◌, ltb, leb, Bool, bit_or}
use adplug.Base.{if◌then◌else◌, if_both, if_split, Bool-cases, inl, inr, Option, none, some}
use adplug.Base.{Returns, Returns-bind, Returns-map, OnSome, Returns-option}
use adplug.Sixdepack.Decode.{Sixdepak, Buffers, next_bit, inputcode, bitvalue, walk}
use adplug.Sixdepack.{updatemodel}
use adplug.Sixdepack.Decode.{uncompress}
use adplug.Sixdepack.{inner}
use adplug.Sixdepack.Shape.{IsInner, IsValid}
use adplug.Sixdepack.Model.{updatemodel-IsValid}

module _ (b : Buffers) (there : b.input_size ≤ length b.wdbuf) where
  -- The bits that can still be read.
  abbrev pub left : Sixdepak → ℕ
  left s = 16 * (b.input_size - s.ibufcount) + s.ibitcount

  pub record IsInside (s : Sixdepak) : Type 0 where
    pub tree : IsValid s.tree
    pub in_input : s.ibufcount ≤ b.input_size
    pub bits : left s ≤ 16 * b.input_size
    pub counted : s.obufcount ≡ length s.obuf
    pub fits : s.obufcount ≤ b.output_size

  -- What is left of the input has become less.
  abbrev pub Later : Sixdepak → Sixdepak → Type 0
  Later s s1 = IsInside s1 × (left s1 < left s)

  abbrev BitRead : Sixdepak → Option (Bool × Sixdepak) → Type 0
  BitRead s = OnSome (λ (x : Bool × Sixdepak). Later s x.1)

  pub next_bit-BitRead : (s : Sixdepak) → IsInside s → Returns (BitRead s) (next_bit b s)
  unfolding next_bit
  next_bit-BitRead s h = elim (Bool-cases (s.ibitcount == 0)) [
    | inr some_bit ↦
        rw (some_bit, Returns)
          (
            record {
              tree = h.tree;
              in_input = h.in_input;
              bits = omega (arith, h.bits);
              counted = h.counted;
              fits = h.fits;
            },
            ground arith,
          )
    | inl no_bit ↦ elim (Bool-cases (s.ibufcount == b.input_size)) [
      | inl over ↦ rw (no_bit, over, Returns) tt
      | inr more ↦
          let inside : s.ibufcount < b.input_size = ground (arith, h.in_input) in
          let (w, e) = get_elem?-of_lt b.wdbuf s.ibufcount (omega arith) in
          let none_left : s.ibitcount ≡ 0 = ground arith in
          rw (no_bit, more, e, Returns)
            (
              record {
                tree = h.tree;
                in_input = omega arith;
                bits = omega (arith, h.bits);
                counted = h.counted;
                fits = h.fits;
              },
              omega arith,
            )
    ]
  ]

  -- A leaf of the tree, read with some bits.
  abbrev IsLeaf : Sixdepak → ℕ × Sixdepak → Type 0
  IsLeaf s x = (1775 ≤ x.0) × (x.0 ≤ 3549) × Later s x.1

  Later-IsLeaf :
      (s s1 : Sixdepak)
      → Later s s1
      → (o : Option (ℕ × Sixdepak)) → OnSome (IsLeaf s1) o
      → OnSome (IsLeaf s) o
  Later-IsLeaf s s1 later none h = tt
  Later-IsLeaf s s1 later (some x) (low, high, on) =
      (low, high, (on.0, omega (arith, later.1, on.1)))

  walk-IsLeaf :
      (fuel a : ℕ) (s : Sixdepak)
      → IsInner a
      → IsInside s
      → left s < fuel
      → Returns (OnSome (IsLeaf s)) (walk b fuel a s)
  unfolding walk
  walk-IsLeaf zero a s at h enough = absurd (omega arith)
  walk-IsLeaf (suc fuel) a s at h enough =
      let L = OnSome (IsLeaf s) in
      let in_a : ltb a 1775 ≡ true = ground (arith, at) in
      Returns-option (λ (x : Bool × Sixdepak). Later s x.1) L (next_bit b s) _ _
        (next_bit-BitRead s h) tt
        (λ x later.
          let t = x.1.tree in
          let child =
            if_both (Returns (λ (a1 : ℕ). (2 ≤ a1) × (a1 ≤ 3549))) x.0 (inner a t.rghtc)
              (inner a t.leftc) (rw (in_a, Returns) (later.0.tree.rights a at).0)
              (rw (in_a, Returns) (later.0.tree.lefts a at).0) in
          Returns-bind (λ (a1 : ℕ). (2 ≤ a1) × (a1 ≤ 3549)) L
            (if x.0 then inner a t.rghtc else inner a t.leftc) _ child
            (λ a1 (low, high).
              if_split (Returns L) (leb a1 1774) _ _
                (λ on.
                  Returns-map (OnSome (IsLeaf x.1)) L (walk b fuel a1 x.1)
                    (Later-IsLeaf s x.1 later)
                    (walk-IsLeaf fuel a1 x.1 (omega arith, ground arith) later.0
                      (omega (arith, later.1))))
                (λ off. (ground arith, high, later))))

  -- A code that was read, and the model after it.
  abbrev pub IsCode : Sixdepak → ℕ × Sixdepak → Type 0
  IsCode s x = (x.0 ≤ 1774) × Later s x.1

  pub uncompress-IsCode : (s : Sixdepak) → IsInside s → Returns (OnSome (IsCode s)) (uncompress b s)
  unfolding uncompress
  uncompress-IsCode s h =
      Returns-option (IsLeaf s) (OnSome (IsCode s)) (walk b (suc (16 * b.input_size)) 1 s) _ _
        (walk-IsLeaf (suc (16 * b.input_size)) 1 s (omega arith, omega arith) h
          (omega (arith, h.bits)))
        tt
        (λ x (low, high, on).
          let code : x.0 - 1775 ≤ 1774 = omega arith in
          Returns-bind IsValid (OnSome (IsCode s)) (updatemodel (x.0 - 1775) x.1.tree) _
            (updatemodel-IsValid (x.0 - 1775) x.1.tree on.0.tree code)
            (λ t v. (
              code,
              (
                record {
                  tree = v;
                  in_input = on.0.in_input;
                  bits = on.0.bits;
                  counted = on.0.counted;
                  fits = on.0.fits;
                },
                on.1,
              ),
            )))

  -- Some of the input was read, or none.
  abbrev pub NoSooner : Sixdepak → ℕ × Sixdepak → Type 0
  NoSooner s x = IsInside x.1 × (left x.1 ≤ left s)

  pub inputcode-NoSooner :
      (n i code : ℕ) (s : Sixdepak)
      → IsInside s
      → i + n ≤ 14
      → Returns (NoSooner s) (inputcode b n i code s)
  unfolding inputcode bitvalue
  inputcode-NoSooner zero i code s h small = (h, omega arith)
  inputcode-NoSooner (suc n) i code s h small =
      let in_i : ltb i 14 ≡ true = ground arith in
      Returns-option (λ (x : Bool × Sixdepak). Later s x.1) (NoSooner s) (next_bit b s) _ _
        (next_bit-BitRead s h) (h, omega arith)
        (λ x later.
          let code1 = if x.0 then bit_or code (2 ^ i) else code in
          rw (in_i, Returns)
            (Returns-map (NoSooner x.1) (NoSooner s) (inputcode b n (i + 1) code1 x.1)
              (λ y on. (on.0, omega (arith, on.1, later.1)))
              (inputcode-NoSooner n (i + 1) code1 x.1 later.0 (omega arith))))
