-- ===== src/Surround/Mirror.antt =====
-- src/surroundopl.cpp: the copies of the registers, and that a write keeps them true.
use adplug.Base.{ℕ, ◌%◌, ◌^◌, ◌<◌, ◌≡◌, ◌≢◌, refl, ◌∙◌, arith}
use adplug.Base.{List, ◌∷◌, Option, none, some, ◌⊎◌, inl, inr, order_cases}
use adplug.Base.{false, ◌&&◌, ◌==◌, Bool-cases}
use adplug.Base.{Outcome, ok, ◌>>=◌, Returns, Returns-bind, Returns-map}
use adplug.Base.Opl.{Opl, write, selected, register}
use adplug.Surround.{Surround, write_b}
use adplug.Surround.Arrays.{get2, set2, IsStored, set2-IsStored}

abbrev pub or_zero : Option ℕ → ℕ
or_zero none = 0
or_zero (some v) = v

-- The array has, for every register of both chips, the byte of the last value that the chip received.
abbrev pub Shadows : List (List ℕ) → Opl → Type 0
Shadows regs o =
    (chip reg : ℕ)
    → chip < 2
    → reg < 256
    → get2 regs chip reg ≡ ok (or_zero (register chip reg o) % 2 ^ 8)

-- All places of an array for channels are there.
abbrev pub HasChannels : List (List ℕ) → Type 0
HasChannels rows = (chip c : ℕ) → chip < 2 → c < 9 → (v : ℕ) × (get2 rows chip c ≡ ok v)

-- The arrays shadow the two chips, and all three agree on the selected chip.
pub record Mirrors (s : Surround) : Type 0 where
  pub in_range : s.curr_chip < 2
  pub a_selected : selected s.opl_a ≡ s.curr_chip
  pub b_selected : selected s.opl_b ≡ s.curr_chip
  pub shadows_a : Shadows s.fm_reg s.opl_a
  pub shadows_b : Shadows s.tweaked_reg s.opl_b
  pub blocks : HasChannels s.tweaked_block
  pub fnums : HasChannels s.current_fnum

-- A write keeps the shadow.
module _ (regs : List (List ℕ)) (o : Opl) (chip reg val : ℕ) (shadows : Shadows regs o)
    (same : selected o ≡ chip) where
  elsewhere : (k r : ℕ) → (selected o == k && reg == r) ≡ false → (k ≢ chip) ⊎ (r ≢ reg)
  elsewhere k r e = elim (Bool-cases (selected o == k)) [
    | inl on_chip ↦ inr (λ e'. absurd (ground (arith, e')))
    | inr off ↦ inl (λ e'. absurd (ground (arith, e', same)))
  ]

  IsStored-Shadows :
      (regs' : List (List ℕ))
      → IsStored regs regs' chip reg (val % 2 ^ 8)
      → Shadows regs' (write reg val ∷ o)
  unfolding register
  IsStored-Shadows regs' is k r hk hr = elim (Bool-cases (selected o == k && reg == r)) [
    | inl here ↦
        let at_chip : chip ≡ k = ground (arith, same) in
        let at_reg : reg ≡ r = ground arith in rw (here, ← at_chip, ← at_reg) is.here
    | inr other ↦ rw other (is.others k r (elsewhere k r other) ∙ shadows k r hk hr)
  ]

  pub set2-Shadows :
      chip < 2
      → reg < 256
      → (regs' : List (List ℕ)) × (set2 regs chip reg (val % 2 ^ 8) ≡ ok regs')
        × Shadows regs' (write reg val ∷ o)
  set2-Shadows hc hr =
      let (regs', e, is) =
        set2-IsStored regs chip reg (val % 2 ^ 8) (or_zero (register chip reg o) % 2 ^ 8)
          (shadows chip reg hc hr) in
      (regs', e, IsStored-Shadows regs' is)

place_cases : (k i l j : ℕ) → ((k ≡ i) × (l ≡ j)) ⊎ ((k ≢ i) ⊎ (l ≢ j))
place_cases k i l j = elim (order_cases k i) [
  | inl lt ↦ inr (inl (λ e. absurd (omega arith)))
  | inr (inr gt) ↦ inr (inl (λ e. absurd (omega arith)))
  | inr (inl same) ↦ elim (order_cases l j) [
    | inl lt ↦ inr (inr (λ e. absurd (omega arith)))
    | inr (inr gt) ↦ inr (inr (λ e. absurd (omega arith)))
    | inr (inl same') ↦ inl (same, same')
  ]
]

-- A write to an array for channels keeps its places.
pub set2-HasChannels :
    (rows : List (List ℕ)) (chip c v : ℕ)
    → HasChannels rows
    → chip < 2
    → c < 9
    → (rows' : List (List ℕ)) × (set2 rows chip c v ≡ ok rows') × HasChannels rows'
set2-HasChannels rows chip c v has hc hl =
    let (w, there) = has chip c hc hl in
    let (rows', e, is) = set2-IsStored rows chip c v w there in
    (
      rows',
      e,
      λ k l hk hl'. elim (place_cases k chip l c) [
        | inl (at_chip, at_channel) ↦ (v, rw (at_chip, at_channel) is.here)
        | inr other ↦ let (x, ex) = has k l hk hl' in (x, is.others k l other ∙ ex)
      ],
    )

-- What a step of `write` promises: the shadows stay true, and the first chip gets no call.
abbrev pub Kept : Surround → Surround → Type 0
Kept s s' = Mirrors s' × (s'.opl_a ≡ s.opl_a) × (s'.curr_chip ≡ s.curr_chip)

pub write_b-Kept :
    (reg val : ℕ) (s : Surround) → Mirrors s → reg < 256 → Returns (Kept s) (write_b reg val s)
unfolding write_b
write_b-Kept reg val s m small =
    let (regs', e, shadows') =
      set2-Shadows s.tweaked_reg s.opl_b s.curr_chip reg val m.shadows_b m.b_selected m.in_range
        small in
    rw (e, Returns)
      (
        record {
          in_range = m.in_range;
          a_selected = m.a_selected;
          b_selected = unfold selected in m.b_selected;
          shadows_a = m.shadows_a;
          shadows_b = shadows';
          blocks = m.blocks;
          fnums = m.fnums;
        },
        refl,
        refl,
      )

-- A register may get an additional write before.
pub then_write_b-Kept :
    (reg val : ℕ) (s : Surround) (first : Outcome Surround)
    → reg < 256
    → Returns (Kept s) first
    → Returns (Kept s) (first >>= write_b reg val)
then_write_b-Kept reg val s first small h =
    Returns-bind (Kept s) (Kept s) first (write_b reg val) h (λ s1 (m1, a1, c1).
      Returns-map (Kept s1) (Kept s) (write_b reg val s1)
        (λ s2 (m2, a2, c2). (m2, a2 ∙ a1, c2 ∙ c1)) (write_b-Kept reg val s1 m1 small))
