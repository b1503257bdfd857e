-- ===== src/Surround/Writes.antt =====
-- src/surroundopl.cpp: `write`, `init` and `setchip` keep the copies of the registers true.
use adplug.Base.{ℕ, ◌+◌, ◌/◌, ◌%◌, ◌^◌, ◌<◌, ◌≡◌, refl, sym, ap, arith}
use adplug.Base.{bit_and, List, ◌∷◌, inl, inr}
use adplug.Base.{◌&&◌, ◌||◌, ◌==◌, ltb, leb, if◌then◌else◌, Bool-cases, if_both}
use adplug.Base.{ok, Returns, Returns-map}
use adplug.Base.{deref, replicate, get_elem?-replicate}
use adplug.Base.Bits.{bit_and-15}
use adplug.Base.Opl.{write, setchip, Command, selected, register}
use adplug.Surround.{Surround, Pitch, write_high, write_low, write_channel}
use adplug.Surround.{write_reg, with_pitch, init_all, select_chip, zeros}
use adplug.Surround.Arrays.{get2}
use adplug.Surround.Mirror.{Mirrors, Kept, set2-Shadows, set2-HasChannels}
use adplug.Surround.Mirror.{write_b-Kept, then_write_b-Kept}

module _ (reg c : ℕ) (small : reg < 256) (channel : c < 9) (s : Surround) (m : Mirrors s) where
  write_high-Kept : (val : ℕ) (new : ℕ × ℕ) → Returns (Kept s) (write_high reg c val new s)
  unfolding write_high
  write_high-Kept val (block, fnum) =
      let (blocks, eb, hb) =
        set2-HasChannels s.tweaked_block s.curr_chip c (block % 2 ^ 8) m.blocks m.in_range
          channel in
      let (fnums, ef, hf) =
        set2-HasChannels s.current_fnum s.curr_chip c (fnum % 2 ^ 8) m.fnums m.in_range channel in
      let s1 : Surround = record s { tweaked_block = blocks; current_fnum = fnums } in
      let m1 : Mirrors s1 = record {
        in_range = m.in_range;
        a_selected = m.a_selected;
        b_selected = m.b_selected;
        shadows_a = m.shadows_a;
        shadows_b = m.shadows_b;
        blocks = hb;
        fnums = hf;
      } in
      let low = m.shadows_b s.curr_chip (0xa0 + c) m.in_range (omega arith) in
      rw (eb, ef, low)
        (then_write_b-Kept reg (with_pitch val block fnum) s _ small (
          if_both (Returns (Kept s)) _ (ok s1) _ (m1, refl, refl)
            (write_b-Kept (0xa0 + c) (bit_and fnum 0xff) s1 m1 (omega arith))))

  write_low-Kept : (new : ℕ × ℕ) → Returns (Kept s) (write_low reg c new s)
  unfolding write_low
  write_low-Kept (block, fnum) =
      let high = m.shadows_a s.curr_chip (0xb0 + c) m.in_range (omega arith) in
      let old_b0 = m.shadows_b s.curr_chip (0xb0 + c) m.in_range (omega arith) in
      rw (high, old_b0)
        (then_write_b-Kept reg (bit_and fnum 0xff) s _ small (
          if_both (Returns (Kept s)) _ (ok s) _ (m, refl, refl)
            (write_b-Kept (0xb0 + c) _ s m (omega arith))))

write_channel-Kept :
    (pitch : Pitch) (reg val : ℕ) (s : Surround)
    → Mirrors s
    → reg < 256
    → Returns (Kept s) (write_channel pitch reg (bit_and reg 0x0f) val s)
unfolding write_channel
write_channel-Kept pitch reg val s m small =
    let c = bit_and reg 0x0f in
    let c_lt : c < 16 = omega (arith, bit_and-15 reg) in
    let high = m.shadows_a s.curr_chip (0xb0 + c) m.in_range (omega arith) in
    let low = m.shadows_a s.curr_chip (0xa0 + c) m.in_range (omega arith) in
    rw (high, low)
      (elim (Bool-cases (leb 0xb0 reg && leb reg 0xb8)) [
        | inl e ↦
            let channel : c < 9 = ground (arith, bit_and-15 reg) in
            rw e (write_high-Kept reg c small channel s m val _)
        | inr e ↦ rw e (elim (Bool-cases (leb 0xa0 reg && leb reg 0xa8)) [
          | inl e' ↦
              let channel : c < 9 = ground (arith, bit_and-15 reg) in
              rw e' (write_low-Kept reg c small channel s m _)
          | inr e' ↦ rw e' (write_b-Kept reg val s m small)
        ])
      ])

-- A call to the first chip and to the wrapper at once.
abbrev pub Passed : Command → Surround → Surround → Type 0
Passed call s s' = Mirrors s' × (s'.opl_a ≡ call ∷ s.opl_a)

pub write_reg-Passed :
    (pitch : Pitch) (reg val : ℕ) (s : Surround)
    → Mirrors s
    → reg < 256
    → Returns (Passed (write reg val) s) (write_reg pitch reg val s)
unfolding write_reg
write_reg-Passed pitch reg val s m small =
    let (regs', e, shadows') =
      set2-Shadows s.fm_reg s.opl_a s.curr_chip reg val m.shadows_a m.a_selected m.in_range small in
    let s1 : Surround = record s { opl_a = write reg val ∷ s.opl_a; fm_reg = regs' } in
    let m1 : Mirrors s1 = record {
      in_range = m.in_range;
      a_selected = unfold selected in m.a_selected;
      b_selected = m.b_selected;
      shadows_a = shadows';
      shadows_b = m.shadows_b;
      blocks = m.blocks;
      fnums = m.fnums;
    } in
    rw e (
      Returns-map (Kept s1) (Passed (write reg val) s) _ (λ s2 (m2, a2, _). (m2, a2))
        (if_both (Returns (Kept s1)) (reg / 2 ^ 4 == 0xa || reg / 2 ^ 4 == 0xb) _ _
          (write_channel-Kept pitch reg val s1 m1 small) (write_b-Kept reg val s1 m1 small)))

pub select_chip-Passed : (n : ℕ) (s : Surround) → Mirrors s → Passed (setchip n) s (select_chip n s)
unfolding select_chip selected register
select_chip-Passed n s m = (
  record {
    in_range = ground (arith, m.in_range);
    a_selected = ap (λ c. if ltb n 2 then n else c) m.a_selected;
    b_selected = ap (λ c. if ltb n 2 then n else c) m.b_selected;
    shadows_a = m.shadows_a;
    shadows_b = m.shadows_b;
    blocks = m.blocks;
    fnums = m.fnums;
  },
  refl,
)

pub zeros-places : (n i j : ℕ) → i < 2 → j < n → get2 (zeros n) i j ≡ ok 0
zeros-places n i j hi hj =
    let row : List ℕ = replicate n 0 in
    rw (get_elem?-replicate 2 i row hi) (ap deref (get_elem?-replicate n j 0 hj))

pub init_all-Mirrors : (s : Surround) → s.curr_chip ≡ 0 → Mirrors (init_all s)
unfolding init_all selected register
init_all-Mirrors s first = record {
  in_range = omega (arith, first);
  a_selected = sym first;
  b_selected = sym first;
  shadows_a = zeros-places 256;
  shadows_b = zeros-places 256;
  blocks = λ chip c hk hc. (0, zeros-places 9 chip c hk hc);
  fnums = λ chip c hk hc. (0, zeros-places 9 chip c hk hc);
}
