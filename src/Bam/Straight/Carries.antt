-- ===== src/Bam/Straight/Carries.antt =====
-- src/bam.cpp: a round of the loop of `update` carries out a command of a song without jumps.
use adplug.Base.{ℕ, suc, ◌+◌, ◌*◌, ◌%◌, ◌^◌, ◌<◌, ◌≡◌, refl, sym, ap, ◌∙◌, arith}
use adplug.Base.{bit_and, List, [], ◌∷◌, ◌++◌, length, get_elem?, drop, set, some}
use adplug.Base.{true, ltb, Bool-cases, inl, inr}
use adplug.Base.{get_elem?-drop, drop-drop, length-set}
use adplug.Base.{get_elem?-of_le, get_elem?-of_lt, ok}
use adplug.Base.Bits.{bit_and-15, bit_and-240, bit_and-255}
use adplug.Base.Loops.{next_round}
use adplug.Base.Opl.{write}
use adplug.Player.{op_table}
use adplug.Bam.{Bam, Label, skip, start_note, stop_note, write_regs, instrument_regs}
use adplug.Bam.{define_instrument, set_label, command, round}
use adplug.Bam.Straight.{
  Straight, note, stop, instrument, mark, reserved, code, IsStraight, write_all, sound, Before,
  byte_at-ok, skip-Before,
}

-- A command was carried out: the position is behind it.
pub record Carried (s : Straight) (tail : List ℕ) (p q : Bam) : Type 0 where
  pub before : Before tail q
  pub heard : q.opl ≡ sound s p.opl
  pub moved : q.pos ≡ p.pos + length (code s)
  pub going : q.songend ≡ p.songend

abbrev pub Carries : Straight → List ℕ → Bam → Type 0
Carries s tail p = (q : Bam) × (round p ≡ ok (next_round q)) × Carried s tail p q

-- The byte `high * 16 + c` is the command `high * 16` for `c`.
round-command :
    (high c : ℕ) (ahead : List ℕ) (p q : Bam)
    → c < 16
    → high < 8
    → Before ((16 * high + c) ∷ ahead) p
    → command (16 * high) c p ≡ ok q
    → round p ≡ ok (next_round q)
unfolding round
round-command high c ahead p q small low h e =
    let b = 16 * high + c in
    let read = byte_at-ok (b ∷ ahead) p 0 b h refl in
    let is_command : ltb b 128 ≡ true = ground arith in
    let cmd : bit_and b 240 ≡ 16 * high = omega (arith, bit_and-240 b) in
    let chan : bit_and b 15 ≡ c = omega (arith, bit_and-15 b) in rw (read, is_command, cmd, chan, e)

module _ (tail : List ℕ) (p : Bam) where
  note-Carries :
      (c n f : ℕ)
      → IsStraight (note c n f)
      → Before (code (note c n f) ++ tail) p
      → Carries (note c n f) tail p
  unfolding start_note command skip
  note-Carries c n f (small, known) h =
      let read = byte_at-ok ((16 + c) ∷ n ∷ tail) p 1 n h refl in
      let (up, b) = skip-Before ((16 + c) ∷ n ∷ []) tail p h (omega arith) in
      let q : Bam = skip 2 (record p { opl = sound (note c n f) p.opl }) in
      let as_note : start_note c p ≡ ok q = elim (Bool-cases (ltb c 9)) [
        | inl e ↦ rw (e, read, known, bit_and-255 f) refl
        | inr e ↦ rw e refl
      ] in
      (
        q,
        round-command 1 c (n ∷ tail) p q small (omega arith) h as_note,
        record { before = b; heard = refl; moved = up; going = refl },
      )

  stop-Carries : (c : ℕ) → c < 16 → Before ((32 + c) ∷ tail) p → Carries (stop c) tail p
  unfolding stop_note command skip
  stop-Carries c small h =
      let (up, b) = skip-Before ((32 + c) ∷ []) tail p h (omega arith) in
      let q : Bam = skip 1 (record p { opl = sound (stop c) p.opl }) in
      let stopped : stop_note c p ≡ q = elim (Bool-cases (ltb c 9)) [
        | inl e ↦ rw e refl
        | inr e ↦ rw e refl
      ] in
      (
        q,
        round-command 2 c tail p q small (omega arith) h (ap ok stopped),
        record { before = b; heard = refl; moved = up; going = refl },
      )

  reserved-Carries : (c : ℕ) → c < 16 → Before ((64 + c) ∷ tail) p → Carries (reserved c) tail p
  unfolding command skip
  reserved-Carries c small h =
      let (up, b) = skip-Before ((64 + c) ∷ []) tail p h (omega arith) in
      (
        skip 1 p,
        round-command 4 c tail p (skip 1 p) small (omega arith) h refl,
        record { before = b; heard = refl; moved = up; going = refl },
      )

  mark-Carries : (c : ℕ) → c < 16 → Before ((80 + c) ∷ tail) p → Carries (mark c) tail p
  unfolding set_label command skip
  mark-Carries c small h =
      let (up, b) = skip-Before ((80 + c) ∷ []) tail p h (omega arith) in
      let (l, there) = get_elem?-of_lt p.label c (omega (arith, h.labels)) in
      let l' : Label = record l { target = (p.pos + 1) % 2 ^ 64; defined = true } in
      let q : Bam = record (skip 1 p) { label = set p.label c l' } in
      (
        q,
        round-command 5 c tail p q small (omega arith) h (rw there refl),
        record {
          before = record {
            here = b.here;
            short = b.short;
            labels = length-set p.label c l' ∙ h.labels;
          };
          heard = refl;
          moved = up;
          going = refl;
        },
      )

-- The registers get the values that stand from the place `i` on.
write_regs-ok :
    (regs vals tail ahead : List ℕ) (i : ℕ) (p : Bam)
    → Before ahead p
    → drop i ahead ≡ vals ++ tail
    → length vals ≡ length regs
    → write_regs regs i p ≡ ok (record p { opl = write_all regs vals p.opl })
unfolding write_regs
write_regs-ok [] vals tail ahead i p h there same = refl
write_regs-ok (reg ∷ regs) [] tail ahead i p h there same = absurd (omega arith)
write_regs-ok (reg ∷ regs) (val ∷ vals) tail ahead i p h there same =
    let plus_zero : i + 0 ≡ i = omega arith in
    let plus_one : i + 1 ≡ suc i = omega arith in
    let here : get_elem? ahead i ≡ some val =
      ap (get_elem? ahead) (sym plus_zero)
      ∙ sym (get_elem?-drop i 0 ahead)
      ∙ ap (λ xs. get_elem? xs 0) there in
    let rest : drop (suc i) ahead ≡ vals ++ tail =
      ap (λ n. drop n ahead) (sym plus_one) ∙ sym (drop-drop i 1 ahead) ∙ ap (drop 1) there in
    rw (byte_at-ok ahead p i val h here) (
      write_regs-ok regs vals tail ahead (suc i) (record p { opl = write reg val ∷ p.opl }) h rest
        (omega arith))

instrument-Carries :
    (tail : List ℕ) (p : Bam) (c : ℕ) (vals : List ℕ)
    → IsStraight (instrument c vals)
    → Before (code (instrument c vals) ++ tail) p
    → Carries (instrument c vals) tail p
unfolding define_instrument command skip
instrument-Carries tail p c vals (small, eleven) h =
    let bytes = (48 + c) ∷ vals in
    let size : length bytes ≡ 12 = omega arith in
    let (up, b) = skip-Before bytes tail p h (omega arith) in
    let q : Bam = record p {
      opl = sound (instrument c vals) p.opl;
      pos = (p.pos + length bytes) % 2 ^ 64;
    } in
    let defined : define_instrument c p ≡ ok q = elim (Bool-cases (ltb c 9)) [
      | inl e ↦
          let (op, there) = get_elem?-of_lt op_table c (ground arith) in
          let written =
            write_regs-ok (instrument_regs op c) vals tail (bytes ++ tail) 1 p h refl eleven in
          rw (e, there, written, size) refl
      | inr e ↦ rw (e, get_elem?-of_le op_table c (ground arith), size) refl
    ] in
    (
      q,
      round-command 3 c (vals ++ tail) p q small (omega arith) h defined,
      record { before = b; heard = refl; moved = up; going = refl },
    )

pub straight-Carries :
    (s : Straight) (tail : List ℕ) (p : Bam)
    → IsStraight s
    → Before (code s ++ tail) p
    → Carries s tail p
straight-Carries (note c n f) tail p is h = note-Carries tail p c n f is h
straight-Carries (stop c) tail p is h = stop-Carries tail p c is h
straight-Carries (instrument c vals) tail p is h = instrument-Carries tail p c vals is h
straight-Carries (mark c) tail p is h = mark-Carries tail p c is h
straight-Carries (reserved c) tail p is h = reserved-Carries tail p c is h
