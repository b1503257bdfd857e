-- ===== src/Bam/Broken.antt =====
-- src/bam.cpp: songs on which `update` does not return.
use adplug.Base.{ℕ, zero, suc, ◌+◌, ◌*◌, ◌%◌, ◌^◌, ◌≤◌, ◌<◌, ◌≡◌, bit_and, arith}
use adplug.Base.{length, get_elem?, some, true, false, ◌==◌, ltb, leb, Outcome, ok, fault, stuck}
use adplug.Base.{lt-of_get_elem?, get_elem?-of_le, refl, ◌>>=◌}
use adplug.Base.Bits.{bit_and-15, bit_and-240}
use adplug.Base.Loops.{next_round, rounds}
use adplug.Bam.{Bam, Label, freq, byte_at, start_note, jump, command, round, update}

-- The loop is about to read the byte `b`.
pub record Reads (b : ℕ) (p : Bam) : Type 0 where
  pub here : get_elem? p.song p.pos ≡ some b
  pub short : length p.song < 2 ^ 63
  pub playing : p.del ≡ 0
  pub inside : p.pos < p.size

module _ (high c : ℕ) (p : Bam) (small : c < 16) (low : high < 8)
    (h : Reads (16 * high + c) p) where
  round-command :
      (r : Outcome Bam) → command (16 * high) c p ≡ r → round p ≡ (do p' ← r; ok (next_round p'))
  unfolding round byte_at
  round-command r e =
      let b = 16 * high + c in
      let there = lt-of_get_elem? p.song p.pos b h.here in
      let same : (p.pos + 0) % 2 ^ 64 ≡ p.pos = omega (arith, h.short, there) in
      let is_command : ltb b 128 ≡ true = ground arith in
      let cmd : bit_and b 240 ≡ 16 * high = omega (arith, bit_and-240 b) in
      let chan : bit_and b 15 ≡ c = omega (arith, bit_and-15 b) in
      rw (same, h.here, is_command, cmd, chan, e) refl

  update-rounds : (fuel : ℕ) → update fuel p ≡ rounds fuel round p
  unfolding update
  update-rounds fuel =
      let at_rest : (p.del == 0) ≡ true = ground (arith, h.playing) in
      let in_song : leb p.size p.pos ≡ false = ground (arith, h.inside) in
      rw (at_rest, in_song) refl

hanging : (fuel : ℕ) (p : Bam) → round p ≡ ok (next_round p) → rounds fuel round p ≡ stuck
unfolding rounds
hanging zero p e = refl
hanging (suc fuel) p e = rw e (hanging fuel p e)

-- `update` never returns from a jump to a label that is not defined: it carries the jump out again and
-- again, since it neither jumps nor goes on to the next command.
pub update-hangs :
    (c : ℕ) (l : Label) (p : Bam)
    → c < 16
    → Reads (96 + c) p
    → get_elem? p.label c ≡ some l
    → l.defined ≡ false
    → (fuel : ℕ) → update fuel p ≡ stuck
unfolding jump command
update-hangs c l p small h there undefined fuel =
    let again : round p ≡ ok (next_round p) =
      round-command 6 c p small (omega arith) h (ok p) (rw (there, undefined) refl) in
    rw (update-rounds 6 c p small (omega arith) h fuel) (hanging fuel p again)

-- The table of frequencies has 127 entries, so that to start the note 127, or a byte that is no note,
-- on one of the nine channels reads behind the table.
pub update-overruns :
    (c n : ℕ) (p : Bam)
    → c < 9
    → 127 ≤ n
    → Reads (16 + c) p
    → get_elem? p.song (p.pos + 1) ≡ some n
    → (fuel : ℕ) → update (suc fuel) p ≡ fault
unfolding start_note command rounds byte_at
update-overruns c n p small high h next fuel =
    let is_channel : ltb c 9 ≡ true = ground arith in
    let there = lt-of_get_elem? p.song (p.pos + 1) n next in
    let same : (p.pos + 1) % 2 ^ 64 ≡ p.pos + 1 = omega (arith, h.short, there) in
    let no_note = get_elem?-of_le freq n high in
    let faults : round p ≡ fault =
      round-command 1 c p (omega arith) (omega arith) h fault
        (rw (is_channel, same, next, no_note) refl) in
    rw (update-rounds 1 c p (omega arith) (omega arith) h (suc fuel), faults) refl
