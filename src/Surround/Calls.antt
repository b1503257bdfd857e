-- ===== src/Surround/Calls.antt =====
-- src/surroundopl.cpp: sequences of calls, and what `init` leaves apart.
use adplug.Base.{ℕ, ◌/◌, ◌%◌, ◌^◌, ◌<◌, ◌≡◌, refl, sym, ap, ◌∙◌, arith}
use adplug.Base.{List, ◌∷◌, inl}
use adplug.Base.{some, false, true, ◌||◌, ◌==◌}
use adplug.Base.{Outcome, ok, ◌>>=◌, Returns, Returns-bind, Returns-map}
use adplug.Base.{All, [], ◌++◌}
use mathlib.Core.List.{reverse, reverse-cons, append_assoc}
use adplug.Base.{==_refl}
use adplug.Base.Opl.{Opl, write, setchip, init, Command, selected, register}
use adplug.Surround.{Surround, Pitch, write_b}
use adplug.Surround.{write_reg, init_all, select_chip, zeros}
use adplug.Surround.Arrays.{get2, set2-IsStored}
use adplug.Surround.Mirror.{Mirrors}
use adplug.Surround.Writes.{
  Passed, write_reg-Passed, select_chip-Passed, zeros-places, init_all-Mirrors,
}

-- The calls that a player makes between two resets.
abbrev pub IsCall : Command → Type 0
IsCall (write reg val) = reg < 256
IsCall (setchip n) = Unit {0}
IsCall init = ⊥

abbrev pub perform : Pitch → Command → Surround → Outcome Surround
perform pitch (write reg val) s = write_reg pitch reg val s
perform pitch (setchip n) s = ok (select_chip n s)
perform pitch init s = ok (init_all s)

pub perform_all : Pitch → List Command → Surround → Outcome Surround
perform_all pitch [] s = ok s
perform_all pitch (call ∷ calls) s = do s' ← perform pitch call s; perform_all pitch calls s'

perform-Passed :
    (pitch : Pitch) (call : Command) (s : Surround)
    → IsCall call
    → Mirrors s
    → Returns (Passed call s) (perform pitch call s)
perform-Passed pitch (write reg val) s small m = write_reg-Passed pitch reg val s m small
perform-Passed pitch (setchip n) s is m = select_chip-Passed n s m
perform-Passed pitch init s is m = absurd is

-- The calls arrive as they were made, and the copies are true.
abbrev pub Heard : List Command → Surround → Surround → Type 0
Heard calls s s' = Mirrors s' × (s'.opl_a ≡ reverse calls ++ s.opl_a)

reverse-cons_append :
    (call : Command) (calls o : Opl) → reverse (call ∷ calls) ++ o ≡ reverse calls ++ (call ∷ o)
reverse-cons_append call calls o =
    ap (λ l. l ++ o) (reverse-cons call calls) ∙ append_assoc (reverse calls) (call ∷ []) o

perform_all-Heard :
    (pitch : Pitch) (calls : List Command) (s : Surround)
    → All IsCall calls
    → Mirrors s
    → Returns (Heard calls s) (perform_all pitch calls s)
unfolding perform_all
perform_all-Heard pitch [] s are m = (m, refl)
perform_all-Heard pitch (call ∷ calls) s (is, are) m =
    Returns-bind (Passed call s) (Heard (call ∷ calls) s) (perform pitch call s) _
      (perform-Passed pitch call s is m)
      (λ s1 (m1, a1).
        Returns-map (Heard calls s1) (Heard (call ∷ calls) s) (perform_all pitch calls s1)
          (λ s2 (m2, a2). (
            m2,
            a2 ∙ ap (λ o. reverse calls ++ o) a1 ∙ sym (reverse-cons_append call calls s.opl_a),
          ))
          (perform_all-Heard pitch calls s1 are m1))

-- After `init` with the first chip selected, any writes to registers below 256 and selections of chips
-- end without an access outside of the arrays. The first chip has received the reset and the calls as
-- they were made, the arrays have the byte of what each register of the two chips got last, and the
-- wrapper and both chips agree on the selected chip, whatever the offset is.
pub perform_all-init_all :
    (pitch : Pitch) (calls : List Command) (s : Surround)
    → s.curr_chip ≡ 0
    → All IsCall calls
    → Returns (Heard calls (init_all s)) (perform_all pitch calls (init_all s))
perform_all-init_all pitch calls s first are =
    perform_all-Heard pitch calls (init_all s) are (init_all-Mirrors s first)

below_frequencies : (reg : ℕ) → reg < 0xa0 → (reg / 2 ^ 4 == 0xa || reg / 2 ^ 4 == 0xb) ≡ false
below_frequencies reg low = ground arith

-- After `init` with the second chip selected a write to a register below those of the frequencies goes to
-- the first chip of both, while the wrapper's copies have it for the second chip and zero for the
-- first.
pub write_reg-init_all_parted :
    (pitch : Pitch) (reg val : ℕ) (s : Surround)
    → s.curr_chip ≡ 1
    → reg < 0xa0
    → Returns
        (λ s'.
          (register 0 reg s'.opl_a ≡ some val)
          × (register 0 reg s'.opl_b ≡ some val)
          × (get2 s'.fm_reg 0 reg ≡ ok 0)
          × (get2 s'.fm_reg 1 reg ≡ ok (val % 2 ^ 8)))
        (write_reg pitch reg val (init_all s))
unfolding write_reg write_b init_all selected register
write_reg-init_all_parted pitch reg val s second low =
    let (fm, e, stored) =
      set2-IsStored (zeros 256) 1 reg (val % 2 ^ 8) 0
        (zeros-places 256 1 reg (omega arith) (omega arith)) in
    let no_frequency = below_frequencies reg low in
    let written : (reg == reg) ≡ true = ==_refl reg in
    let other = stored.others 0 reg (inl (λ z. absurd (omega arith))) in
    rw (second, e, no_frequency, written, Returns)
      (refl, refl, other ∙ zeros-places 256 0 reg (omega arith) (omega arith), stored.here)
