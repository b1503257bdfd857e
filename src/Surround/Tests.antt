-- ===== src/Surround/Tests.antt =====
-- A note on the first channel of the second chip, and a reset behind it.
use adplug.Base.{[], ◌∷◌, refl, arith, ◌≡◌, ◌⊎◌, Returns, List}
use adplug.Base.Opl.{Command, write, setchip, register}
use adplug.Surround.{Surround, write_reg, init_all, move_block, transpose, zeros}
use adplug.Surround.Calls.{Heard, perform_all, perform_all-init_all, write_reg-init_all_parted}
use adplug.Base.{some, ok}
use adplug.Surround.Arrays.{get2}
use adplug.Surround.Pitches.{default_pitch, Raised, Stays, transpose-default}

abbrev silent : Surround
silent = record {
  opl_a = [];
  opl_b = [];
  curr_chip = 0;
  fm_reg = zeros 256;
  tweaked_reg = zeros 256;
  tweaked_block = zeros 9;
  current_fnum = zeros 9;
}

abbrev a_note : List Command
a_note = setchip 1 ∷ write 0xa0 0x98 ∷ write 0xb0 0x31 ∷ []

perform_all-init_all_example :
    Returns (Heard a_note (init_all silent)) (perform_all default_pitch a_note (init_all silent))
perform_all-init_all_example =
    perform_all-init_all default_pitch a_note silent refl (tt, (omega arith, (omega arith, tt)))

write_reg-init_all_parted_example :
    Returns
      (λ s'.
        (register 0 0x20 s'.opl_a ≡ some 1)
        × (register 0 0x20 s'.opl_b ≡ some 1)
        × (get2 s'.fm_reg 0 0x20 ≡ ok 0)
        × (get2 s'.fm_reg 1 0x20 ≡ ok 1))
      (write_reg default_pitch 0x20 1 (init_all (record silent { curr_chip = 1 })))
write_reg-init_all_parted_example =
    write_reg-init_all_parted default_pitch 0x20 1 (record silent { curr_chip = 1 }) refl
      (omega arith)

transpose-default_example :
    Raised 4 1000 (transpose default_pitch 4 1000) ⊎ Stays 4 1000 (transpose default_pitch 4 1000)
transpose-default_example = transpose-default 4 1000 (omega arith) (omega arith)

raised : transpose default_pitch 4 1000 ≡ (5, 503)
unfolding transpose move_block
raised = refl
