-- ===== src/Base/Opl.antt =====
-- src/opl.h and src/silentopl.h: the OPL chip as its callers see it. `Copl` is abstract; what a
-- player does to its chip is the sequence of calls it makes, and `getchip` reads the selected chip.
use Prim.Native.Nat.{ℕ}
use mathlib.Core.Bool.{◌&&◌}
use mathlib.Core.Option.{Option, none, some}
use adplug.Base.Tests.{◌==◌, ltb, if◌then◌else◌}
use mathlib.Core.List.{List, [], ◌∷◌}

pub data Command : Type 0 where
  write : ℕ → ℕ → Command
  setchip : ℕ → Command
  init : Command

-- The calls made so far, the last one first.
abbrev pub Opl : Type 0
Opl = List Command

-- What the calls mean: the chip that is selected, and the last value that a register of a chip was
-- given since the last reset.
unfoldable pub selected : Opl → ℕ
selected [] = 0
selected (write reg val ∷ o) = selected o
selected (setchip n ∷ o) = if ltb n 2 then n else selected o
selected (init ∷ o) = 0

unfoldable pub register : ℕ → ℕ → Opl → Option ℕ
register chip reg [] = none
register chip reg (write r val ∷ o) =
    if selected o == chip && r == reg then some val else register chip reg o
register chip reg (setchip n ∷ o) = register chip reg o
register chip reg (init ∷ o) = none
