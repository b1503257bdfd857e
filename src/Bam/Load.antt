-- ===== src/Bam/Load.antt =====
-- src/bam.cpp: `CbamPlayer::load`. `none` is the return of false.
use adplug.Base.{
  ℕ, suc, ◌+◌, ◌-◌, ◌%◌, ◌^◌, ◌≡◌, refl, arith, List, [], ◌∷◌, length, Option, none, some,
}
use adplug.Base.{
  Bool, true, false, not, if◌then◌else◌, Option-cases, inl, inr, Returns, Returns-map, All, ap,
}
use adplug.Base.{◌<◌, ◌≤◌, ◌++◌, ◌∙◌, length-append}
use mathlib.Core.Path.{subst}
use adplug.Base.Opl.{Opl, write, init}
use adplug.Base.Stream.{BinIo, read_bytes, length-read_bytes}
use adplug.Provider.{Provider, filesize}
use adplug.Base.Stream.{same_bytes}
use adplug.Bam.{Bam, rewind, update}
use adplug.Bam.Straight.{Straight, codes, IsStraight, sounds, Before}
use adplug.Bam.Playback.{Played, update-Played}

abbrev pub bam_id : List ℕ
bam_id = b'C' ∷ b'B' ∷ b'M' ∷ b'F' ∷ []

module _ (io : BinIo) where
  unfoldable pub load : Provider io → List ℕ → Opl → Option Bam
  load fp filename opl = elim (fp.open_file filename) [
    | none ↦ none
    | some f ↦
        let (file_size, f1) = filesize io f in
        let size = (file_size + 2 ^ 64 - 4) % 2 ^ 64 in
        let (id, f2) = io.read_buffer 4 f1 in
        if not (same_bytes id bam_id)
        then none
        else some (
            rewind (record {
              opl = opl;
              song = (read_bytes io size f2).0;
              del = 0;
              pos = 0;
              size = size;
              gosub = 0;
              songend = false;
              chorus = false;
              label = [];
            }))
  ]

-- What a loader leaves: nothing, or a song that is in its array as a whole, at its start on a chip in
-- OPL2 mode, with one label and no count defined.
abbrev pub IsLoaded : Opl → Option Bam → Type 0
IsLoaded opl none = Unit {0}
IsLoaded opl (some p) =
    (length p.song ≡ p.size)
    × (p.pos ≡ 0)
    × (p.del ≡ 0)
    × (length p.label ≡ 16)
    × (p.opl ≡ write 1 32 ∷ init ∷ opl)

rewind-IsLoaded :
    (b : Bool) (p : Bam)
    → length p.song ≡ p.size
    → IsLoaded p.opl (if b then none else some (rewind p))
unfolding rewind
rewind-IsLoaded true p all_there = tt
rewind-IsLoaded false p all_there = (all_there, refl, refl, refl, refl)

module _ (io : BinIo) (fp : Provider io) (filename : List ℕ) (opl : Opl) where
  load-IsLoaded : IsLoaded opl (load io fp filename opl)
  unfolding load
  load-IsLoaded = elim (Option-cases (fp.open_file filename)) [
    | inl e ↦ rw (e, load) tt
    | inr (f, e) ↦ rw (e, load) (rewind-IsLoaded _ _ (length-read_bytes io _ _))
  ]

  -- The first update of a file that was loaded, whose bytes behind the header are the commands `ss` and
  -- a wait of `n`: the chip receives the reset, the switch to OPL2 and what the commands mean, and the
  -- player waits as long as the file says.
  pub load-Played :
      (p : Bam) (ss : List Straight) (n : ℕ) (rest : List ℕ)
      → load io fp filename opl ≡ some p
      → p.song ≡ codes ss ++ (n ∷ rest)
      → length p.song < 2 ^ 63
      → All IsStraight ss
      → 128 ≤ n
      → Returns
          (λ (x : Bool × Bam).
            (x.1.opl ≡ sounds ss (write 1 32 ∷ init ∷ opl))
            × (x.1.del ≡ n - 127)
            × (x.1.pos ≡ length (codes ss) + 1))
          (update (suc (length ss)) p)
  load-Played p ss n rest e bytes short straight is_wait =
      let (all_there, at_start, still, labels, started) : IsLoaded opl (some p) =
        subst (IsLoaded opl) e load-IsLoaded in
      let h : Before (codes ss ++ (n ∷ rest)) p = record {
        here = rw at_start bytes;
        short = short;
        labels = labels;
      } in
      let some_byte = ap length bytes ∙ length-append (codes ss) (n ∷ rest) in
      Returns-map (Played ss n p) _ (update (suc (length ss)) p)
        (λ x y. (y.heard ∙ ap (sounds ss) started, y.waits, omega (arith, y.moved, at_start)))
        (update-Played ss n rest (suc (length ss)) p straight is_wait h still
          (omega (arith, some_byte, all_there, at_start)) (omega arith))
