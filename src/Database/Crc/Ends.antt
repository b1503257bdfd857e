-- ===== src/Database/Crc/Ends.antt =====
-- src/database.cpp: the loop of `CKey::make` comes to the end of the stream.
use adplug.Base.{ℕ, zero, suc, ◌<◌, ◌≡◌, ◌∙◌, refl, arith, Bool-cases, inl, inr, true}
use adplug.Base.{Returns, Returns-map, Returns-bind, ◌%◌, ◌^◌}
use adplug.Base.Stream.{BinIo, IsLawful}
use adplug.Database.{Key}
use adplug.Database.Crc.{Crc, byte_step, crc_start, make_loop, make}

module _ (io : BinIo) (lawful : IsLawful io) where
  -- At the end of the file that `s` is in.
  abbrev pub IsAtEnd {κ} : {A : Type κ} → io.Stream → A × io.Stream → Type 0
  IsAtEnd s x = (io.eof x.1 ≡ true) × (io.pos (io.seek_end x.1) ≡ io.pos (io.seek_end s))

  make_loop-Returns :
      (fuel : ℕ) (s : io.Stream) (c : Crc)
      → io.left s < fuel
      → Returns (IsAtEnd s) (make_loop io fuel s c)
  unfolding make_loop
  make_loop-Returns zero s c room = absurd (omega arith)
  make_loop-Returns (suc fuel) s c room = elim (Bool-cases (io.eof s)) [
    | inl e ↦ rw (e, Returns) (e, refl)
    | inr e ↦
        let (byte, s') = io.read_int 1 s in
        rw e (
          Returns-map (IsAtEnd s') (IsAtEnd s) _ (λ x h. (h.0, h.1 ∙ lawful.end-read_int 1 s))
            (make_loop-Returns fuel s' (byte_step c (byte % 2 ^ 8))
              (omega (arith, lawful.left-read_int s e))))
  ]

  pub make-IsAtEnd : (s : io.Stream) → Returns (IsAtEnd s) (make io s)
  unfolding make
  make-IsAtEnd s =
      Returns-bind (IsAtEnd s) (IsAtEnd s) (make_loop io (suc (io.left s)) s crc_start) _
        (make_loop-Returns (suc (io.left s)) s crc_start (omega arith)) (λ x e. e)

  -- `CKey::make` ends on every stream, at its end.
  pub make-Returns :
      (s : io.Stream) → Returns (λ (x : Key × io.Stream). io.eof x.1 ≡ true) (make io s)
  make-Returns s =
      Returns-map (IsAtEnd s) (λ (x : Key × io.Stream). io.eof x.1 ≡ true) (make io s) (λ x h. h.0)
        (make-IsAtEnd s)
