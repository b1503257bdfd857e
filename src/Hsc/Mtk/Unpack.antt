-- ===== src/Hsc/Mtk/Unpack.antt =====
-- src/mtk.cpp: `CmtkLoader::load` unpacks inside of its buffer, and fills it.
use adplug.Base.{ℕ, zero, suc, ◌+◌, ◌-◌, ◌/◌, ◌^◌, ◌≤◌, ◌<◌, ◌≡◌, refl, ap, arith}
use adplug.Base.{bit_and, List, ◌∷◌, length, replicate, length-append}
use adplug.Base.{length-replicate, get_elem?-of_lt, Bool, true, false, ◌||◌, ◌==◌}
use adplug.Base.{ltb, leb, if◌then◌else◌, if_both, if_split}
use adplug.Base.{ok, Returns, Returns-bind, Returns-map}
use adplug.Base.Loops.{Progress, next_round, rounds-Returns}
use adplug.Base.Stream.{BinIo}
use adplug.Hsc.Mtk.{Unpacked, Turn, store, copy_bytes, next_ctrl, repeat_byte, copy_range, command}
use adplug.Hsc.Mtk.{round, unpack, next_byte}

copy_bytes-length :
    (n offs : ℕ) (org : List ℕ)
    → 1 ≤ offs
    → offs ≤ length org
    → Returns (λ (o : List ℕ). length o ≡ n + length org) (copy_bytes n offs org)
unfolding copy_bytes
copy_bytes-length zero offs org back inside = omega arith
copy_bytes-length (suc n) offs org back inside =
    let (b, e) = get_elem?-of_lt org (offs - 1) (omega arith) in
    rw e (
      Returns-map (λ (o : List ℕ). length o ≡ n + length (b ∷ org))
        (λ (o : List ℕ). length o ≡ suc n + length org) (copy_bytes n offs (b ∷ org))
        (λ o l. omega arith) (copy_bytes-length n offs (b ∷ org) back (omega arith)))

module _ (io : BinIo) (size : ℕ) where
  abbrev State : Type 0
  State = Unpacked × io.Stream

  abbrev Fits : State → Type 0
  Fits x = (length x.0.org ≡ x.0.orgptr) × (x.0.orgptr ≤ size)

  -- All bytes are there, if that is what the loop returns.
  abbrev pub Ends : Bool × State → Type 0
  Ends (true, x) = length x.0.org ≡ size
  Ends (false, x) = Unit {0}

  abbrev room : State → ℕ
  room x = size - x.0.orgptr

  abbrev Turns : ℕ → Turn io size → Type 0
  Turns = Progress Fits Ends room

  repeat_byte-Turns :
      (cnt : ℕ) (s : Unpacked) (f : io.Stream)
      → length s.org ≡ s.orgptr
      → 1 ≤ cnt
      → Returns (Turns (size - s.orgptr)) (repeat_byte io size cnt s f)
  unfolding repeat_byte
  repeat_byte-Turns cnt s f l much =
      let byte = (next_byte io size f).0 in
      if_split (Returns (Turns (size - s.orgptr))) (ltb size (s.orgptr + cnt)) _ _ (λ over. tt)
        (λ on.
          let inside : s.orgptr + cnt ≤ size = ground arith in
          (
            (
              omega (arith, length-append (replicate cnt byte) s.org, length-replicate cnt byte, l),
              inside,
            ),
            omega arith,
          ))

  copy_range-Turns :
      (offs cnt : ℕ) (s : Unpacked) (f : io.Stream)
      → length s.org ≡ s.orgptr
      → 1 ≤ offs
      → 1 ≤ cnt
      → Returns (Turns (size - s.orgptr)) (copy_range io size offs cnt s f)
  unfolding copy_range
  copy_range-Turns offs cnt s f l back much =
      let R = Turns (size - s.orgptr) in
      if_split (Returns R) (ltb size (s.orgptr + cnt) || ltb s.orgptr offs) _ _ (λ over. tt)
        (λ on.
          let inside : s.orgptr + cnt ≤ size = ground arith in
          let known : offs ≤ length s.org = ground (arith, l) in
          Returns-bind (λ (o : List ℕ). length o ≡ cnt + length s.org) R (copy_bytes cnt offs s.org)
            _ (copy_bytes-length cnt offs s.org back known)
            (λ o e. ((omega (arith, e, l), inside), omega arith)))

  command-Turns :
      (cmd : ℕ) (s : Unpacked) (f : io.Stream)
      → length s.org ≡ s.orgptr
      → Returns (Turns (size - s.orgptr)) (command io size cmd s f)
  unfolding command
  command-Turns cmd s f l =
      let R = Returns (Turns (size - s.orgptr)) in
      if_split R (cmd / 2 ^ 4 == 0) _ _ (λ k0. repeat_byte-Turns _ s f l (omega arith))
        (λ n0.
          if_split R (cmd / 2 ^ 4 == 1) _ _ (λ k1. repeat_byte-Turns _ s _ l (omega arith))
            (λ n1.
              if_split R (cmd / 2 ^ 4 == 2) _ _
                (λ k2. copy_range-Turns _ _ s _ l (omega arith) (omega arith))
                (λ n2. copy_range-Turns _ (cmd / 2 ^ 4) s _ l (omega arith) (ground arith))))

  abbrev Kept : Unpacked → State → Type 0
  Kept s x = (x.0.org ≡ s.org) × (x.0.orgptr ≡ s.orgptr)

  next_ctrl-Kept : (s : Unpacked) (f : io.Stream) → Kept s (next_ctrl io size s f)
  unfolding next_ctrl
  next_ctrl-Kept s f = if_both (Kept s) (s.ctrlmask / 2 == 0) _ _ (refl, refl) (refl, refl)

  -- The rest of a round, behind the control bits.
  item-Turns :
      (before : ℕ) (s : Unpacked) (f : io.Stream)
      → length s.org ≡ s.orgptr
      → s.orgptr < size
      → before ≡ size - s.orgptr
      → Returns (Turns before) (
          if bit_and s.ctrlbits s.ctrlmask == 0
          then ok
              (next_round (store ((next_byte io size f).0 ∷ s.org) 1 s, (next_byte io size f).1))
          else command io size (next_byte io size f).0 s (next_byte io size f).1)
  item-Turns before s f l more e = rw e (
      if_both (Returns (Turns (size - s.orgptr))) (bit_and s.ctrlbits s.ctrlmask == 0) _ _
        ((omega (arith, l), omega arith), omega arith)
        (command-Turns (next_byte io size f).0 s (next_byte io size f).1 l))

  round-Turns : (x : State) → Fits x → Returns (Turns (size - x.0.orgptr)) (round io size x)
  unfolding round
  round-Turns (s, f) (l, h) =
      let R = Returns (Turns (size - s.orgptr)) in
      if_split R (leb size s.orgptr) _ _ (λ over. ground (arith, l, h))
        (λ more.
          let inside : s.orgptr < size = ground arith in
          let f1 = (io.error f).1 in
          let x = next_ctrl io size s f1 in
          let (same, at) = next_ctrl-Kept s f1 in
          let same_length : length x.0.org ≡ length s.org = ap (λ (o : List ℕ). length o) same in
          let rest =
            item-Turns (size - s.orgptr) x.0 x.1 (omega (arith, same_length, at, l))
              (omega (arith, at)) (omega (arith, at)) in
          if_both R (io.error f).0 _ _ tt rest)

  pub unpack-Ends : (f : io.Stream) → Returns Ends (unpack io size f)
  unfolding unpack
  unpack-Ends f =
      rounds-Returns Fits Ends room (round io size) round-Turns (suc size) _ (refl, omega arith)
        (omega arith)
