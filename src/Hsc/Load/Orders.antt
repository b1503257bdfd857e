-- ===== src/Hsc/Load/Orders.antt =====
-- src/hsc.cpp: the track list and the patterns that `load` leaves.
use adplug.Base.{ℕ, zero, suc, ◌-◌, ◌/◌, ◌≤◌, ◌<◌, ◌≡◌, refl, ap, arith, ◌⊎◌}
use adplug.Base.{List, [], ◌∷◌, ◌++◌, drop, length, All}
use adplug.Base.Bits.{bit_and-127}
use adplug.Base.Stream.{BinIo}
use adplug.Hsc.{Hsc}
use adplug.Hsc.Load.{fix_order, read_orders, read_patterns, read_song, read_instruments}
use adplug.Hsc.Load.{patterns_read}

-- What `update` makes of an order: it ends the song, or it is the number of one of the file's patterns,
-- which the array has room for, or it jumps to one of the 51 orders.
abbrev pub IsOrder : ℕ → ℕ → Type 0
IsOrder total entry =
    (entry ≡ 0xff)
    ⊎ (((entry < 50) × (entry < total)) ⊎ ((128 ≤ entry) × (entry < 0xb2) × (entry - 128 < 51)))

fix_order-IsOrder : (total entry : ℕ) → entry < 256 → IsOrder total (fix_order total entry)
unfolding fix_order
fix_order-IsOrder total entry byte = ground (arith, bit_and-127 entry)

module _ (io : BinIo) where
  read_orders-IsOrder :
      (total n : ℕ) (f : io.Stream) → All (IsOrder total) (read_orders io total n f).0
  unfolding read_orders
  read_orders-IsOrder total zero f = tt
  read_orders-IsOrder total (suc n) f =
      (fix_order-IsOrder total _ (omega arith), read_orders-IsOrder total n _)

  length-read_orders : (total n : ℕ) (f : io.Stream) → length (read_orders io total n f).0 ≡ n
  unfolding read_orders
  length-read_orders total zero f = refl
  length-read_orders total (suc n) f = ap suc (length-read_orders total n _)

  length-read_patterns : (n : ℕ) (f : io.Stream) → length (read_patterns io n f).0 ≡ n
  unfolding read_patterns
  length-read_patterns zero f = refl
  length-read_patterns (suc n) f = ap suc (length-read_patterns n _)

drop-append {ℓ} : {A : Type ℓ} (xs ys : List A) (n : ℕ) → length xs ≡ n → drop n (xs ++ ys) ≡ ys
drop-append [] ys zero e = refl
drop-append [] ys (suc n) e = absurd (omega arith)
drop-append (x ∷ xs) ys zero e = absurd (omega arith)
drop-append (x ∷ xs) ys (suc n) e = drop-append xs ys n (omega arith)

-- The load section of the HSC player fills 51 orders, each of which ends the song, is the number of
-- a pattern that the file and the array have, or is one that update takes for a jump, to one of the
-- 51. It fills 25 patterns only: those from the 26th on are the ones that the player held before.
pub read_song-orders :
    (io : BinIo) (size : ℕ) (f : io.Stream) (p : Hsc)
    → (orders : List ℕ) × ((read_song io size f p).song ≡ orders ++ drop 51 p.song)
      × (length orders ≡ 51)
      × All (IsOrder ((size - 1587) / 1152)) orders
      × (drop 25 (read_song io size f p).patterns ≡ drop 25 p.patterns)
unfolding read_song
read_song-orders io size f p =
    let f1 = (read_instruments io 128 f).1 in
    let total = (size - 1587) / 1152 in
    (
      (read_orders io total 51 f1).0,
      refl,
      length-read_orders io total 51 f1,
      read_orders-IsOrder io total 51 f1,
      drop-append (read_patterns io patterns_read (read_orders io total 51 f1).1).0
          (drop patterns_read p.patterns) 25
          (length-read_patterns io 25 (read_orders io total 51 f1).1),
    )
