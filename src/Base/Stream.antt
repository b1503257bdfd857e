-- ===== src/Base/Stream.antt =====
-- The stream classes of libbinio, which the sources call and which are not part of the repository:
-- an interface that the loaders take, with what they rely on as laws. Streams read little endian, as
-- `CProvider_Filesystem::open` sets them up.
use Prim.Native.Nat.{ℕ, zero, suc, ◌<◌, ◌^◌, ◌%◌}
use mathlib.Core.Path.{◌≡◌, refl, ap}
use mathlib.Core.Bool.{Bool, true, false, ◌&&◌}
use adplug.Base.Tests.{◌==◌}
use mathlib.Core.List.{List, [], ◌∷◌}
use adplug.Base.Lists.{length}

pub record BinIo : Type 1 where
  pub Stream : Type 0
  -- `readInt(n)`: an integer of n bytes.
  pub read_int : ℕ → Stream → ℕ × Stream
  -- `readString(buf, n)`: the n bytes of `buf` after the call, also those that it left alone.
  pub read_buffer : ℕ → Stream → List ℕ × Stream
  -- `readString(buf, n, 0)`: the text that `buf` holds, up to n characters.
  pub read_text : ℕ → Stream → List ℕ × Stream
  -- `readString('\0')`: a std::string.
  pub read_string : Stream → List ℕ × Stream
  -- `readFloat(Single)`: the bits of a float.
  pub read_single : Stream → ℕ × Stream
  pub ignore : ℕ → Stream → Stream
  -- `seek(n)`, `seek(-n, Add)` and `seek(n, Add)`.
  pub seek : ℕ → Stream → Stream
  pub seek_back : ℕ → Stream → Stream
  pub seek_on : ℕ → Stream → Stream
  pub seek_end : Stream → Stream
  pub pos : Stream → ℕ
  pub eof : Stream → Bool
  -- `error()`: whether something went wrong since it was asked last.
  pub error : Stream → Bool × Stream
  -- `ateof()`: whether the next byte is past the end.
  pub ateof : Stream → Bool
  -- How many single bytes can be read before `eof` holds.
  pub left : Stream → ℕ

pub record IsLawful (io : BinIo) : Type 0 where
  pub read_int-lt : (n : ℕ) (s : io.Stream) → (io.read_int n s).0 < 256 ^ n
  pub length-read_buffer : (n : ℕ) (s : io.Stream) → length (io.read_buffer n s).0 ≡ n
  -- A position is a `long`.
  pub pos-lt : (s : io.Stream) → io.pos s < 2 ^ 63
  pub left-read_int : (s : io.Stream) → io.eof s ≡ false → io.left (io.read_int 1 s).1 < io.left s
  -- No read and no seek moves the end of the file.
  pub end-read_int :
      (n : ℕ) (s : io.Stream) → io.pos (io.seek_end (io.read_int n s).1) ≡ io.pos (io.seek_end s)
  pub end-seek :
      (n : ℕ) (s : io.Stream) → io.pos (io.seek_end (io.seek n s)) ≡ io.pos (io.seek_end s)
  pub end-seek_end : (s : io.Stream) → io.pos (io.seek_end (io.seek_end s)) ≡ io.pos (io.seek_end s)

-- A loop that fills an array of bytes.
unfoldable pub read_bytes : (io : BinIo) → ℕ → io.Stream → List ℕ × io.Stream
read_bytes io zero f = ([], f)
read_bytes io (suc n) f =
    let (b, f1) = io.read_int 1 f in let (bs, f2) = read_bytes io n f1 in (b % 2 ^ 8 ∷ bs, f2)

pub length-read_bytes : (io : BinIo) (n : ℕ) (f : io.Stream) → length (read_bytes io n f).0 ≡ n
unfolding read_bytes
length-read_bytes io zero f = refl
length-read_bytes io (suc n) f = ap suc (length-read_bytes io n (io.read_int 1 f).1)

-- `!strncmp(id, name, n)` and `!memcmp(id, name, n)`, for a name of n characters.
unfoldable pub same_bytes : List ℕ → List ℕ → Bool
same_bytes [] [] = true
same_bytes [] (c ∷ cs) = false
same_bytes (c ∷ cs) [] = false
same_bytes (c ∷ cs) (d ∷ ds) = c == d && same_bytes cs ds
