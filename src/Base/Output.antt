-- ===== src/Base/Output.antt =====
-- The output streams of libbinio, and what they share with its input streams: the bytes of a value. A
-- stream that has been read from and one that has been written to are seen through the bytes that
-- are ahead and the bytes that were written. Streams are little endian with IEEE floats, as
-- `CAdPlugDatabase` sets them up.
use Prim.Native.Nat.{ℕ, zero, suc, ◌/◌, ◌%◌, ◌^◌, ◌<◌}
use mathlib.Core.Path.{◌≡◌, ap, ◌∙◌}
use mathlib.Core.List.{List, [], ◌∷◌, ◌++◌, append_assoc}
use adplug.Base.Lists.{length, All}
use adplug.Base.Stream.{BinIo}

-- The `n` low bytes of a value, the lowest first.
abbrev pub int_bytes : ℕ → ℕ → List ℕ
int_bytes zero v = []
int_bytes (suc n) v = v % 256 ∷ int_bytes n (v / 256)

pub record BinOut : Type 1 where
  pub Out : Type 0
  -- `writeInt(v, n)`
  pub write_int : ℕ → ℕ → Out → Out
  -- `writeString(s)`
  pub write_string : List ℕ → Out → Out
  -- `writeFloat(x, Single)` of the float with these bits.
  pub write_single : ℕ → Out → Out

-- `written` has the bytes that went to the stream.
pub record IsFaithful (out : BinOut) (written : out.Out → List ℕ) : Type 0 where
  pub written-int :
      (v n : ℕ) (o : out.Out) → written (out.write_int v n o) ≡ written o ++ int_bytes n v
  pub written-string : (s : List ℕ) (o : out.Out) → written (out.write_string s o) ≡ written o ++ s
  pub written-single :
      (v : ℕ) (o : out.Out) → written (out.write_single v o) ≡ written o ++ int_bytes 4 v

-- `ahead` has the bytes from the position on: a read takes its bytes from there.
pub record Delivers (io : BinIo) (ahead : io.Stream → List ℕ) : Type 0 where
  pub int :
      (n v : ℕ) (rest : List ℕ) (f : io.Stream)
      → ahead f ≡ int_bytes n v ++ rest
      → ((io.read_int n f).0 ≡ v % 256 ^ n) × (ahead (io.read_int n f).1 ≡ rest)
  pub single :
      (v : ℕ) (rest : List ℕ) (f : io.Stream)
      → ahead f ≡ int_bytes 4 v ++ rest
      → ((io.read_single f).0 ≡ v % 256 ^ 4) × (ahead (io.read_single f).1 ≡ rest)
  pub buffer :
      (bytes rest : List ℕ) (f : io.Stream)
      → ahead f ≡ bytes ++ rest
      → ((io.read_buffer (length bytes) f).0 ≡ bytes)
        × (ahead (io.read_buffer (length bytes) f).1 ≡ rest)
  pub text :
      (s rest : List ℕ) (f : io.Stream)
      → All (λ c. 0 < c) s
      → ahead f ≡ s ++ (0 ∷ rest)
      → ((io.read_string f).0 ≡ s) × (ahead (io.read_string f).1 ≡ rest)

-- What a piece of code writes, wherever the stream stands.
module _ (out : BinOut) (written : out.Out → List ℕ) where
  abbrev pub Writes : (out.Out → out.Out) → List ℕ → Type 0
  Writes f bytes = (o : out.Out) → written (f o) ≡ written o ++ bytes

  pub Writes-then :
      (f g : out.Out → out.Out) (bytes more : List ℕ)
      → Writes f bytes
      → Writes g more
      → Writes (λ o. g (f o)) (bytes ++ more)
  Writes-then f g bytes more hf hg o =
      hg (f o) ∙ ap (λ bs. bs ++ more) (hf o) ∙ append_assoc (written o) bytes more
