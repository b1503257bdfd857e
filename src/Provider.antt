-- ===== src/Provider.antt =====
-- src/fprovide.cpp: `CFileProvider::extension` and `CFileProvider::filesize`, and the file provider
-- that a loader is handed. A std::string is the list of its characters, less any null.
use adplug.Base.{ℕ, ◌+◌, ◌-◌, ◌<◌, ◌≡◌, ◌∙◌, List, [], ◌∷◌, length, drop, Option}
use adplug.Base.{Bool, true, false, not, ◌&&◌, ◌||◌, ◌==◌, ltb, leb, if◌then◌else◌}
use adplug.Base.{◌^◌}
use adplug.Base.Stream.{BinIo, IsLawful}

-- `CFileProvider::open`: null where there is no such file.
pub record Provider (io : BinIo) : Type 0 where
  pub open_file : List ℕ → Option io.Stream

pub to_lower : ℕ → ℕ
to_lower c = if leb b'A' c && leb c b'Z' then c + 32 else c

-- `!stricmp(a, b)`
pub same_text : List ℕ → List ℕ → Bool
same_text [] [] = true
same_text [] (c ∷ cs) = false
same_text (c ∷ cs) [] = false
same_text (c ∷ cs) (d ∷ ds) = to_lower c == to_lower d && same_text cs ds

pub extension : List ℕ → List ℕ → Bool
extension filename ext =
    if ltb (length filename) (length ext)
      || not (same_text (drop (length filename - length ext) filename) ext)
    then false
    else true

-- The stream comes back at the position that it had.
unfoldable pub filesize : (io : BinIo) → io.Stream → ℕ × io.Stream
filesize io f =
    let oldpos = io.pos f in let at_end = io.seek_end f in (io.pos at_end, io.seek oldpos at_end)

pub filesize-lt : (io : BinIo) → IsLawful io → (f : io.Stream) → (filesize io f).0 < 2 ^ 63
unfolding filesize
filesize-lt io lawful f = lawful.pos-lt (io.seek_end f)

pub filesize-filesize :
    (io : BinIo)
    → IsLawful io
    → (f : io.Stream) → (filesize io (filesize io f).1).0 ≡ (filesize io f).0
unfolding filesize
filesize-filesize io lawful f = lawful.end-seek (io.pos f) (io.seek_end f) ∙ lawful.end-seek_end f

pub filesize-seek :
    (io : BinIo)
    → IsLawful io
    → (n : ℕ) (f : io.Stream) → (filesize io (io.seek n f)).0 ≡ (filesize io f).0
unfolding filesize
filesize-seek io lawful n f = lawful.end-seek n f

pub filesize-read_int :
    (io : BinIo)
    → IsLawful io
    → (n : ℕ) (f : io.Stream) → (filesize io (io.read_int n f).1).0 ≡ (filesize io f).0
unfolding filesize
filesize-read_int io lawful n f = lawful.end-read_int n f
