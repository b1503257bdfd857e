-- ===== src/Capture/Imf.antt =====
-- src/imf.cpp and src/imf.h: the player of IMF files, a list of register writes with delays. The
-- chip is the calls it has received. There are no floats: `rate` is the constant or the database's
-- clock, and `timer`, which is `rate` or `rate / (float)del`, is the pair of `rate` and the divisor.
mod Tests
pub mod Load
pub mod Playback
use adplug.Base.{ℕ, zero, suc, ◌+◌, ◌-◌, ◌*◌, ◌/◌, ◌%◌, ◌≤◌, ◌<◌, ◌^◌, bit_and, List, [], ◌∷◌, ◌++◌}
use adplug.Base.{
  drop, length, get_elem?, set, Option, none, some, Bool, true, false, not, ◌&&◌, ◌||◌,
}
use adplug.Base.{◌==◌, ltb, leb, if◌then◌else◌, Outcome, ok, fault, stuck, ◌>>=◌, deref}
use adplug.Base.Opl.{Opl, write, init}
use adplug.Base.Stream.{BinIo}
use adplug.Provider.{Provider, extension, filesize}
use adplug.Database.{Db, Record, Own, clock_speed, Pointer, live, null, dangling, search}
use adplug.Database.Crc.{make}

pub record Event : Type 0 where
  pub reg : ℕ
  pub val : ℕ
  pub time : ℕ

pub data Rate : Type 0 where
  hz : ℕ → Rate
  database_clock : ℕ → Rate

pub record Imf : Type 0 where
  pub opl : Opl
  pub events : List Event
  pub size : ℕ
  pub pos : ℕ
  pub del : ℕ
  pub songend : Bool
  pub rate : Rate
  pub timer : Rate × ℕ
  pub track_name : List ℕ
  pub game_name : List ℕ
  pub author_name : List ℕ
  pub remarks : List ℕ
  pub footer : Option (List ℕ)

-- One round of the `do` loop of `update`.
pub play_event : Imf → Event → Imf
play_event p e = record p { opl = write e.reg e.val ∷ p.opl; del = e.time; pos = p.pos + 1 }

-- `do { … } while(!del && pos < size)`, with fuel.
pub play_loop : ℕ → Imf → Outcome Imf
play_loop zero p = stuck
play_loop (suc fuel) p = do
  e ← deref (get_elem? p.events p.pos)
  let p' = play_event p e
  let more = play_loop fuel p'
  if p'.del == 0 && ltb p'.pos p'.size then more else ok p'

pub end_update : Imf → Bool × Imf
end_update p =
    let p' =
      if leb p.size p.pos
      then (record p { pos = 0; songend = true })
      else (record p { timer = (p.rate, p.del) }) in
    (not p'.songend, p')

-- Each round moves `pos` on, so `size` rounds are enough.
pub update : Imf → Outcome (Bool × Imf)
update p = do p' ← play_loop (suc p.size) p; ok (end_update p')

pub rewind : Imf → Imf
rewind p = record p {
  opl = write 1 32 ∷ init ∷ p.opl;
  pos = 0;
  del = 0;
  songend = false;
  timer = (p.rate, 1);
}

pub gettitle : Imf → List ℕ
gettitle p = elim p.game_name [
  | [] ↦ p.track_name
  | c ∷ cs ↦ elim p.track_name [
    | [] ↦ p.game_name
    | d ∷ ds ↦ p.track_name ++ (0x20 ∷ 0x2d ∷ 0x20 ∷ p.game_name)
  ]
]

-- The characters before the first null: a std::string made of a C string.
pub c_string : List ℕ → List ℕ
c_string [] = []
c_string (c ∷ cs) = if c == 0 then [] else c ∷ c_string cs

pub getdesc : Imf → List ℕ
getdesc p = elim p.footer [ some text ↦ c_string text | none ↦ p.remarks ]
