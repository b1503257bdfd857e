-- ===== src/Hsc/Tests.antt =====
-- A song of one pattern, and the theorems about it.
use adplug.Base.{
  ℕ, List, [], ◌∷◌, ◌++◌, drop, length, replicate, All, All-replicate, refl, arith, false, inl,
}
use adplug.Base.{◌≡◌, ◌-◌, ◌/◌, Bool, fault, Returns, length-replicate, ◌<◌}
use adplug.Base.Bytes.{File, io}
use adplug.Base.{some, OnSome}
use adplug.Provider.{filesize}
use adplug.Hsc.Packed.{Any, HasArrays}
use adplug.Hsc.Safety.{IsPlayer}
use adplug.Hsc.Mtk
use adplug.Hsc.Hsp
use adplug.Hsc.Mtk.{Mtk, mtk_id}
use adplug.Hsc.Mtk.Load.{IsUsable, load-IsUsable}
use adplug.Hsc.Hsp.{unpack}
use adplug.Hsc.Hsp.Runs.{pack, expand, IsExpanded, unpack-IsExpanded}
use adplug.Hsc.Hsp.Load.{load-IsPlayer}
use adplug.Hsc.{Hsc, Note, Chan}
use adplug.Hsc.Load.{read_song}
use adplug.Hsc.Load.Orders.{IsOrder, read_song-orders}
use adplug.Hsc.Safety.{IsValid, IsPattern, IsSafe}
use adplug.Hsc.Update.{update, channel_step}
use adplug.Hsc.Update.Safe.{update-IsValid, channel_step_beyond}

abbrev blank_ins : List ℕ
blank_ins = replicate 12 0

abbrev c4 : Note
c4 = record { note = 40; effect = 0 }

abbrev pattern : List Note
pattern = replicate 576 c4

abbrev chan : Chan
chan = record { inst = 0; slide = 0; freq = 0 }

abbrev player : Hsc
player = record {
  opl = [];
  channel = replicate 9 chan;
  instr = replicate 128 blank_ins;
  song = 0 ∷ replicate 127 0xff;
  patterns = replicate 50 pattern;
  pattpos = 0;
  songpos = 0;
  pattbreak = 0;
  songend = false;
  mode6 = false;
  bd = 0;
  fadein = 0;
  speed = 2;
  del = 1;
  adl_freq = replicate 9 0;
  mtkmode = false;
}

pattern-IsPattern : IsPattern IsSafe pattern
pattern-IsPattern = (length-replicate 576 c4, All-replicate IsSafe 576 c4 (inl refl))

player-IsValid : IsValid player
player-IsValid = (
  record {
    instr_count = length-replicate 128 blank_ins;
    instr_sizes = All-replicate (λ (r : List ℕ). length r ≡ 12) 128 blank_ins refl;
    song_size = refl;
    pattern_count = length-replicate 50 pattern;
    pattern_sizes = All-replicate (IsPattern IsSafe) 50 pattern pattern-IsPattern;
  },
  record {
    channel_count = refl;
    insts = All-replicate (λ (c : Chan). c.inst < 128) 9 chan (omega arith);
    adl_count = refl;
    row = omega arith;
    order = omega arith;
  },
)

update-IsValid_example : Returns (λ (x : Bool × Hsc). IsValid x.1) (update player)
update-IsValid_example = update-IsValid player player-IsValid

channel_step_beyond_example : channel_step 3 (record { note = 128; effect = 200 }) player ≡ fault
channel_step_beyond_example =
    channel_step_beyond 3 (record { note = 128; effect = 200 }) player player-IsValid (omega arith)
      (λ e. omega (arith, e)) (omega arith)

abbrev file : File
file = record { bytes = 1 ∷ 2 ∷ 3 ∷ []; at = 0; ended = false }

read_song-orders_example :
    (orders : List ℕ) × ((read_song io 59187 file player).song ≡ orders ++ drop 51 player.song)
    × (length orders ≡ 51)
    × All (IsOrder ((59187 - 1587) / 1152)) orders
    × (drop 25 (read_song io 59187 file player).patterns ≡ drop 25 player.patterns)
read_song-orders_example = read_song-orders io 59187 file player

-- A file that unpacks to 6085 zeros: two long runs behind the control bits.
abbrev zeros : File
zeros = record {
  bytes = mtk_id ++ (0 ∷ 0 ∷ 0xc5 ∷ 0x17 ∷ 0xff ∷ 0xff ∷ 0x1f ∷ 0xff ∷ 0 ∷ 0x10 ∷ 0x7a ∷ 0 ∷ []);
  at = 0;
  ended = false;
}

abbrev mtk : Mtk
mtk = record { hsc = player; title = []; composer = []; instname = [] }

any-IsPattern : IsPattern Any pattern
any-IsPattern = (length-replicate 576 c4, All-replicate Any 576 c4 tt)

player-HasArrays : HasArrays player
player-HasArrays = record {
  channels = refl;
  adl_freqs = refl;
  song_size = refl;
  pattern_count = length-replicate 50 pattern;
  pattern_sizes = All-replicate (IsPattern Any) 50 pattern any-IsPattern;
}

load-IsUsable_example :
    Returns
      (OnSome IsUsable)
      (Mtk.load io (record { open_file = λ name. some zeros }) (0x61 ∷ []) mtk)
load-IsUsable_example =
    load-IsUsable io (record { open_file = λ name. some zeros }) (0x61 ∷ []) mtk player-HasArrays

-- Two runs, the second of which is cut short.
unpack-IsExpanded_example :
    Returns
      (IsExpanded 6 (expand ((3, 1) ∷ (4, 2) ∷ [])))
      (unpack (pack ((3, 1) ∷ (4, 2) ∷ [])) 6 (λ k. 0))
unpack-IsExpanded_example = unpack-IsExpanded ((3, 1) ∷ (4, 2) ∷ []) 6 (λ k. 0)

-- A size, and runs of zeros.
abbrev packed : File
packed = record { bytes = 0x40 ∷ 6 ∷ 255 ∷ 0 ∷ 255 ∷ 0 ∷ []; at = 0; ended = false }

load-IsPlayer_example : Returns (OnSome (IsPlayer Any)) (
    Hsp.load io
      (λ k. 0)
      (record { open_file = λ name. some packed })
      (0x61 ∷ 0x2e ∷ 0x68 ∷ 0x73 ∷ 0x70 ∷ [])
      player)
unfolding filesize
load-IsPlayer_example =
    load-IsPlayer io (λ k. 0) (record { open_file = λ name. some packed })
      (0x61 ∷ 0x2e ∷ 0x68 ∷ 0x73 ∷ 0x70 ∷ []) player player-HasArrays refl
