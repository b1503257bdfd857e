-- ===== src/Protrack/Patterns.antt =====
-- src/protrack.cpp: the allocation of the arrays, and the order of the tracks that most formats have.
pub mod Numbered
use adplug.Base.{ℕ, zero, suc, ◌+◌, ◌*◌, ◌/◌, ◌%◌, ◌^◌, List, get_elem?, set, replicate, none, some}
use adplug.Base.{Outcome, ok, ◌>>=◌, deref}
use adplug.Protrack.{Instrument, Tracks, Channel, Mod}

-- `memset` of an entry and of an instrument.
abbrev pub no_entry : Tracks
no_entry = record { note = 0; command = 0; inst = 0; param2 = 0; param1 = 0 }

abbrev pub no_instrument : Instrument
no_instrument = record {
  data0 = 0;
  data1 = 0;
  data2 = 0;
  data3 = 0;
  data4 = 0;
  data5 = 0;
  data6 = 0;
  data7 = 0;
  data8 = 0;
  data9 = 0;
  data10 = 0;
  arpstart = 0;
  arpspeed = 0;
  misc = 0;
  slide = 0;
}

-- A new array of channels holds what its memory does, until `rewind` clears it.
pub realloc_patterns : ℕ → ℕ → ℕ → List Channel → Mod → Mod
realloc_patterns pats rows chans memory p = record p {
  npats = pats;
  nrows = rows;
  nchans = chans;
  tracks = replicate (pats * chans) (replicate rows no_entry);
  trackord = replicate pats (replicate chans 0);
  channel = memory;
}

pub realloc_order : List ℕ → Mod → Mod
realloc_order memory p = record p { order = memory }

pub realloc_instruments : ℕ → Mod → Mod
realloc_instruments len p = record p { inst = replicate len no_instrument }

pub init_specialarp : List ℕ → List ℕ → Mod → Mod
init_specialarp lists commands p = record p { arplist = some lists; arpcmd = some commands }

pub init_notetable : List ℕ → Mod → Mod
init_notetable newnotetable p = record p { notetable = newnotetable }

-- The loop of `init_trackord` from `i` on, with `n` tracks to go.
pub number_tracks : ℕ → ℕ → ℕ → List (List ℕ) → Outcome (List (List ℕ))
number_tracks zero i nchans trackord = ok trackord
number_tracks (suc n) i nchans trackord = do
  pattern ← deref (get_elem? trackord (i / nchans))
  old ← deref (get_elem? pattern (i % nchans))
  number_tracks n (i + 1) nchans
      (set trackord (i / nchans) (set pattern (i % nchans) ((i + 1) % 2 ^ 16)))

pub init_trackord : Mod → Outcome Mod
init_trackord p = do
  trackord ← number_tracks (p.npats * p.nchans) 0 p.nchans p.trackord
  ok (record p { trackord = trackord })
