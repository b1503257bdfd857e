-- ===== src/Lib.antt =====
-- AdPlug: a library that plays the music formats of AdLib sound cards.
--
-- The program and its files:
-- - A player (`src/player.h`) loads one file format and then sends register writes to a chip
--   object (`src/opl.h`), one tick at each call of `update`. `CAdPlug::factory`
--   (`src/adplug.cpp`) goes through the descriptions of the players (`src/players.cpp`) and
--   returns the first player object whose `load` takes the file. Loaders read through streams
--   that a file provider opens (`src/fprovide.cpp`), and some ask the module database
--   (`src/database.cpp`) by the checksum of the file for what the file does not say.
-- - Base: the names that all files share; Base/Lists (C arrays), Base/Results (a fault is what
--   C++ leaves undefined), Base/Bits, Base/Opl (the chip is the calls it received, the newest
--   first), Base/Loops (loops whose body may return, and `while (update())`), Base/Stream (the
--   interface of libbinio, which is not part of the repository, and the laws that the loaders
--   need), Base/Output (the streams that are written to, and what both kinds do with bytes),
--   Base/Bytes (instances of them: a file in memory).
-- - Database and the files under it: `src/database.cpp`. The buckets are a list, a pointer to a
--   bucket is its index, and the chains of the hash table run through these indices. Crc is
--   `CKey::make`. Link and Validity hold the invariant, Places, Insert and Wipe the operations
--   under it, Contract what each promises, Session any sequence of calls, Refinement the
--   abstract map. Files is `load` and `save`: Bytes what is written, Reads that it is read,
--   RoundTrip the two together.
-- - Provider: `src/fprovide.cpp`.
-- - Players: `src/players.cpp`; Players/Extensions is the list of extensions in memory.
-- - AdPlug: `CAdPlug::factory` and `init_players` of `src/adplug.cpp`, over any players.
-- - Capture/Imf: `src/imf.cpp`; Load is `CimfPlayer::load`, Playback is about `update`.
-- - Capture/Dro2, Capture/Dro, Capture/Raw, Capture/Got, Capture/Sng: `src/dro2.cpp`,
--   `src/dro.cpp`, `src/raw.cpp`, `src/got.cpp` and `src/sng.cpp`. The module of a format has
--   its state, `update` and `rewind`, its Load the loader, its Playback what playing comes to.
--   Capture/Tags is the tag that the first three share, Capture/Dro/Reset is about the registers
--   that `CdroPlayer::rewind` clears.
-- - Bam: `src/bam.cpp`. Straight has the commands without jumps and what they mean, Playback
--   what `update` makes of them, Broken the songs that it does not return from.
-- - Protrack: `src/protrack.cpp`, the player that the module formats load into. Timer has the
--   effects of a tick, Row those of a row, Update the order list, `update` and `rewind`; Safety
--   has the player's invariant, and Slides is about the pitch that slides and portamenti come
--   to.
-- - Surround: `src/surroundopl.cpp`. Pitches is about the transposed frequency, Mirror, Writes
--   and Calls about the copies of the registers that the chip keeps; the doubles are a
--   parameter, whose instance for the default offset is exact.
-- - Lzss: `src/unlzss.c`. Tokens is what a compressed file means, Decodes and RoundTrip that it
--   is decoded to that, Bounds what holds on any input.
-- - Sixdepack: `src/sixdepack.cpp`. Shape, Paths and Swap are about the code tree and the
--   exchange of two of its nodes, Model about `updatemodel`, Decode is the rest of the decoder.
-- - Player: `src/player.cpp`; Length is `songlength` and `seek` over any player that gets on,
--   with Capture/Got/Length as an instance.
-- - Hsc: `src/hsc.cpp`; Update is `ChscPlayer::update`, Load `ChscPlayer::load`, Safety holds
--   the invariant, Rewound is about `rewind` on arrays that hold anything. Packed, Mtk and Hsp
--   are `src/mtk.cpp` and `src/hsp.cpp`, the loaders of packed songs for it.
--
-- Integers are natural numbers with the wrap-around of their type written out. `Outcome` has the
-- value of a run, a fault, and `stuck` for a loop whose fuel ran out. Fuel: `CKey::make` gets
-- the bytes that are left, a walk along a hash chain the number of buckets, a search through
-- extensions the bytes of their list, and the loop of an `update` one round for each event, item
-- or byte of the song; each is shown to be enough. The loaders of packed songs get at most a
-- round for each byte and one. The LZSS decoder gets a round for each byte of its input, the Huffman decoder one
-- for each bit, and one for each inner node on a way up its tree. `CbamPlayer::update`,
-- `CsngPlayer::update` and the jumps of `CmodPlayer::resolve_order` take their fuel as an
-- argument, since some songs let them run for ever.
--
-- Not modelled: floats (the rate of an IMF song is a constant or the clock of the database, and
-- the timer a rate and a divisor), the texts that records are shown and asked for with, their
-- destruction, the opening of files, the log, and the other formats and the chip emulators.
pub mod Bam
pub mod Base
pub mod Database
pub mod Provider
pub mod Capture
pub mod Hsc
pub mod Player
pub mod Surround
pub mod Lzss
pub mod Sixdepack
pub mod Players
pub mod Protrack
pub mod AdPlug
