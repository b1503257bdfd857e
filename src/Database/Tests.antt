-- ===== src/Database/Tests.antt =====
-- Runs of the database on two records whose keys share a hash chain, and the theorems there.
use adplug.Base.{◌≡◌, ◌≢◌, refl, [], ◌∷◌, none, some}
use adplug.Base.{Outcome, ok, Returns, ◌>>=◌, Bool}
use adplug.Database.{Record, Db, plain, clock_speed, empty, insert, wipe, search, lookup}
use adplug.Database.{find_index, scan, hit, key_eq, make_hash, move_to, add_bucket, last_of}
use adplug.Database.{set_chain, update, get_record, point_to, live, dangling}
use adplug.Base.{false}
use adplug.Base.Bytes.{File, io}
use adplug.Base.{◌++◌, All, arith}
use adplug.Base.Bytes.{ahead, io-Delivers, out, out-IsFaithful}
use adplug.Database.Files.{load, save, write_records, write_record, write_own, write_text}
use adplug.Database.Files.Bytes.{live_records, Fits}
use adplug.Database.Files.RoundTrip.{Restored, load-save}
use adplug.Database.Validity.{IsValid, empty-IsValid, contents}
use adplug.Database.Contract.{Inserted, insert-Inserted, Wiped, wipe-Wiped}
use adplug.Database.Session.{Searched, search-Searched}
use adplug.Database.Session.{wipe-get_record_dangling}

abbrev first : Record
first = record { key = record { crc16 = 1; crc32 = 7 }; filetype = []; comment = []; own = plain }

-- The key has the hash of the first one: 0xfff1 + 7 + 1.
abbrev second : Record
second = record {
  key = record { crc16 = 0; crc32 = 0xfff9 };
  filetype = [];
  comment = [];
  own = clock_speed 0x42c80000;
}

abbrev after : Outcome (Bool × Db) → Db
after (ok (_, db)) = db
after _ = empty

abbrev one : Db
one = after (insert empty (some first))

abbrev two : Db
two = after (insert one (some second))

one-IsValid : IsValid one
unfolding empty insert lookup find_index move_to add_bucket make_hash
one-IsValid = (insert-Inserted empty first empty-IsValid).0

two-IsValid : IsValid two
unfolding empty insert lookup find_index move_to add_bucket make_hash scan hit key_eq last_of
    set_chain update
two-IsValid = (insert-Inserted one second one-IsValid).0

chained : search two second.key ≡ ok (live second, record two { linear_index = 1 })
unfolding empty insert lookup find_index move_to add_bucket make_hash scan hit key_eq last_of
    set_chain update search get_record point_to
chained = refl

-- The freed record is handed out.
wipe-get_record_dangling_example : (wipe two (live first) >>= get_record) ≡ ok dangling
wipe-get_record_dangling_example = wipe-get_record_dangling two first two-IsValid held
  where
    held : contents two.linear first.key ≢ none
    held =
        unfold empty insert lookup find_index move_to add_bucket make_hash scan hit key_eq last_of
          set_chain update contents in
        λ e. cc

insert-Inserted_example : Returns (Inserted one second) (insert one (some second))
insert-Inserted_example = insert-Inserted one second one-IsValid

wipe-Wiped_example : Returns (Wiped two first.key) (wipe two (live first))
wipe-Wiped_example = wipe-Wiped two first two-IsValid

search-Searched_example : Returns (Searched two second.key) (search two second.key)
search-Searched_example = search-Searched two second.key two-IsValid

abbrev letters : File
letters = record { bytes = b'a' ∷ b'b' ∷ []; at = 0; ended = false }

-- A stream of the file that the database of the two records is saved to.
abbrev saved : File
saved = record { bytes = (save out two []).1; at = 0; ended = false }

saved-ahead : ahead saved ≡ (save out two []).1 ++ []
unfolding save write_records write_record write_own write_text empty insert lookup find_index
    move_to add_bucket make_hash scan hit key_eq last_of set_chain update
saved-ahead = refl

records_fit : All Fits (live_records two.linear)
unfolding empty insert lookup find_index move_to add_bucket make_hash scan hit key_eq last_of
    set_chain update
records_fit = (
  record { crc16 = omega arith; crc32 = omega arith; filetype = tt; comment = tt; own = tt },
  (
    record {
      crc16 = omega arith;
      crc32 = omega arith;
      filetype = tt;
      comment = tt;
      own = omega arith;
    },
    tt,
  ),
)

load-save_example : Returns (Restored two) (load io saved empty)
load-save_example =
    load-save io ahead io-Delivers out (λ o. o) out-IsFaithful two [] [] saved two-IsValid
      records_fit refl saved-ahead
