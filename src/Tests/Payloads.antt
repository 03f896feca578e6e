-- ===== src/Tests/Payloads.antt =====
-- A folder written into a container and restored, on toy primitives.
use foldervault.Base.{
  drop, ◌≡◌, ◌↔◌, refl, true, false, List, [], ◌∷◌, ◌++◌, none, some, arith, Bytes, Text, codes,
  zeros, All,
}
use foldervault.Vault.{io, not_found, tampered, Result, ok, err}
use foldervault.Primitives.{done}
use foldervault.Crypto.{SecretKey, ChunkCipher, derive_kek}
use foldervault.Header.{Header}
use foldervault.Paths.{location, safe_join}
use foldervault.Walk.{Entry, dir_entry, file_entry}
use foldervault.Container.Authorize.{password, open_and_authorize}
use foldervault.Container.Payload.{
  Bincode, Disk, LockOptions, Writer, Made, write_file, write_entries, extract_chunks,
  extract_entries,
}
use foldervault.Container.Whole.{write_container, restore}
use foldervault.Container.Extract.{IsStored, write_file-IsStored}
use foldervault.Container.Restored.{AreMade, restore-write_container}
use foldervault.Container.Whether.{IsJoinable, extract_entries_iff}
use foldervault.Tests.Toy.{toy, toy-IsLawful, tape}

abbrev home : List Text
home = codes "home" ∷ []

abbrev staging : List Text
staging = codes "home.__restoring" ∷ []

abbrev entries : List Entry
entries =
    dir_entry (codes "sub") 7
    ∷ file_entry (codes "x.txt") 5 100 false
    ∷ file_entry (codes "sub/y") 0 200 true
    ∷ []

-- The files of the folder: one with five bytes, and an empty one.
disk : Disk
disk (location (_ ∷ _ ∷ [])) = ok (codes "hello")
disk (location (_ ∷ _ ∷ _ ∷ [])) = ok []
disk _ = err (io not_found)

abbrev bincode : Bincode
bincode = record { serialize = λ es. done (1 ∷ 2 ∷ []); deserialize = λ b. some entries }

abbrev options : LockOptions
options = record {
  kdf = none;
  master_pub = none;
  secure_delete = false;
  recycle_original = true;
  readonly_container = true;
}

abbrev written : Result (Bytes × Bytes)
written =
    write_container toy bincode home disk entries 5 (codes "secret") (codes "install") options tape

contents : Result (Bytes × Bytes) → Bytes × Bytes
contents (ok r) = r
contents (err e) = ([], [])

written-ok : written ≡ ok ((contents written).0, (contents written).1)
unfolding contents disk write_container derive_kek write_entries safe_join toy
written-ok = refl

restore-write_container_example :
    (header : Header) × (dk : SecretKey) × (open_and_authorize toy
        (password (codes "secret"))
        (codes "install")
        1000
        (record { bytes = (contents written).1; readonly = true })
      ≡ (
        ok (record { header = header; dk = dk; was_readonly = true }),
        record { bytes = (contents written).1; readonly = false },
      ))
    × (((made : List Made) × (restore toy bincode header dk staging (contents written).1 ≡ ok made)
          × AreMade home disk staging entries made)
        ↔ All (IsJoinable staging) entries)
restore-write_container_example =
    restore-write_container toy toy-IsLawful bincode home disk staging entries 5 (codes "secret")
      (codes "install") options tape 1000 true (contents written).0 (contents written).1 written-ok
      (λ manifest serialized. refl) (omega arith) (omega arith)

abbrev cipher : ChunkCipher
cipher = record { key = codes "data"; uuid = zeros 16 }

abbrev start : Writer
start = record { rng = tape; seq = 0; out = [] }

-- An empty folder with a name that `safe_join` refuses.
abbrev refused_entries : List Entry
refused_entries = dir_entry (codes "notes.") 7 ∷ []

refused-written : write_entries toy home disk cipher refused_entries start ≡ ok start
unfolding write_entries
refused-written = refl

refused-refused : safe_join staging (codes "notes.") ≡ err tampered
unfolding safe_join
refused-refused = refl

extract_entries_iff_example :
    (frames : Bytes) × (start.out ≡ start.out ++ frames)
    × ((tail : Bytes)
        → ((made : List Made) × (extract_entries toy staging cipher refused_entries 0
                (frames ++ tail)
              ≡ ok made))
          ↔ All (IsJoinable staging) refused_entries)
extract_entries_iff_example =
    extract_entries_iff toy toy-IsLawful home staging disk cipher refused_entries start start
      refused-written

abbrev sent : Result Writer
sent = write_file toy home disk cipher (file_entry (codes "x.txt") 5 100 false) start

writer_of : Result Writer → Writer
writer_of (ok w) = w
writer_of (err e) = start

sent-ok : sent ≡ ok (writer_of sent)
unfolding writer_of disk write_file safe_join drop
sent-ok = refl

write_file-IsStored_example :
    (f frames : Bytes) × IsStored home disk (file_entry (codes "x.txt") 5 100 false) f
    × ((writer_of sent).out ≡ start.out ++ frames)
    × ((tail : Bytes)
        → extract_chunks toy 5 cipher 5 0 (frames ++ tail) ≡ ok (f, (writer_of sent).seq, tail))
write_file-IsStored_example =
    write_file-IsStored toy toy-IsLawful home disk cipher (file_entry (codes "x.txt") 5 100 false)
      start (writer_of sent) sent-ok
