-- ===== src/Folder/Records.antt =====
-- What the records of the journal say, while an operation adds its own and removes it.
use foldervault.Base.{
  ◌≡◌, Bool, true, false, [], ◌∷◌, Option, none, some, arith, Bytes, Text, All, ◌⊎◌, take, inl, inr,
  ℕ,
}
use foldervault.Vault.{ok, err}
use foldervault.Primitives.{done}
use foldervault.Journal.{Record}
use foldervault.Container.Restore.{Call-cases}
use foldervault.Folder.{
  put_record, OsCall, Records, Moment, Os, RecordCode, ask, note, pure, ◌>>◌, drop_record, begin,
  complete, begin_if, complete_if, create_record, write_record, forget_record,
}
use foldervault.Folder.Triple.{Keeps, bind-Does, attempt-Does, note-Does, lift-Does, ask-Does}

-- Each record is this one, or cannot be read.
abbrev pub IsKnown : RecordCode → Record → Records → Type 0
IsKnown R rec records =
    All (λ x. (R.deserialize x.1 ≡ none) ⊎ (R.deserialize x.1 ≡ some rec)) records

drop_record-IsKnown :
    (R : RecordCode) (rec : Record) (name : Text) (records : Records)
    → IsKnown R rec records
    → IsKnown R rec (drop_record name records)
unfolding drop_record
drop_record-IsKnown R rec name [] h = tt
drop_record-IsKnown R rec name ((n, b) ∷ rest) h =
    ground (arith, drop_record-IsKnown R rec name rest h.1)

-- A record that was written is read back, and a part of it is not.
abbrev pub IsReadBack : RecordCode → Record → Type 0
IsReadBack R rec =
    (bytes : Bytes) (n : ℕ)
    → R.serialize rec ≡ done bytes
    → (R.deserialize bytes ≡ some rec)
      × ((R.deserialize (take n bytes) ≡ none) ⊎ (R.deserialize (take n bytes) ≡ some rec))

module _ (Safe I : Moment → Type 0) (os : Os) (R : RecordCode) (rec : Record)
    (code : IsReadBack R rec) (known : (m : Moment) → I m → IsKnown R rec m.records)
    (stable : (m : Moment) (records : Records)
      → IsKnown R rec records
      → I m
      → I (record m { records = records }))
    (safe : (m : Moment) → I m → Safe m) where
  note-Keeps :
      (f : Records → Records)
      → ((records : Records) → IsKnown R rec records → IsKnown R rec (f records))
      → Keeps Safe I (note f)
  note-Keeps f h =
      note-Does Safe I I f I (λ m i. safe _ (stable m _ (h m.records (known m i)) i))
        (λ m i. stable m _ (h m.records (known m i)) i)

  pub complete_if-Keeps : (name : Option Text) → Keeps Safe I (complete_if os R name)
  unfolding complete_if complete
  complete_if-Keeps none = lift-Does Safe I I (ok tt) (λ u. I) (λ m h. h)
  complete_if-Keeps (some name) = attempt-Does Safe I _ I I (
      bind-Does Safe I (ask os forget_record) I (λ u. I) _ (λ u. I)
        (ask-Does Safe I I os forget_record (λ m h. h))
        (λ u. note-Keeps (drop_record name) (drop_record-IsKnown R rec name)))

  put_record-IsKnown :
      (name : Text) (bytes : Bytes) (records : Records)
      → (R.deserialize bytes ≡ none) ⊎ (R.deserialize bytes ≡ some rec)
      → IsKnown R rec records
      → IsKnown R rec (put_record name bytes records)
  put_record-IsKnown name bytes records new h = (new, drop_record-IsKnown R rec name records h)

  -- The record is torn, and then whole.
  written-Keeps :
      (name : Text) (bytes : Bytes)
      → R.serialize rec ≡ done bytes
      → Keeps Safe I (do
        ask os create_record
        note (put_record name [])
        note (put_record name (take os.written bytes))
        ask os write_record
        note (put_record name bytes)
        pure name)
  unfolding take
  written-Keeps name bytes h =
      let put_known : (b : Bytes)
          → (R.deserialize b ≡ none) ⊎ (R.deserialize b ≡ some rec)
          → Keeps Safe I (note (put_record name b)) =
        λ b new.
          note-Keeps (put_record name b) (λ records. put_record-IsKnown name b records new) in
      let asked : (c : OsCall) → Keeps Safe I (ask os c) = λ c. ask-Does Safe I I os c (λ m h. h) in
      bind-Does Safe I (ask os create_record) I (λ u. I) _ (λ u. I) (asked create_record)
        (λ u.
          bind-Does Safe I (note (put_record name [])) I (λ u. I) _ (λ u. I)
            (put_known [] (code bytes 0 h).1)
            (λ u.
              bind-Does Safe I (note (put_record name (take os.written bytes))) I (λ u. I) _
                (λ u. I) (put_known _ (code bytes os.written h).1)
                (λ u.
                  bind-Does Safe I (ask os write_record) I (λ u. I) _ (λ u. I) (asked write_record)
                    (λ u.
                      bind-Does Safe I (note (put_record name bytes)) I (λ u. I) _ (λ u. I)
                        (put_known bytes (inr (code bytes 0 h).0))
                        (λ u. lift-Does Safe I I (ok name) (λ u. I) (λ m h. h))))))

  begin-Keeps : (uuid : Bytes) → Keeps Safe I (begin os R uuid rec)
  unfolding begin
  begin-Keeps uuid = elim (Call-cases (R.serialize rec)) [
    | inl (bytes, serialized) ↦ rw (begin, serialized) (written-Keeps _ bytes serialized)
    | inr (e, refused) ↦ rw (begin, refused) (lift-Does Safe I I (err _) (λ u. I) (λ m h. h))
  ]

  pub begin_if-Keeps :
      (journal : Bool) (uuid : Bytes) → Keeps Safe I (begin_if os R journal uuid rec)
  unfolding begin_if
  begin_if-Keeps false uuid = lift-Does Safe I I (ok none) (λ u. I) (λ m h. h)
  begin_if-Keeps true uuid =
      bind-Does Safe I (begin os R uuid rec) I (λ u. I) _ (λ u. I) (begin-Keeps uuid)
        (λ name. lift-Does Safe I I (ok (some name)) (λ u. I) (λ m h. h))
