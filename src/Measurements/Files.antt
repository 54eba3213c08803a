-- ===== src/Measurements/Files.antt =====
-- Which entries are in which file.
use iceflow.Prelude.{
  ℕ, suc, ◌+◌, ◌<◌, ◌≡◌, ap, sym, subst, ◌∙◌, true, false, inl, inr, List, [], ◌∷◌, ◌++◌, String,
  arith, length, length-append, leb, Bool-cases, All, flatten, select, refl,
}
use mathlib.Core.List.{append-nil, append_assoc}
use iceflow.Measurements.{
  Entry, Measurement, Directory, file_of, write_file, set_field, record_to_file,
}

-- Of some files, those that can be opened are written, one after the other.
abbrev pub write_files : List (String × String) → Directory → Directory
write_files fs d = record d {
  written = d.written ++ select (λ (f : String × String). d.opens f.0) fs;
}

pub write_files-cons :
    (file : String × String) (fs : List (String × String)) (d : Directory)
    → write_files fs (write_file file d) ≡ write_files (file ∷ fs) d
unfolding write_file
write_files-cons file fs d = elim (Bool-cases (d.opens file.0)) [
  | inl opened ↦ rw opened (
      ap (λ (l : List (String × String)). record d { written = l })
        (append_assoc d.written (file ∷ []) (select (λ (f : String × String). d.opens f.0) fs)))
  | inr shut ↦ rw shut refl
]

write_files-none : (d : Directory) → d ≡ write_files [] d
write_files-none d =
    ap (λ (l : List (String × String)). record d { written = l }) (sym (append-nil d.written))

module _ (to_string : ℕ → String) where
  -- Calls of `setField`, one after the other.
  abbrev pub set_fields : List Entry → Measurement → Directory → Measurement × Directory
  set_fields [] m files = (m, files)
  set_fields (e ∷ es) m files =
      let (m', files') = set_field to_string e.interest e.entryname e.size e.timestamp m files in
      set_fields es m' files'

  -- A file for each batch, numbered from `count` + 1 on.
  abbrev pub files_of :
      (node_name observed_object measurement_id : String)
      → (count : ℕ) → List (List Entry)
      → List (String × String)
  files_of node object id count [] = []
  files_of node object id count (batch ∷ batches) =
      file_of to_string node object id (count + 1) batch
      ∷ files_of node object id (count + 1) batches

  -- What some entries have become.
  abbrev pub Written : Measurement → List Entry → Directory → Measurement × Directory → Type 0
  Written m es files r =
      (batches : List (List Entry)) × (m.entries ++ es ≡ flatten batches ++ r.0.entries)
      × All (λ batch. length batch ≡ m.save_threshold) batches
      × (length r.0.entries < m.save_threshold)
      × (r.0 ≡ record m {
        file_name = r.0.file_name;
        file_count = m.file_count + length batches;
        entries = r.0.entries;
      })
      × (r.1
          ≡ write_files
              (files_of m.node_name m.observed_object m.measurement_id m.file_count batches) files)

  module _ (m : Measurement) (e : Entry) (es : List Entry) (files : Directory) where
    grown : Measurement
    grown = record m { entries = m.entries ++ e ∷ [] }

    set_field_kept :
        leb m.save_threshold (length (m.entries ++ e ∷ [])) ≡ false
        → set_field to_string e.interest e.entryname e.size e.timestamp m files ≡ (grown, files)
    unfolding set_field grown
    set_field_kept few = rw (set_field, few)

    set_field_recorded :
        leb m.save_threshold (length (m.entries ++ e ∷ [])) ≡ true
        → set_field to_string e.interest e.entryname e.size e.timestamp m files
          ≡ record_to_file to_string grown files
    unfolding set_field grown
    set_field_recorded many = rw (set_field, many)

    counting : String → List Entry → ℕ → Measurement
    counting name kept k = record m { file_name = name; file_count = k; entries = kept }

    counted :
        (name : String) (kept : List Entry) (n : ℕ)
        → counting name kept (m.file_count + 1 + n) ≡ counting name kept (m.file_count + suc n)
    counted name kept n =
        let e : m.file_count + 1 + n ≡ m.file_count + suc n = omega arith in
        ap (counting name kept) e

    kept-Written :
        (r : Measurement × Directory) → Written grown es files r → Written m (e ∷ es) files r
    unfolding grown
    kept-Written r (batches, complete, full, fewer, same, written) =
        (batches, sym (append_assoc m.entries (e ∷ []) es) ∙ complete, full, fewer, same, written)

    recorded-Written :
        (r : Measurement × Directory)
        → length (m.entries ++ e ∷ []) ≡ m.save_threshold
        → (let (m', files') = record_to_file to_string grown files in Written m' es files' r)
        → Written m (e ∷ es) files r
    unfolding grown record_to_file counting
    recorded-Written r whole (batches, complete, full, fewer, same, written) = (
      (m.entries ++ e ∷ []) ∷ batches,
      sym (append_assoc m.entries (e ∷ []) es)
          ∙ ap (λ l. (m.entries ++ e ∷ []) ++ l) complete
          ∙ sym (append_assoc (m.entries ++ e ∷ []) (flatten batches) r.0.entries),
      (whole, full),
      fewer,
      same ∙ counted r.0.file_name r.0.entries (length batches),
      written ∙ write_files-cons _ _ files,
    )

  counted_none : (m : Measurement) → m ≡ record m { file_count = m.file_count + 0 }
  counted_none m =
      let e : m.file_count ≡ m.file_count + 0 = omega arith in
      ap (λ (k : ℕ). record m { file_count = k }) e

  -- With fewer entries in memory than the threshold, calls of `setField` take the entries in their
  -- order: whenever there are as many as the threshold, they leave the memory for the next file, which
  -- is written if it can be opened, and else they are lost; the others, fewer than the threshold, stay
  -- in memory. The files are counted, opened or not, and nothing else changes.
  pub set_fields-Written :
      (es : List Entry) (m : Measurement) (files : Directory)
      → length m.entries < m.save_threshold
      → Written m es files (set_fields es m files)
  unfolding grown record_to_file
  set_fields-Written [] m files h =
      ([], append-nil m.entries, tt, h, counted_none m, write_files-none files)
  set_fields-Written (e ∷ es) m files h =
      elim (Bool-cases (leb m.save_threshold (length (m.entries ++ e ∷ [])))) [
        | inl many ↦
            let whole : length (m.entries ++ e ∷ []) ≡ m.save_threshold =
              ground (arith, many, h, length-append m.entries (e ∷ [])) in
            let (m', files') = record_to_file to_string (grown m e es files) files in
            subst
              (λ (p : Measurement × Directory). Written m (e ∷ es) files (set_fields es p.0 p.1))
              (sym (set_field_recorded m e es files many))
              (recorded-Written m e es files (set_fields es m' files') whole
                (set_fields-Written es m' files' (omega (arith, h))))
        | inr few ↦
            subst
              (λ (p : Measurement × Directory). Written m (e ∷ es) files (set_fields es p.0 p.1))
              (sym (set_field_kept m e es files few))
              (kept-Written m e es files (set_fields es (grown m e es files) files)
                (set_fields-Written es (grown m e es files) files (ground (arith, few))))
      ]
