-- ===== src/WordCount/Recording/Interrupted.antt =====
-- What an application that is interrupted leaves of its measurements.
use iceflow.Prelude.{
  ℕ, suc, ◌+◌, ◌<◌, ◌≡◌, refl, ap, sym, ◌∙◌, List, [], ◌∷◌, ◌++◌, String, arith, length, All,
  flatten, Bool, false, Bool-cases, inl, inr, select, if◌then◌else◌,
}
use Prim.Native.String.{◌++◌ as ◌<>◌}
use mathlib.Core.List.{append_assoc, append-nil}
use iceflow.Measurements.{Entry, Measurement, Directory, file_of, write_file, record_to_file}
use iceflow.Measurements.Files.{files_of, write_files}
use iceflow.WordCount.Recording.{
  Recorder, Mark, notes, entries_of, notes-Written, signal_callback_handler,
}

select-last :
    (p : String × String → Bool) (fs : List (String × String)) (f : String × String)
    → select p (fs ++ f ∷ []) ≡ (if p f then select p fs ++ f ∷ [] else select p fs)
select-last p [] f = refl
select-last p (g ∷ fs) f = ground (arith, select-last p fs f)

write_files-last :
    (file : String × String) (fs : List (String × String)) (d : Directory)
    → write_file file (write_files fs d) ≡ write_files (fs ++ file ∷ []) d
unfolding write_file
write_files-last file fs d = elim (Bool-cases (d.opens file.0)) [
  | inl opened ↦
      let e : select (λ (f : String × String). d.opens f.0) (fs ++ file ∷ [])
          ≡ select (λ (f : String × String). d.opens f.0) fs ++ file ∷ [] =
        select-last (λ (f : String × String). d.opens f.0) fs file ∙ rw opened refl in
      rw (opened, e)
        (ap (λ (l : List (String × String)). record d { written = l })
          (append_assoc d.written (select (λ (f : String × String). d.opens f.0) fs) (file ∷ [])))
  | inr shut ↦
      let e : select (λ (f : String × String). d.opens f.0) (fs ++ file ∷ [])
          ≡ select (λ (f : String × String). d.opens f.0) fs =
        select-last (λ (f : String × String). d.opens f.0) fs file ∙ rw shut refl in
      rw (shut, e) refl
]

write_files-shut :
    (fs : List (String × String)) (d : Directory)
    → All (λ (f : String × String). d.opens f.0 ≡ false) fs
    → write_files fs d ≡ d
write_files-shut [] d h =
    ap (λ (l : List (String × String)). record d { written = l }) (append-nil d.written)
write_files-shut (f ∷ fs) d h = rw (h.0) (write_files-shut fs d h.1)

module _ (to_string : ℕ → String) (node object id : String) where
  files_of-last :
      (count : ℕ) (batches : List (List Entry)) (last : List Entry)
      → files_of to_string node object id count (batches ++ last ∷ [])
        ≡ files_of to_string node object id count batches
          ++ file_of to_string node object id (count + length batches + 1) last ∷ []
  files_of-last count [] last =
      let e : count + 1 ≡ count + 0 + 1 = omega arith in
      ap (λ k. file_of to_string node object id k last ∷ []) e
  files_of-last count (batch ∷ batches) last =
      let e : count + 1 + length batches + 1 ≡ count + suc (length batches) + 1 = omega arith in
      ap (λ fs. file_of to_string node object id (count + 1) batch ∷ fs)
        (files_of-last (count + 1) batches last
          ∙ ap
              (λ k.
                files_of to_string node object id (count + 1) batches
                ++ file_of to_string node object id k last ∷ [])
              e)

  files_of-shut :
      (d : Directory)
      → ((rest : String) → d.opens ("measurements/" <> (id <> ("_" <> (node <> rest)))) ≡ false)
      → (count : ℕ) (batches : List (List Entry))
      → All
          (λ (f : String × String). d.opens f.0 ≡ false)
          (files_of to_string node object id count batches)
  unfolding file_of
  files_of-shut d shut count [] = tt
  files_of-shut d shut count (batch ∷ batches) = (shut _, files_of-shut d shut (count + 1) batches)

module _ (to_string : ℕ → String) (clock : ℕ → ℕ) where
  -- All entries have left the memory for files: those that were there, and then those of the marks, in
  -- their order, as many to a file as the threshold says, and fewer in the last one. The files that
  -- can be opened are written, and no other.
  abbrev pub Recorded : Recorder → List Mark → Directory → Type 0
  Recorded r marks files =
      let m = r.measurement in
      (batches : List (List Entry)) × (last : List Entry) × (m.entries
          ++ entries_of to_string clock r.readings marks
        ≡ flatten batches ++ last)
      × All (λ batch. length batch ≡ m.save_threshold) batches
      × (length last < m.save_threshold)
      × (files
          ≡ write_files
              (files_of to_string m.node_name m.observed_object m.measurement_id m.file_count
                (batches ++ last ∷ []))
              r.files)

  -- An application that is interrupted between two calls of `setField`, and whose memory had fewer
  -- entries than the threshold when it began, exits with the number of the signal and keeps nothing in
  -- memory. All that it has noted has gone to files, in order, as many entries to each as the threshold
  -- says and fewer to the last one; those that could be opened were written, and no other.
  pub interrupted-Recorded :
      (signum : ℕ) (marks : List Mark) (r : Recorder)
      → length r.measurement.entries < r.measurement.save_threshold
      → let (status, r') =
          signal_callback_handler to_string signum (notes to_string clock marks r) in
        (status ≡ signum) × (r'.measurement.entries ≡ []) × Recorded r marks r'.files
  unfolding signal_callback_handler record_to_file
  interrupted-Recorded signum marks r h =
      let m = r.measurement in
      let r' = notes to_string clock marks r in
      let (batches, complete, full, fewer, same, written) =
        notes-Written to_string clock marks r h in
      let file : Measurement → String × String = λ n.
        file_of to_string n.node_name n.observed_object n.measurement_id (n.file_count + 1)
          r'.measurement.entries in
      let fs : List (String × String) =
        files_of to_string m.node_name m.observed_object m.measurement_id m.file_count batches in
      (
        refl,
        refl,
        (
          batches,
          r'.measurement.entries,
          complete,
          full,
          fewer,
          ap (write_file (file r'.measurement)) written
              ∙ (write_files-last (file r'.measurement) fs r.files
                  ∙ ap (λ l. write_files l r.files)
                      (ap (λ n. fs ++ file n ∷ []) same
                        ∙ sym (
                            files_of-last to_string m.node_name m.observed_object m.measurement_id
                              m.file_count batches r'.measurement.entries))),
        ),
      )

  -- An application is interrupted between two calls of `setField`, its memory had fewer entries than
  -- the threshold when it began, and no file can be opened whose name is "measurements/", the
  -- measurement's id, "_", the node name and anything after it. Then all that it has noted is lost: in
  -- the end nothing is in memory, and no file has been written.
  pub interrupted_lost :
      (signum : ℕ) (marks : List Mark) (r : Recorder)
      → length r.measurement.entries < r.measurement.save_threshold
      → ((rest : String)
          → r.files.opens (
              "measurements/"
              <> (r.measurement.measurement_id <> ("_" <> (r.measurement.node_name <> rest))))
            ≡ false)
      → let (_, r') = signal_callback_handler to_string signum (notes to_string clock marks r) in
        (r'.measurement.entries ≡ []) × (r'.files ≡ r.files)
  interrupted_lost signum marks r h shut =
      let m = r.measurement in
      let (_, forgotten, (batches, last, _, _, _, written)) =
        interrupted-Recorded signum marks r h in
      (
        forgotten,
        written
            ∙ write_files-shut _ r.files (
                files_of-shut to_string m.node_name m.observed_object m.measurement_id r.files shut
                  m.file_count (batches ++ last ∷ [])),
      )
