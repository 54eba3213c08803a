-- ===== src/WordCount/Splitting/Marks.antt =====
-- What the splitters push, and what they note.
use iceflow.Prelude.{
  ℕ, ◌+◌, ◌<◌, ◌≡◌, refl, ap, sym, subst, ◌∙◌, Option, none, some, List, [], ◌∷◌, map, String,
  arith, length, ◌⊎◌, inl, inr,
}
use iceflow.WordCount.Text.{split_words, split_lines}
use iceflow.WordCount.Recording.{Recorder, Mark, note, notes, entries_of, notes-Written}
use iceflow.WordCount.Splitting.{
  WordSplitter, split_loop, mark_word, lines2words, lines_loop, finished, text2lines,
}
use iceflow.Measurements.Files.{Written}

-- What is pushed, without the states.
abbrev pub pushed : {S : Type 0} → List (S × List ℕ) → List (List ℕ)
pushed pushes = map (λ p. p.1) pushes

-- Two marks for each word.
abbrev pub word_marks : (counter : ℕ) → List (List ℕ) → List Mark
word_marks counter [] = []
word_marks counter (word ∷ words) =
    (counter, "lines1->words") ∷ (counter, "CMP_FINISH") ∷ word_marks (counter + 1) words

-- Four marks for each line, and one after the last.
abbrev pub line_marks : (counter : ℕ) → List (List ℕ) → List Mark
line_marks counter [] = (counter, "CMP_FINISH") ∷ []
line_marks counter (line ∷ lines) =
    (counter, "CMP_START")
    ∷ (counter, "text->lines1")
    ∷ (counter, "text->lines2")
    ∷ (counter, "CMP_FINISH")
    ∷ line_marks (counter + 1) lines

module _ (to_string : ℕ → String) (clock : ℕ → ℕ) where
  pushed-split_loop :
      (words : List (List ℕ)) (s : WordSplitter)
      → pushed (split_loop to_string clock words s).0 ≡ words
  unfolding split_loop
  pushed-split_loop [] s = refl
  pushed-split_loop (word ∷ words) s =
      ap (λ ws. word ∷ ws) (pushed-split_loop words (mark_word to_string clock s))

  split_loop-notes :
      (words : List (List ℕ)) (s : WordSplitter)
      → ((split_loop to_string clock words s).1.recorder
          ≡ notes to_string clock (word_marks s.compute_counter words) s.recorder)
        × ((split_loop to_string clock words s).1.compute_counter
            ≡ s.compute_counter + length words)
  unfolding split_loop mark_word
  split_loop-notes [] s = (refl, omega arith)
  split_loop-notes (word ∷ words) s =
      let (noted, counted) = split_loop-notes words (mark_word to_string clock s) in
      (noted, counted ∙ omega arith)

  pub pushed-lines2words :
      (line : List ℕ) (s : WordSplitter)
      → pushed (lines2words to_string clock line s).0 ≡ split_words line
  unfolding lines2words
  pushed-lines2words line s = pushed-split_loop (split_words line) _

  -- For every line, with fewer entries in memory than the threshold, `lines2words` pushes its words in
  -- their order, adds their number to the counter, and notes a start for the line and two entries for
  -- each word, in that order: as many as the threshold at a time leave the memory for a file, which is
  -- written if it can be opened, and the others stay in memory.
  pub lines2words_lem :
      (line : List ℕ) (s : WordSplitter)
      → let m = s.recorder.measurement in
        length m.entries < m.save_threshold
        → let (pushes, s') = lines2words to_string clock line s in
          let words = split_words line in
          let marks = (s.compute_counter, "CMP_START") ∷ word_marks s.compute_counter words in
          (pushed pushes ≡ words)
          × (s'.compute_counter ≡ s.compute_counter + length words)
          × Written to_string m
              (entries_of to_string clock s.recorder.readings marks)
              s.recorder.files
              (s'.recorder.measurement, s'.recorder.files)
  unfolding lines2words
  lines2words_lem line s h =
      let started = note to_string clock s.compute_counter "CMP_START" s.recorder in
      let words = split_words line in
      let (noted, counted) = split_loop-notes words (record s { recorder = started }) in
      (
        pushed-split_loop words (record s { recorder = started }),
        counted,
        subst
            (λ (r : Recorder).
              Written to_string s.recorder.measurement
                (entries_of to_string clock s.recorder.readings
                  ((s.compute_counter, "CMP_START") ∷ word_marks s.compute_counter words))
                s.recorder.files (r.measurement, r.files))
            (sym noted)
            (notes-Written to_string clock
              ((s.compute_counter, "CMP_START") ∷ word_marks s.compute_counter words) s.recorder h),
      )

  pushed-lines_loop :
      (lines : List (List ℕ)) (counter : ℕ) (r : Recorder)
      → pushed (lines_loop to_string clock lines counter r).0 ≡ lines
  unfolding lines_loop
  pushed-lines_loop [] counter r = refl
  pushed-lines_loop (line ∷ lines) counter r = ap (λ ls. line ∷ ls) (pushed-lines_loop lines _ _)

  lines_loop-notes :
      (lines : List (List ℕ)) (counter : ℕ) (r : Recorder)
      → (finished to_string clock (lines_loop to_string clock lines counter r)).1
        ≡ notes to_string clock (line_marks counter lines) r
  unfolding lines_loop finished
  lines_loop-notes [] counter r = refl
  lines_loop-notes (line ∷ lines) counter r = lines_loop-notes lines _ _

  pub pushed-text2lines :
      (text : List ℕ) (r : Recorder)
      → pushed (text2lines to_string clock (some text) r).0 ≡ split_lines text
  unfolding text2lines finished
  pushed-text2lines text r = pushed-lines_loop (split_lines text) 0 r

  -- With fewer entries in memory than the threshold, for a text `text2lines` pushes its lines in their
  -- order and notes four entries for each and one after the last, which stay in memory or have gone to
  -- files; for a file that does not open it does nothing.
  pub text2lines_lem :
      (file : Option (List ℕ)) (r : Recorder)
      → length r.measurement.entries < r.measurement.save_threshold
      → let (pushes, r') = text2lines to_string clock file r in
        ((file ≡ none) × (pushed pushes ≡ []) × (r' ≡ r))
        ⊎ ((text : List ℕ) × (file ≡ some text)
            × (pushed pushes ≡ split_lines text)
            × Written to_string r.measurement
                (entries_of to_string clock r.readings (line_marks 0 (split_lines text)))
                r.files
                (r'.measurement, r'.files))
  unfolding text2lines
  text2lines_lem none r h = inl (refl, refl, refl)
  text2lines_lem (some text) r h = inr (
    text,
    refl,
    pushed-lines_loop (split_lines text) 0 r,
    subst
        (λ (r' : Recorder).
          Written to_string r.measurement
            (entries_of to_string clock r.readings (line_marks 0 (split_lines text))) r.files
            (r'.measurement, r'.files))
        (sym (lines_loop-notes (split_lines text) 0 r))
        (notes-Written to_string clock (line_marks 0 (split_lines text)) r h),
  )
