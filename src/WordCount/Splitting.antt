-- ===== src/WordCount/Splitting.antt =====
-- examples/wordCount/text2lines/text2lines.cpp and examples/wordCount/lines2words/lines2words.cpp: the
-- classes that cut a text into lines, and lines into words. The calls of `push` are a list, each with
-- the state that it is made in. The counters are `int`s, which are taken not to overflow.
pub mod Marks
use iceflow.Prelude.{ℕ, ◌+◌, Option, none, some, List, [], ◌∷◌, ◌++◌, String}
use iceflow.WordCount.Text.{split_words, split_lines}
use iceflow.WordCount.Recording.{Recorder, note}

-- `WordSplitter`, and the measurements of its process
pub record WordSplitter : Type 0 where
  pub compute_counter : ℕ
  pub recorder : Recorder

module _ (to_string : ℕ → String) (clock : ℕ → ℕ) where
  mark_word : WordSplitter → WordSplitter
  mark_word s =
      let r = note to_string clock s.compute_counter "lines1->words" s.recorder in
      record {
        compute_counter = s.compute_counter + 1;
        recorder = note to_string clock s.compute_counter "CMP_FINISH" r;
      }

  -- the loop over the words
  split_loop : List (List ℕ) → WordSplitter → List (WordSplitter × List ℕ) × WordSplitter
  unfolding mark_word
  split_loop [] s = ([], s)
  split_loop (word ∷ words) s =
      let (pushes, s') = split_loop words (mark_word s) in ((s, word) ∷ pushes, s')

  -- `WordSplitter::lines2words`
  unfoldable pub lines2words : List ℕ → WordSplitter → List (WordSplitter × List ℕ) × WordSplitter
  unfolding split_loop
  lines2words line s =
      split_loop (split_words line)
        (record s { recorder = note to_string clock s.compute_counter "CMP_START" s.recorder })

  -- the loop over the lines, and the counter after it
  lines_loop :
      List (List ℕ) → (compute_counter : ℕ) → Recorder → List (Recorder × List ℕ) × ℕ × Recorder
  lines_loop [] counter r = ([], counter, r)
  lines_loop (line ∷ lines) counter r =
      let started = note to_string clock counter "CMP_START" r in
      let first = note to_string clock counter "text->lines1" started in
      let second = note to_string clock counter "text->lines2" first in
      let (pushes, counter', r') =
        lines_loop lines (counter + 1) (note to_string clock counter "CMP_FINISH" second) in
      ((started, line) ∷ pushes, counter', r')

  finished : List (Recorder × List ℕ) × ℕ × Recorder → List (Recorder × List ℕ) × Recorder
  finished (pushes, counter, r) = (pushes, note to_string clock counter "CMP_FINISH" r)

  -- `LineSplitter::text2lines`, on what the file holds, or on a file that does not open
  unfoldable pub text2lines : Option (List ℕ) → Recorder → List (Recorder × List ℕ) × Recorder
  unfolding lines_loop finished
  text2lines none r = ([], r)
  text2lines (some text) r = finished (lines_loop (split_lines text) 0 r)
