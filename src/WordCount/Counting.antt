-- ===== src/WordCount/Counting.antt =====
-- examples/wordCount/wordcount/wordcount.cpp: the class that counts words. What it prints is left out;
-- the counter and the counts are `int`s, which are taken not to overflow.
pub mod Counts
use iceflow.Prelude.{
  ℕ, ◌+◌, Bool, true, false, ◌&&◌, List, [], ◌∷◌, map, leb, ◌==◌, if◌then◌else◌, String,
}
use iceflow.WordCount.Text.{split_words}
use iceflow.WordCount.Recording.{Recorder, note}

-- The equality of the map's keys.
abbrev pub bytes_eq : List ℕ → List ℕ → Bool
bytes_eq [] [] = true
bytes_eq [] (d ∷ ds) = false
bytes_eq (c ∷ cs) [] = false
bytes_eq (c ∷ cs) (d ∷ ds) = c == d && bytes_eq cs ds

abbrev pub WordCounts : Type 0
WordCounts = List (List ℕ × ℕ)

-- `wordCountMap[word]++`: a missing word starts at 0.
unfoldable pub count_up : List ℕ → WordCounts → WordCounts
count_up word [] = (word, 1) ∷ []
count_up word ((w, n) ∷ counts) =
    if bytes_eq w word then (w, n + 1) ∷ counts else (w, n) ∷ count_up word counts

-- How often a word has been counted.
abbrev pub count_of : List ℕ → WordCounts → ℕ
count_of word [] = 0
count_of word ((w, n) ∷ counts) = if bytes_eq w word then n else count_of word counts

-- `std::tolower`, in the C locale
unfoldable pub to_lower : ℕ → ℕ
to_lower c = if leb 65 c && leb c 90 then c + 32 else c

-- `WordCounter`, and the measurements of its process
pub record WordCounter : Type 0 where
  pub word_count_map : WordCounts
  pub compute_counter : ℕ
  pub recorder : Recorder

module _ (to_string : ℕ → String) (clock : ℕ → ℕ) where
  count_one : List ℕ → WordCounter → WordCounter
  unfolding count_up to_lower
  count_one word c =
      let noted = note to_string clock c.compute_counter "lines2->wordcount" c.recorder in
      record {
        word_count_map = count_up (map to_lower word) c.word_count_map;
        compute_counter = c.compute_counter + 1;
        recorder = note to_string clock c.compute_counter "CMP_FINISH" noted;
      }

  -- the loop over the words
  count_loop : List (List ℕ) → WordCounter → WordCounter
  count_loop [] c = c
  count_loop (word ∷ words) c = count_loop words (count_one word c)

  -- `WordCounter::countWord`, on what `receive` returns
  unfoldable pub count_word : List ℕ → WordCounter → WordCounter
  unfolding count_one count_loop
  count_word words c =
      let started = note to_string clock c.compute_counter "CMP_START" c.recorder in
      let noted = note to_string clock c.compute_counter "text->wordcount" started in
      count_loop (split_words words) (record c { recorder = noted })
