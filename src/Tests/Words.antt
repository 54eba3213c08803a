-- ===== src/Tests/Words.antt =====
-- The classes of the word count example, at a text of two lines.
use iceflow.Prelude.{
  true, false, ℕ, ◌+◌, ◌≡◌, refl, some, List, [], ◌∷◌, map, String, arith, length,
}
use mathlib.Core.List.{Perm, Permᴰ}
use iceflow.WordCount.Recording.{Mark, notes, signal_callback_handler, Recorder, entries_of}
use iceflow.WordCount.Recording.Interrupted.{Recorded, interrupted-Recorded, interrupted_lost}
use iceflow.Measurements.{Directory}
use iceflow.Measurements.Files.{Written}
use iceflow.WordCount.Text.{is_space, split_words, split_lines}
use iceflow.WordCount.Splitting.{WordSplitter, lines2words, text2lines}
use iceflow.WordCount.Splitting.Marks.{pushed, word_marks, lines2words_lem}
use iceflow.WordCount.Counting.{WordCounter, count_of, to_lower}
use iceflow.WordCount.Counting.Counts.{occurrences, count_words}
use iceflow.WordCount.Pipeline.{words_pushed, pipeline_counts}

abbrev pub print : ℕ → String
print n = "n"

abbrev pub ticks : ℕ → ℕ
ticks n = 100 + n

-- A directory in which every file can be opened.
abbrev pub a_folder : Directory
a_folder = record { opens = λ name. true; written = [] }

abbrev pub fresh : Recorder
fresh = record {
  measurement = record {
    file_name = "";
    node_name = "node";
    measurement_id = "run";
    observed_object = "A";
    file_count = 0;
    entries = [];
    save_threshold = 3;
  };
  files = a_folder;
  readings = 0;
}

-- "a b", "B", and a text of these two lines
abbrev pub line_a_b : List ℕ
line_a_b = 97 ∷ 32 ∷ 98 ∷ []

abbrev pub line_b : List ℕ
line_b = 66 ∷ []

abbrev pub two_lines : List ℕ
two_lines = 97 ∷ 32 ∷ 98 ∷ 10 ∷ 66 ∷ 10 ∷ []

abbrev pub splitter_at : ℕ → WordSplitter
splitter_at n = record { compute_counter = n; recorder = fresh }

abbrev pub counter : WordCounter
counter = record { word_count_map = []; compute_counter = 0; recorder = fresh }

-- The second line is handled first, by another splitter.
abbrev jobs : List (WordSplitter × List ℕ)
jobs = (splitter_at 7, line_b) ∷ (splitter_at 0, line_a_b) ∷ []

abbrev arrived : List (List ℕ)
arrived = (97 ∷ []) ∷ (66 ∷ []) ∷ (98 ∷ []) ∷ []

lines_of_text : pushed (text2lines print ticks (some two_lines) fresh).0 ≡ line_a_b ∷ line_b ∷ []
unfolding text2lines split_lines
lines_of_text = refl

words_of_jobs : words_pushed print ticks jobs ≡ (66 ∷ []) ∷ (97 ∷ []) ∷ (98 ∷ []) ∷ []
unfolding lines2words split_words is_space
words_of_jobs = refl

jobs_share : Perm (pushed jobs) (pushed (text2lines print ticks (some two_lines) fresh).0)
jobs_share = rw lines_of_text (∣ Permᴰ.swap refl refl ∣₁)

words_arrive : Perm arrived (words_pushed print ticks jobs)
words_arrive = rw words_of_jobs (∣ Permᴰ.swap refl refl ∣₁)

pipeline_counts_example :
    count_of (98 ∷ []) (count_words print ticks arrived counter).word_count_map
    ≡ occurrences (98 ∷ []) (map (map to_lower) (split_words two_lines))
pipeline_counts_example =
    pipeline_counts print ticks two_lines fresh jobs arrived counter (98 ∷ []) jobs_share
      words_arrive refl

-- "b" occurs twice, once as "B".
two_of_b : occurrences (98 ∷ []) (map (map to_lower) (split_words two_lines)) ≡ 2
unfolding split_words is_space to_lower
two_of_b = refl

lines2words_lem_example :
    let m = fresh.measurement in
    let (pushes, s') = lines2words print ticks line_a_b (splitter_at 7) in
    let words = split_words line_a_b in
    let marks = (7, "CMP_START") ∷ word_marks 7 words in
    (pushed pushes ≡ words)
    × (s'.compute_counter ≡ 7 + length words)
    × Written print m
        (entries_of print ticks 0 marks)
        a_folder
        (s'.recorder.measurement, s'.recorder.files)
lines2words_lem_example = lines2words_lem print ticks line_a_b (splitter_at 7) (omega arith)

abbrev two_marks : List Mark
two_marks = (0, "CMP_START") ∷ (0, "CMP_FINISH") ∷ []

interrupted-Recorded_example :
    let (status, r') = signal_callback_handler print 2 (notes print ticks two_marks fresh) in
    (status ≡ 2) × (r'.measurement.entries ≡ []) × Recorded print ticks fresh two_marks r'.files
interrupted-Recorded_example = interrupted-Recorded print ticks 2 two_marks fresh (omega arith)

-- A directory in which no file can be opened.
abbrev shut_folder : Directory
shut_folder = record { opens = λ name. false; written = [] }

interrupted_lost_example :
    let r : Recorder = record fresh { files = shut_folder } in
    let (_, r') = signal_callback_handler print 2 (notes print ticks two_marks r) in
    (r'.measurement.entries ≡ []) × (r'.files ≡ shut_folder)
interrupted_lost_example =
    interrupted_lost print ticks 2 two_marks (record fresh { files = shut_folder }) (omega arith)
      (λ rest. refl)
