-- ===== src/WordCount/Counting/Counts.antt =====
-- What the word counter has counted.
use iceflow.Prelude.{
  ℕ, ◌+◌, ◌≡◌, ◌↔◌, refl, ap, true, List, [], ◌∷◌, ◌++◌, map, arith, if◌then◌else◌, flatten, String,
}
use mathlib.Core.List.{map-append}
use iceflow.WordCount.Text.{split_words}
use iceflow.WordCount.Recording.{note}
use iceflow.WordCount.Counting.{
  bytes_eq, WordCounts, count_up, count_of, to_lower, WordCounter, count_one, count_loop,
  count_word,
}

-- How often a word stands among others.
abbrev pub occurrences : List ℕ → List (List ℕ) → ℕ
occurrences word [] = 0
occurrences word (w ∷ ws) = (if bytes_eq w word then 1 else 0) + occurrences word ws

pub occurrences-append :
    (word : List ℕ) (vs ws : List (List ℕ))
    → occurrences word (vs ++ ws) ≡ occurrences word vs + occurrences word ws
occurrences-append word [] ws = omega arith
occurrences-append word (v ∷ vs) ws = ground (arith, occurrences-append word vs ws)

bytes_eq_iff : (v w : List ℕ) → (bytes_eq v w ≡ true) ↔ (v ≡ w)
bytes_eq_iff [] [] = (λ _. refl, λ _. refl)
bytes_eq_iff [] (d ∷ w) = (λ e. cc, λ e. cc)
bytes_eq_iff (c ∷ v) [] = (λ e. cc, λ e. cc)
bytes_eq_iff (c ∷ v) (d ∷ w) = (
  λ e. let h = (bytes_eq_iff v w).0 in ground (arith, h),
  λ e. let h = (bytes_eq_iff v w).1 in ground (arith, h),
)

count_of-count_up :
    (word v : List ℕ) (counts : WordCounts)
    → count_of word (count_up v counts) ≡ count_of word counts + (if bytes_eq v word then 1 else 0)
unfolding count_up
count_of-count_up word v [] = ground arith
count_of-count_up word v ((w, n) ∷ counts) = ground (
  arith,
  bytes_eq_iff w word,
  bytes_eq_iff w v,
  bytes_eq_iff v word,
  count_of-count_up word v counts,
)

module _ (to_string : ℕ → String) (clock : ℕ → ℕ) where
  -- Messages one after the other.
  abbrev pub count_words : List (List ℕ) → WordCounter → WordCounter
  count_words [] c = c
  count_words (message ∷ messages) c = count_words messages (count_word to_string clock message c)

  count_loop_counts :
      (word : List ℕ) (words : List (List ℕ)) (c : WordCounter)
      → count_of word (count_loop to_string clock words c).word_count_map
        ≡ count_of word c.word_count_map + occurrences word (map (map to_lower) words)
  unfolding count_loop count_one
  count_loop_counts word [] c = omega arith
  count_loop_counts word (w ∷ words) c = omega (
    arith,
    count_loop_counts word words (count_one to_string clock w c),
    count_of-count_up word (map to_lower w) c.word_count_map,
  )

  -- Counting messages adds to the count of a word the number of its occurrences in them, all letters
  -- in lower case.
  pub count_words_counts :
      (word : List ℕ) (messages : List (List ℕ)) (c : WordCounter)
      → count_of word (count_words messages c).word_count_map
        ≡ count_of word c.word_count_map
          + occurrences word (map (map to_lower) (flatten (map split_words messages)))
  unfolding count_word
  count_words_counts word [] c = omega arith
  count_words_counts word (message ∷ messages) c =
      let started = note to_string clock c.compute_counter "CMP_START" c.recorder in
      let noted = note to_string clock c.compute_counter "text->wordcount" started in
      let rest = flatten (map split_words messages) in
      omega (
        arith,
        count_words_counts word messages (count_word to_string clock message c),
        count_loop_counts word (split_words message) (record c { recorder = noted }),
        occurrences-append word (map (map to_lower) (split_words message))
            (map (map to_lower) rest),
        ap (occurrences word) (map-append (map to_lower) (split_words message) rest),
      )
