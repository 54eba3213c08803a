-- ===== src/WordCount/Pipeline.antt =====
-- The three applications of examples/wordCount together: a text is cut into lines, the lines into
-- words, and the words are counted, whatever the network does with the order of the messages.
use iceflow.Prelude.{
  ℕ, ◌+◌, ◌≡◌, refl, ap, sym, ◌∙◌, some, List, [], ◌∷◌, ◌++◌, map, String, arith, flatten, All,
}
use mathlib.Core.Logic.{∥∥₁_elim}
use mathlib.Core.List.{map-append, Perm, Permᴰ}
use native.Mathlib.Nat.{ℕ_set}
use iceflow.WordCount.Text.{
  split_words, split_lines, split_lines-split_words, IsWord, split_words-IsWord,
  split_words-AllIsWord,
}
use iceflow.WordCount.Recording.{Recorder}
use iceflow.WordCount.Splitting.{WordSplitter, lines2words, text2lines}
use iceflow.WordCount.Splitting.Marks.{pushed, pushed-lines2words, pushed-text2lines}
use iceflow.WordCount.Counting.{WordCounter, count_of, to_lower}
use iceflow.WordCount.Counting.Counts.{
  occurrences, occurrences-append, count_words, count_words_counts,
}

module _ {A : Type 0} (h : A → ℕ) where
  total : List A → ℕ
  total [] = 0
  total (x ∷ xs) = h x + total xs

  total-append : (xs ys : List A) → total (xs ++ ys) ≡ total xs + total ys
  unfolding total
  total-append [] ys = omega arith
  total-append (x ∷ xs) ys = omega (arith, total-append xs ys)

  total-PermD : {xs ys : List A} → Permᴰ xs ys → total xs ≡ total ys
  unfolding total
  total-PermD Permᴰ.nil = refl
  total-PermD (Permᴰ.cons e d) = omega (arith, ap h e, total-PermD d)
  total-PermD (Permᴰ.swap e₁ e₂) = omega (arith, ap h e₁, ap h e₂)
  total-PermD (Permᴰ.trans d₁ d₂) = total-PermD d₁ ∙ total-PermD d₂

  -- The order does not matter to a sum.
  total-Perm : {xs ys : List A} → Perm xs ys → total xs ≡ total ys
  total-Perm p = ∥∥₁_elim p (ℕ_set _ _) (λ d. total-PermD d)

module _ (word : List ℕ) where
  -- how often the word stands in a message, all letters in lower case
  occurrences_in : List ℕ → ℕ
  occurrences_in message = occurrences word (map (map to_lower) (split_words message))

  occurrences-total :
      (messages : List (List ℕ))
      → occurrences word (map (map to_lower) (flatten (map split_words messages)))
        ≡ total occurrences_in messages
  unfolding total occurrences_in
  occurrences-total [] = refl
  occurrences-total (message ∷ messages) =
      let rest = flatten (map split_words messages) in
      omega (
        arith,
        occurrences-total messages,
        occurrences-append word (map (map to_lower) (split_words message))
            (map (map to_lower) rest),
        ap (occurrences word) (map-append (map to_lower) (split_words message) rest),
      )

  total-AllIsWord :
      (words : List (List ℕ))
      → All IsWord words
      → total occurrences_in words ≡ occurrences word (map (map to_lower) words)
  unfolding total occurrences_in
  total-AllIsWord [] h = refl
  total-AllIsWord (w ∷ words) h =
      rw (split_words-IsWord w h.0) (omega (arith, total-AllIsWord words h.1))

  -- Cutting lines into words keeps the occurrences.
  total-split_words :
      (lines : List (List ℕ))
      → total occurrences_in (flatten (map split_words lines)) ≡ total occurrences_in lines
  unfolding total occurrences_in
  total-split_words [] = refl
  total-split_words (line ∷ lines) =
      total-append occurrences_in (split_words line) (flatten (map split_words lines))
      ∙ omega (arith, total-split_words lines, kept)
    where
      kept : total occurrences_in (split_words line) ≡ occurrences_in line
      kept = total-AllIsWord (split_words line) (split_words-AllIsWord line)

module _ (to_string : ℕ → String) (clock : ℕ → ℕ) where
  -- A line that a splitter gets, with the state of that splitter.
  abbrev pub Job : Type 0
  Job = WordSplitter × List ℕ

  -- What the splitters push, for their lines.
  abbrev pub words_pushed : List Job → List (List ℕ)
  words_pushed jobs =
      flatten (map (λ (j : Job). pushed (lines2words to_string clock j.1 j.0).0) jobs)

  words_pushed-split_words :
      (jobs : List Job) → words_pushed jobs ≡ flatten (map split_words (pushed jobs))
  words_pushed-split_words [] = refl
  words_pushed-split_words ((s, line) ∷ jobs) =
      rw (pushed-lines2words to_string clock line s, words_pushed-split_words jobs)

  -- However the lines that `text2lines` pushes are shared among splitters, and in whatever order they
  -- and the words that the splitters push arrive, each once: a word counter that starts with no counts
  -- has in the end counted every word as often as it occurs in the text, all letters in lower case.
  pub pipeline_counts :
      (text : List ℕ) (r : Recorder) (jobs : List Job) (messages : List (List ℕ)) (c : WordCounter)
      (word : List ℕ)
      → Perm (pushed jobs) (pushed (text2lines to_string clock (some text) r).0)
      → Perm messages (words_pushed jobs)
      → c.word_count_map ≡ []
      → count_of word (count_words to_string clock messages c).word_count_map
        ≡ occurrences word (map (map to_lower) (split_words text))
  pipeline_counts text r jobs messages c word shared arrived empty = omega (
    arith,
    count_words_counts to_string clock word messages c,
    ap (count_of word) empty,
    occurrences-total word messages
        ∙ total-Perm (occurrences_in word) arrived
        ∙ ap (total (occurrences_in word)) (words_pushed-split_words jobs)
        ∙ total-split_words word (pushed jobs)
        ∙ total-Perm (occurrences_in word) shared
        ∙ ap (total (occurrences_in word)) (pushed-text2lines to_string clock text r)
        ∙ sym (occurrences-total word (split_lines text))
        ∙ ap (λ ws. occurrences word (map (map to_lower) ws)) (split_lines-split_words text),
  )
