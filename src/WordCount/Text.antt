-- ===== src/WordCount/Text.antt =====
-- The texts that the applications of examples/wordCount handle, as lists of bytes: the words that `>>`
-- reads from a string stream, and the lines that `getline` reads from a file, in the C locale.
use iceflow.Prelude.{
  ℕ, ◌≡◌, refl, ap, sym, ◌∙◌, inl, inr, Bool, false, ◌&&◌, ◌||◌, List, [], ◌∷◌, ◌++◌, map, arith,
  leb, ◌==◌, if◌then◌else◌, Bool-cases, flatten, All, All-append,
}
use mathlib.Core.List.{append-nil, append_assoc}

-- `std::isspace`
unfoldable pub is_space : ℕ → Bool
is_space c = c == 32 || (leb 9 c && leb c 13)

-- A word or a line that has been read, if any byte has.
flush : List ℕ → List (List ℕ)
flush [] = []
flush (c ∷ cs) = (c ∷ cs) ∷ []

-- `word` is what has been read of the current word.
unfoldable pub words_from : (word : List ℕ) → List ℕ → List (List ℕ)
unfolding flush
words_from word [] = flush word
words_from word (c ∷ cs) =
    (if is_space c then flush word else [])
    ++ words_from (if is_space c then [] else word ++ c ∷ []) cs

-- What `while (stream >> word)` reads.
unfoldable pub split_words : List ℕ → List (List ℕ)
unfolding words_from
split_words line = words_from [] line

-- `line` is what has been read of the current line.
unfoldable pub lines_from : (line : List ℕ) → List ℕ → List (List ℕ)
unfolding flush
lines_from line [] = flush line
lines_from line (c ∷ cs) =
    (if c == 10 then line ∷ [] else []) ++ lines_from (if c == 10 then [] else line ++ c ∷ []) cs

-- What `getline(file, line)` reads until it fails: a line feed ends a line and is dropped, and the
-- last line may lack it.
unfoldable pub split_lines : List ℕ → List (List ℕ)
unfolding lines_from
split_lines text = lines_from [] text

words_from-newline :
    (word line rest : List ℕ)
    → words_from word (line ++ 10 ∷ rest) ≡ words_from word line ++ words_from [] rest
unfolding words_from is_space
words_from-newline word [] rest = refl
words_from-newline word (c ∷ line) rest = elim (Bool-cases (is_space c)) [
  | inl space ↦ rw space (
      ap (λ ws. flush word ++ ws) (words_from-newline [] line rest)
      ∙ sym (append_assoc (flush word) (words_from [] line) (words_from [] rest)))
  | inr letter ↦ rw letter (words_from-newline (word ++ c ∷ []) line rest)
]

words_of_lines : List (List ℕ) → List (List ℕ)
words_of_lines lines = flatten (map split_words lines)

lines_from-words :
    (line text : List ℕ) → words_of_lines (lines_from line text) ≡ words_from [] (line ++ text)
unfolding words_of_lines split_words lines_from words_from
lines_from-words [] [] = refl
lines_from-words (c ∷ line) [] =
    append-nil (words_from [] (c ∷ line)) ∙ ap (words_from []) (sym (append-nil (c ∷ line)))
lines_from-words line (c ∷ text) = elim (Bool-cases (c == 10)) [
  | inl ends ↦
      let e : c ≡ 10 = ground (arith, ends) in
      rw e (
        ap (λ ws. words_from [] line ++ ws) (lines_from-words [] text)
        ∙ sym (words_from-newline [] line text))
  | inr more ↦ rw more (
      lines_from-words (line ++ c ∷ []) text ∙ ap (words_from []) (append_assoc line (c ∷ []) text))
]

-- Cutting a text into lines loses no word and joins none.
pub split_lines-split_words :
    (text : List ℕ) → flatten (map split_words (split_lines text)) ≡ split_words text
unfolding words_of_lines split_lines split_words
split_lines-split_words text = lines_from-words [] text

-- A part of a word.
abbrev Letters : List ℕ → Type 0
Letters cs = All (λ c. is_space c ≡ false) cs

-- A word has bytes, and no white space.
abbrev pub IsWord : List ℕ → Type 0
IsWord [] = ⊥
IsWord (c ∷ cs) = (is_space c ≡ false) × All (λ c. is_space c ≡ false) cs

words_from-Letters : (word cs : List ℕ) → Letters cs → words_from word cs ≡ flush (word ++ cs)
unfolding words_from
words_from-Letters word [] h = ap flush (sym (append-nil word))
words_from-Letters word (c ∷ cs) h =
    rw h.0 (words_from-Letters (word ++ c ∷ []) cs h.1 ∙ ap flush (append_assoc word (c ∷ []) cs))

-- A word alone is read as itself.
pub split_words-IsWord : (word : List ℕ) → IsWord word → split_words word ≡ word ∷ []
unfolding split_words flush
split_words-IsWord [] h = absurd h
split_words-IsWord (c ∷ cs) h = words_from-Letters [] (c ∷ cs) h

flush-IsWord : (word : List ℕ) → Letters word → All IsWord (flush word)
unfolding flush
flush-IsWord [] h = tt
flush-IsWord (c ∷ cs) h = (h, tt)

words_from-AllIsWord : (word cs : List ℕ) → Letters word → All IsWord (words_from word cs)
unfolding words_from
words_from-AllIsWord word [] h = flush-IsWord word h
words_from-AllIsWord word (c ∷ cs) h = elim (Bool-cases (is_space c)) [
  | inl space ↦ rw space (
      All-append IsWord (flush word) (words_from [] cs) (flush-IsWord word h)
        (words_from-AllIsWord [] cs tt))
  | inr letter ↦ rw letter (
      words_from-AllIsWord (word ++ c ∷ []) cs
        (All-append (λ c. is_space c ≡ false) word (c ∷ []) h (letter, tt)))
]

pub split_words-AllIsWord : (line : List ℕ) → All IsWord (split_words line)
unfolding split_words
split_words-AllIsWord line = words_from-AllIsWord [] line tt
