-- ===== src/WordCount/Main.antt =====
-- The `main` functions of examples/wordCount, up to `IceFlow::run`. The arguments are those after the
-- command's name. `bytes_of` gives the bytes of a text, and `files` what the file system holds.
pub mod Numerals
pub mod Instances
use iceflow.Prelude.{
  ℕ, zero, suc, ◌+◌, ◌-◌, ◌*◌, ◌%◌, ◌^◌, Bool, true, false, ◌&&◌, Option, none, some, List, [], ◌∷◌,
  String, leb, ltb, ◌==◌, if◌then◌else◌,
}
use iceflow.Prelude.Signed.{ℤ, pos, negsuc}
use iceflow.Prelude.Errors.{Result, ok, throw, Exception, invalid_argument, out_of_range, ◌>>=◌}
use iceflow.Ndn.{Ndn, Generator}
use iceflow.Json.{Json}
use iceflow.Dag.{Edge}
use iceflow.Measurements.{Measurement, Directory}
use iceflow.Flow.{Flow}
use iceflow.Flow.Events.{World}
use iceflow.WordCount.Text.{is_space}
use iceflow.WordCount.Nodes.{splitting, counting, run_text2lines, run_lines2words, run_wordcount}

unfoldable pub is_digit : ℕ → Bool
is_digit c = leb 48 c && leb c 57

unfoldable pub starts_with_digit : List ℕ → Bool
unfolding is_digit
starts_with_digit [] = false
starts_with_digit (c ∷ cs) = is_digit c

unfoldable pub skip_spaces : List ℕ → List ℕ
skip_spaces [] = []
skip_spaces (c ∷ cs) = let rest = skip_spaces cs in if is_space c then rest else c ∷ cs

-- The digits up to the first other byte, after those of `n`.
unfoldable pub read_digits : ℕ → List ℕ → ℕ
unfolding is_digit
read_digits n [] = n
read_digits n (c ∷ cs) =
    let rest = read_digits (n * 10 + (c - 48)) cs in if is_digit c then rest else n

abbrev pub minus : ℕ → ℤ
minus zero = pos 0
minus (suc n) = negsuc n

-- An `int` has 32 bits.
unfoldable pub as_int : (negative : Bool) → ℕ → Result ℤ
as_int true n = if leb n (2 ^ 31) then ok (minus n) else throw (out_of_range "stoi")
as_int false n = if ltb n (2 ^ 31) then ok (pos n) else throw (out_of_range "stoi")

unfoldable pub unsigned_number : (negative : Bool) → List ℕ → Result ℤ
unfolding starts_with_digit read_digits as_int
unsigned_number negative text =
    if starts_with_digit text
    then as_int negative (read_digits 0 text)
    else throw (invalid_argument "stoi")

unfoldable pub signed_number : List ℕ → Result ℤ
unfolding unsigned_number
signed_number [] = throw (invalid_argument "stoi")
signed_number (c ∷ cs) =
    if c == 45
    then unsigned_number true cs
    else if c == 43
    then unsigned_number false cs
    else unsigned_number false (c ∷ cs)

-- `std::stoi`: white space, a sign, and digits; what follows them is ignored.
unfoldable pub stoi : List ℕ → Result ℤ
unfolding skip_spaces signed_number
stoi text = signed_number (skip_spaces text)

-- The conversion of an `int` to `uint32_t`.
unfoldable pub as_uint32 : ℤ → ℕ
as_uint32 (pos n) = n % 2 ^ 32
as_uint32 (negsuc n) = 2 ^ 32 - 1 - n % 2 ^ 32

-- How `main` goes on: it prints how it is used and returns 1, it reports what it has caught, or it runs.
pub data Outcome (W : Type 0) : Type 0 where
  usage : Outcome W
  caught : Exception → Outcome W
  runs : W → Outcome W

abbrev pub outcome_of : {W : Type 0} → Result W → Outcome W
outcome_of (throw e) = caught e
outcome_of (ok w) = runs w

-- The two numbers of the arguments, from the left.
instance_numbers : (String → List ℕ) → String → String → Result (ℕ × ℕ)
unfolding stoi as_uint32
instance_numbers bytes_of index number = do
  consumer_index ← stoi (bytes_of index)
  number_of_consumers ← stoi (bytes_of number)
  ok (as_uint32 consumer_index, as_uint32 number_of_consumers)

abbrev pub ended : {W : Type 0} → Option (Result W) → Option (Outcome W)
ended none = none
ended (some result) = some (outcome_of result)

module _ (N : Ndn) (E : Generator) (J : Json) {K R : Type 0} (files : String → Option (List ℕ))
    (uuid : String) (seed now : ℕ) where
  -- `main` of text2lines.cpp
  unfoldable pub main_text2lines :
      List String → Outcome (Flow N E J.Object K R × Edge J.Object × Measurement × String)
  main_text2lines (dag_file_name ∷ []) =
      outcome_of
        (run_text2lines N E J "text2lines" dag_file_name (files dag_file_name) uuid seed now)
  main_text2lines _ = usage

module _ (N : Ndn) (E : Generator) (J : Json) (to_string : ℕ → String) (clock : ℕ → ℕ) {R : Type 0}
    (directory : Directory) (readings : ℕ) (files : String → Option (List ℕ)) (uuid : String)
    (seed now : ℕ) where
  -- `main` of wordcount.cpp
  unfoldable pub main_wordcount :
      List String → Outcome (World N E (counting to_string clock) J.Object R)
  main_wordcount (dag_file_name ∷ []) = outcome_of (
      run_wordcount N E J to_string clock directory readings "wordcount" dag_file_name
        (files dag_file_name) uuid seed now)
  main_wordcount _ = usage

  -- `main` of lines2words.cpp; `none` where the loop over the partitions does not end within the fuel
  unfoldable pub main_lines2words :
      (bytes_of : String → List ℕ)
      → (fuel : ℕ) → List String
      → Option (Outcome (World N E (splitting to_string clock) J.Object R))
  unfolding instance_numbers
  main_lines2words bytes_of fuel (dag_file_name ∷ (index ∷ (number ∷ []))) =
      elim (instance_numbers bytes_of index number) [
        | throw e ↦ some (caught e)
        | ok (consumer_index, number_of_consumers) ↦ ended (
            run_lines2words N E J to_string clock directory readings fuel "lines2words"
              dag_file_name (files dag_file_name) uuid seed now consumer_index number_of_consumers)
      ]
  main_lines2words bytes_of fuel _ = some usage
