-- ===== src/Tests/Instances.antt =====
-- The arguments of a splitter: an instance number below 0, and the number of instances.
use iceflow.Prelude.{
  ℕ, ◌≡◌, refl, true, false, Option, some, List, [], ◌∷◌, String, str_eq, arith, if◌then◌else◌,
}
use iceflow.Ndn.Plain.{plain_ndn, listed_words}
use iceflow.Json.Plain.{plain}
use iceflow.WordCount.Text.{is_space}
use iceflow.WordCount.Nodes.{run_lines2words}
use iceflow.WordCount.Main.{starts_with_digit, ended, main_lines2words}
use iceflow.WordCount.Main.Instances.{Writes, Fits, main_lines2words_numbers}
use iceflow.Tests.Words.{a_folder, print, ticks}

-- " -1x" and "12"
abbrev bytes_of : String → List ℕ
bytes_of s = if str_eq s "first" then 32 ∷ 45 ∷ 49 ∷ 120 ∷ [] else 49 ∷ 50 ∷ []

abbrev no_file : String → Option (List ℕ)
no_file name = some []

first-Writes : Writes true 1 (bytes_of "first")
unfolding is_space starts_with_digit
first-Writes = record {
  spaces = 32 ∷ [];
  rest = 120 ∷ [];
  blank = (refl, tt);
  ends = refl;
  form = refl;
}

second-Writes : Writes false 12 (bytes_of "second")
unfolding is_space starts_with_digit
second-Writes = record { spaces = []; rest = []; blank = tt; ends = refl; form = refl }

first-Fits : Fits true 1
first-Fits = omega arith

second-Fits : Fits false 12
second-Fits = omega arith

main_lines2words_numbers_example :
    main_lines2words plain_ndn listed_words plain print ticks {R = ℕ} a_folder 0 no_file "0" 7 0
      bytes_of 9
      ("wc.json" ∷ "first" ∷ "second" ∷ [])
    ≡ ended (
        run_lines2words plain_ndn listed_words plain print ticks a_folder 0 9 "lines2words"
          "wc.json"
          (some [])
          "0"
          7
          0
          4_294_967_295
          12)
main_lines2words_numbers_example =
    main_lines2words_numbers plain_ndn listed_words plain print ticks a_folder 0 no_file "0" 7 0
      bytes_of 9 "wc.json" "first" "second" true false 1 12 first-Writes first-Fits second-Writes
      second-Fits
