-- ===== src/WordCount/Main/Instances.antt =====
-- Which instance of a splitter `main` of lines2words starts.
use iceflow.Prelude.{
  ℕ, zero, suc, ◌-◌, ◌^◌, ◌<◌, ◌≤◌, ◌≡◌, refl, ap, ◌∙◌, Bool, true, false, Option, List, [], ◌∷◌,
  ◌++◌, String, All, arith, ◌==◌, if◌then◌else◌,
}
use iceflow.Prelude.Signed.{ℤ, pos, negsuc}
use iceflow.Prelude.Errors.{ok}
use iceflow.Ndn.{Ndn, Generator}
use iceflow.Json.{Json}
use iceflow.Measurements.{Directory}
use iceflow.WordCount.Text.{is_space}
use iceflow.WordCount.Nodes.{run_lines2words}
use iceflow.WordCount.Main.{
  starts_with_digit, stoi, as_int, as_uint32, ended, instance_numbers, main_lines2words,
}
use iceflow.WordCount.Main.Numerals.{sign, decimal, stoi-decimal}

-- A text that starts with a decimal number, perhaps after white space and a minus sign.
pub record Writes (negative : Bool) (n : ℕ) (text : List ℕ) : Type 0 where
  pub spaces : List ℕ
  pub rest : List ℕ
  pub blank : All (λ c. is_space c ≡ true) spaces
  pub ends : starts_with_digit rest ≡ false
  pub form : text ≡ spaces ++ (sign negative ++ (decimal n ++ rest))

-- The number fits an `int`.
abbrev pub Fits : (negative : Bool) → ℕ → Type 0
Fits true n = n ≤ 2 ^ 31
Fits false n = n < 2 ^ 31

-- The number modulo 2 ^ 32.
abbrev pub wrapped : (negative : Bool) → ℕ → ℕ
wrapped true n = if n == 0 then 0 else 2 ^ 32 - n
wrapped false n = n

stoi-Writes :
    (negative : Bool) (n : ℕ) (text : List ℕ)
    → Writes negative n text
    → stoi text ≡ as_int negative n
stoi-Writes negative n text w =
    ap stoi w.form ∙ stoi-decimal w.spaces negative n w.rest w.blank w.ends

as_int-Fits :
    (negative : Bool) (n : ℕ)
    → Fits negative n
    → (i : ℤ) × (as_int negative n ≡ ok i) × (as_uint32 i ≡ wrapped negative n)
unfolding as_int as_uint32
as_int-Fits true zero h = (pos 0, ground arith, refl)
as_int-Fits true (suc n) h = (negsuc n, ground arith, ground arith)
as_int-Fits false n h = (pos n, ground arith, omega arith)

stoi-Fits :
    (negative : Bool) (n : ℕ) (text : List ℕ)
    → Writes negative n text
    → Fits negative n
    → (i : ℤ) × (stoi text ≡ ok i) × (as_uint32 i ≡ wrapped negative n)
stoi-Fits negative n text w h =
    let (i, read, same) = as_int-Fits negative n h in
    (i, stoi-Writes negative n text w ∙ read, same)

instance_numbers-Fits :
    (bytes_of : String → List ℕ) (index number : String) (negative negative' : Bool) (n m : ℕ)
    → Writes negative n (bytes_of index)
    → Fits negative n
    → Writes negative' m (bytes_of number)
    → Fits negative' m
    → instance_numbers bytes_of index number ≡ ok (wrapped negative n, wrapped negative' m)
unfolding instance_numbers
instance_numbers-Fits bytes_of index number negative negative' n m w h w' h' =
    let (i, read, same) = stoi-Fits negative n (bytes_of index) w h in
    let (j, read', same') = stoi-Fits negative' m (bytes_of number) w' h' in
    rw (instance_numbers, read, read', same, same') refl

module _ (N : Ndn) (E : Generator) (J : Json) (to_string : ℕ → String) (clock : ℕ → ℕ) {R : Type 0}
    (directory : Directory) (readings : ℕ) (files : String → Option (List ℕ)) (uuid : String)
    (seed now : ℕ) (bytes_of : String → List ℕ) (fuel : ℕ) where
  -- `main` of lines2words on a file and two texts that start with decimal numbers which fit an `int`:
  -- it runs the instance with the first number, of as many as the second one says, each modulo 2 ^ 32,
  -- so that a negative number stands for 2 ^ 32 less its size.
  pub main_lines2words_numbers :
      (file index number : String) (negative negative' : Bool) (n m : ℕ)
      → Writes negative n (bytes_of index)
      → Fits negative n
      → Writes negative' m (bytes_of number)
      → Fits negative' m
      → main_lines2words N E J to_string clock {R = R} directory readings files uuid seed now
          bytes_of fuel
          (file ∷ index ∷ number ∷ [])
        ≡ ended (
            run_lines2words N E J to_string clock directory readings fuel "lines2words" file
              (files file)
              uuid
              seed
              now
              (wrapped negative n)
              (wrapped negative' m))
  unfolding main_lines2words instance_numbers
  main_lines2words_numbers file index number negative negative' n m w h w' h' =
      rw
        (
          main_lines2words,
          instance_numbers-Fits bytes_of index number negative negative' n m w h w' h',
        )
        refl
