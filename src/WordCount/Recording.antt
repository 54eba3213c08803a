-- ===== src/WordCount/Recording.antt =====
-- The measurements of the applications of examples/wordCount: the global `measurementHandler` of each,
-- and what calls of `setField(std::to_string(counter), …, 0)` leave of it.
pub mod Interrupted
use iceflow.Prelude.{ℕ, ◌+◌, ◌<◌, ◌≡◌, refl, sym, subst, List, [], ◌∷◌, ◌++◌, String, length}
use iceflow.Measurements.{Entry, Measurement, Directory, set_field, record_to_file}
use iceflow.Measurements.Files.{set_fields, set_fields-Written, Written}

-- The handler, the directory that it writes to, and how often the clock has been read.
pub record Recorder : Type 0 where
  pub measurement : Measurement
  pub files : Directory
  pub readings : ℕ

-- `signalCallbackHandler`, for a signal that arrives while no call of the handler's methods runs: what
-- it exits with, and what it leaves of the measurements.
unfoldable pub signal_callback_handler : (ℕ → String) → (signum : ℕ) → Recorder → ℕ × Recorder
signal_callback_handler to_string signum r =
    let (m, files) = record_to_file to_string r.measurement r.files in
    (signum, record r { measurement = m; files = files })

-- A counter, and the name of what is noted.
abbrev pub Mark : Type 0
Mark = ℕ × String

-- `clock` gives the readings of the system clock, in milliseconds, one after the other.
module _ (to_string : ℕ → String) (clock : ℕ → ℕ) where
  unfoldable pub note : ℕ → String → Recorder → Recorder
  note counter entry_name r =
      let now = clock r.readings in
      let (m, files) =
        set_field to_string (to_string counter) entry_name 0 now r.measurement r.files in
      record { measurement = m; files = files; readings = r.readings + 1 }

  -- Marks noted one after the other.
  abbrev pub notes : List Mark → Recorder → Recorder
  notes [] r = r
  notes ((counter, entry_name) ∷ marks) r = notes marks (note counter entry_name r)

  pub notes-append : (xs ys : List Mark) (r : Recorder) → notes (xs ++ ys) r ≡ notes ys (notes xs r)
  notes-append [] ys r = refl
  notes-append ((counter, entry_name) ∷ xs) ys r = notes-append xs ys (note counter entry_name r)

  -- The entries of marks that are noted from a reading of the clock on.
  abbrev pub entries_of : (readings : ℕ) → List Mark → List Entry
  entries_of readings [] = []
  entries_of readings ((counter, entry_name) ∷ marks) =
      record {
        interest = to_string counter;
        entryname = entry_name;
        timestamp = clock readings;
        size = 0;
      }
      ∷ entries_of (readings + 1) marks

  notes-set_fields :
      (marks : List Mark) (r : Recorder)
      → ◌≡◌ {A = Measurement × Directory}
          ((notes marks r).measurement, (notes marks r).files)
          (set_fields to_string (entries_of r.readings marks) r.measurement r.files)
  unfolding note
  notes-set_fields [] r = refl
  notes-set_fields ((counter, entry_name) ∷ marks) r =
      notes-set_fields marks (note counter entry_name r)

  -- What is noted is kept in memory or in the files.
  pub notes-Written :
      (marks : List Mark) (r : Recorder)
      → length r.measurement.entries < r.measurement.save_threshold
      → Written to_string r.measurement
          (entries_of r.readings marks)
          r.files
          ((notes marks r).measurement, (notes marks r).files)
  notes-Written marks r h =
      subst (Written to_string r.measurement (entries_of r.readings marks) r.files)
        (sym (notes-set_fields marks r))
        (set_fields-Written to_string (entries_of r.readings marks) r.measurement r.files h)
