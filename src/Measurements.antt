-- ===== src/Measurements.antt =====
-- include/iceflow/measurements.hpp and src/measurements.cpp: measurements, and the CSV files that they
-- are written to. A directory has the files that were written, with their texts, in order, and says
-- which files can be opened for writing there; what is written to another one goes nowhere.
-- `to_string` stands for the library's way to print a number.
pub mod Files
use Prim.Native.String.{◌++◌ as ◌<>◌}
use iceflow.Prelude.{
  ℕ, zero, suc, ◌+◌, ◌≤◌, ◌<◌, Bool, List, [], ◌∷◌, ◌++◌, String, length, leb, if◌then◌else◌,
}

pub record Entry : Type 0 where
  pub interest : String
  pub entryname : String
  pub timestamp : ℕ
  pub size : ℕ

pub record Measurement : Type 0 where
  pub file_name : String
  pub node_name : String
  pub measurement_id : String
  pub observed_object : String
  pub file_count : ℕ
  pub entries : List Entry
  pub save_threshold : ℕ

-- Of the constructor, the part that does not make the folder.
unfoldable pub create : String → String → ℕ → String → Measurement
create measurement_id node_name save_threshold observed_object = record {
  file_name = "";
  node_name = node_name;
  measurement_id = measurement_id;
  observed_object = observed_object;
  file_count = 0;
  entries = [];
  save_threshold = save_threshold;
}

pub record Directory : Type 0 where
  pub opens : String → Bool
  pub written : List (String × String)

-- What an `std::ofstream` that is opened, written to and closed leaves: nothing if the opening fails,
-- which the code does not ask.
unfoldable pub write_file : String × String → Directory → Directory
write_file file d = record d {
  written = if d.opens file.0 then d.written ++ file ∷ [] else d.written;
}

module _ (to_string : ℕ → String) (node_name observed_object : String) where
  -- the line that is added for an entry
  unfoldable pub line_of : Entry → String
  line_of e =
      node_name
      <> (","
          <> (observed_object
              <> (","
                  <> (e.interest
                      <> (","
                          <> (e.entryname
                              <> (","
                                  <> (to_string e.timestamp
                                      <> ("," <> (to_string e.size <> "\n"))))))))))

  -- the loop over the entries
  unfoldable pub lines : List Entry → String
  unfolding line_of
  lines [] = ""
  lines (e ∷ es) = line_of e <> lines es

  unfoldable pub file_of : (measurement_id : String) → (count : ℕ) → List Entry → String × String
  unfolding lines
  file_of measurement_id count entries = (
    "measurements/"
        <> (measurement_id
            <> ("_"
                <> (node_name
                    <> ("_" <> (observed_object <> ("_part_" <> (to_string count <> ".csv"))))))),
    "nodeName,observedObject,interest,entryname,timestamp,dataSize\n" <> lines entries,
  )

module _ (to_string : ℕ → String) where
  -- `recordToFile`
  unfoldable pub record_to_file : Measurement → Directory → Measurement × Directory
  unfolding file_of write_file
  record_to_file m files =
      let count = m.file_count + 1 in
      let file = file_of to_string m.node_name m.observed_object m.measurement_id count m.entries in
      (record m { file_name = file.0; file_count = count; entries = [] }, write_file file files)

  -- `setField`, at time `now` in milliseconds
  unfoldable pub set_field :
      String → String → ℕ → ℕ → Measurement → Directory → Measurement × Directory
  unfolding record_to_file
  set_field interest_name entry_name data_size now m files =
      let entry : Entry = record {
        interest = interest_name;
        entryname = entry_name;
        timestamp = now;
        size = data_size;
      } in
      let m' = record m { entries = m.entries ++ entry ∷ [] } in
      if leb m'.save_threshold (length m'.entries) then record_to_file m' files else (m', files)
