-- ===== src/RingBuffer/Plain.antt =====
-- A circular buffer as a list with its capacity, for tests and examples.
use iceflow.Prelude.{ℕ, refl, List, [], ◌∷◌, ◌++◌, length, is_empty, ltb, if◌then◌else◌}
use iceflow.RingBuffer.{CircularBuffer, IsLawful, head?, tail}

abbrev pub plain_buffer : (T : Type 0) → CircularBuffer T
plain_buffer T = record {
  Buffer = ℕ × List T;
  with_capacity = λ n. (n, []);
  size = λ b. length b.1;
  empty = λ b. is_empty b.1;
  push_back = λ x b. (b.0, (if ltb (length b.1) b.0 then b.1 else tail b.1) ++ x ∷ []);
  front = λ b. head? b.1;
  pop_front = λ b. (b.0, tail b.1);
  capacity = λ b. b.0;
  contents = λ b. b.1;
}

abbrev pub plain_buffer-IsLawful : (T : Type 0) → IsLawful (plain_buffer T)
plain_buffer-IsLawful T = record {
  capacity-with_capacity = λ n. refl;
  contents-with_capacity = λ n. refl;
  size_lem = λ b. refl;
  empty_lem = λ b. refl;
  front_lem = λ b. refl;
  capacity-push_back = λ x b. refl;
  capacity-pop_front = λ b. refl;
  contents-push_back = λ x b h. refl;
  contents-pop_front = λ b. refl;
}
