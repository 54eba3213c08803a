-- ===== src/Producer/Backchannel.antt =====
-- The acknowledgements that come back from the consumers of an edge.
use iceflow.Prelude.{ℕ, ◌^◌, ◌<◌, ◌≡◌, ◌⊎◌, none, String}
use iceflow.Ndn.{Ndn, IsLawful}
use iceflow.Json.{Json, DumpsNumbers}
use iceflow.Producer.{handle_backchannel}

-- The name under which a producer's SVS instance stores a message.
abbrev pub data_name : (N : Ndn) → String → String → ℕ → N.Name
data_name N node_prefix sync_prefix n =
    N.append_number (N.append (N.parse_name node_prefix) sync_prefix) n

module _ (N : Ndn) (L : IsLawful N) (J : Json) (D : DumpsNumbers J) where
  open N use {Name, Svs, stored}

  -- An acknowledgement of a 64-bit sequence number, as a consumer writes it, removes from the
  -- producer's data store the message of that number, and every other name is either the one of that
  -- message or stands for what it stood for.
  pub handle_backchannel-dump_number :
      (node_prefix sync_prefix : String) (n : ℕ) (s : Svs)
      → n < 2 ^ 64
      → let s' = handle_backchannel N J node_prefix sync_prefix (J.dump_number n) s in
        (stored s' (data_name N node_prefix sync_prefix n) ≡ none)
        × ((other : Name)
            → (other ≡ data_name N node_prefix sync_prefix n) ⊎ (stored s' other ≡ stored s other))
  unfolding handle_backchannel
  handle_backchannel-dump_number node_prefix sync_prefix n s h =
      rw
        (
          handle_backchannel,
          D.parse-dump_number n,
          D.numeral_is_integer n,
          D.get_uint64-numeral n h,
        )
        (L.stored-erase _ s, λ other. L.stored-erase_other _ other s)
