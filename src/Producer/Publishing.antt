-- ===== src/Producer/Publishing.antt =====
-- What a producer publishes and subscribes to: data of its edge, and the edge's back channel.
use Prim.Native.String.{◌++◌ as ◌<>◌}
use iceflow.Prelude.{ℕ, ◌≡◌, inl, inr, if_ind, Option, none, some, List, String}
use iceflow.Prelude.Errors.{Result, ok, throw, Result-cases}
use iceflow.Ndn.{Ndn, IsLawful, Generator}
use iceflow.Ndn.Messages.{IsTidy, MayBeTidy, publish_as-IsTidy, erase-IsTidy}
use iceflow.Json.{Json}
use iceflow.Producer.{
  Producer, get_next_partition_number, prepare_data_name, push_data, erase_acknowledged,
  read_number, handle_backchannel,
}

module _ (N : Ndn) (L : IsLawful N) (J : Json) (prefix : String) where
  open N use {Svs}

  module _ (E : Generator) {R : Type 0} where
    pub push_data-MayBeTidy :
        (edge : String) (payload : List ℕ) (p : Producer E.State R) (svs : Option Svs)
        → p.pub_topic ≡ prefix <> ("/" <> edge)
        → MayBeTidy N J prefix svs
        → MayBeTidy N J prefix (push_data N E payload p svs).1
    unfolding push_data get_next_partition_number prepare_data_name
    push_data-MayBeTidy edge payload p none topic h = h
    push_data-MayBeTidy edge payload p (some s) topic h =
        publish_as-IsTidy N L J prefix _ payload (N.parse_name p.node_prefix) 4 s
          (edge, inl ((get_next_partition_number E p).0, rw topic)) h

  -- An acknowledgement takes away stored data, or does nothing.
  pub handle_backchannel-IsTidy :
      (node_prefix sync_prefix : String) (bytes : List ℕ) (s : Svs)
      → IsTidy N J prefix s
      → IsTidy N J prefix (handle_backchannel N J node_prefix sync_prefix bytes s)
  unfolding handle_backchannel read_number erase_acknowledged
  handle_backchannel-IsTidy node_prefix sync_prefix bytes s h =
      elim (Result-cases (J.parse bytes)) [
        | inl (e, f) ↦ rw (f, handle_backchannel) h
        | inr (json, f) ↦
            rw (f, handle_backchannel)
              (if_ind (IsTidy N J prefix) (J.is_number_integer json) (erased (J.get_uint64 json)) h)
      ]
    where
      erased :
          (r : Result ℕ) → IsTidy N J prefix (erase_acknowledged N J node_prefix sync_prefix r s)
      erased (throw e) = h
      erased (ok sequence_number) = erase-IsTidy N L J prefix _ s h
