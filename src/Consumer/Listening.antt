-- ===== src/Consumer/Listening.antt =====
-- What a consumer subscribes to: partitions of its topic, for its edge.
use Prim.Native.String.{◌++◌ as ◌<>◌}
use iceflow.Prelude.{ℕ, ◌≡◌, Option, none, some, List, [], ◌∷◌, String}
use iceflow.Ndn.{Ndn, IsLawful, Handler}
use iceflow.Ndn.Messages.{IsTidy, MayBeTidy, subscribe-IsTidy, unsubscribe-IsTidy}
use iceflow.Json.{Json}
use iceflow.Consumer.{
  Consumer, unsubscribe_all, unsubscribe_from_all_partitions, prepare_data_name,
  subscribe_to_topic_partition, subscribe_to_partitions, repartition, destroy,
}

module _ (N : Ndn) (L : IsLawful N) (J : Json) (prefix : String) where
  open N use {Svs}

  unsubscribe_all-IsTidy :
      (handles : List ℕ) (s : Svs)
      → IsTidy N J prefix s
      → IsTidy N J prefix (unsubscribe_all N handles s)
  unfolding unsubscribe_all
  unsubscribe_all-IsTidy [] s h = h
  unsubscribe_all-IsTidy (handle ∷ handles) s h =
      unsubscribe_all-IsTidy handles (N.unsubscribe handle s)
        (unsubscribe-IsTidy N L J prefix handle s h)

  module _ {K R : Type 0} where
    pub unsubscribe_from_all_partitions-MayBeTidy :
        (c : Consumer K R) (svs : Option Svs)
        → MayBeTidy N J prefix svs
        → MayBeTidy N J prefix (unsubscribe_from_all_partitions N c svs).1
    unfolding unsubscribe_from_all_partitions
    unsubscribe_from_all_partitions-MayBeTidy c none h = h
    unsubscribe_from_all_partitions-MayBeTidy c (some s) h =
        unsubscribe_all-IsTidy c.subscription_handles s h

    pub destroy-MayBeTidy :
        (c : Consumer K R) (svs : Option Svs)
        → MayBeTidy N J prefix svs
        → MayBeTidy N J prefix (destroy N c svs)
    unfolding destroy
    destroy-MayBeTidy = unsubscribe_from_all_partitions-MayBeTidy

    subscribe_to_partitions-MayBeTidy :
        (partitions : List ℕ) (c : Consumer K R) (svs : Option Svs)
        → c.sub_topic ≡ prefix <> ("/" <> c.upstream_edge_name)
        → MayBeTidy N J prefix svs
        → MayBeTidy N J prefix (subscribe_to_partitions N partitions c svs).2
    unfolding subscribe_to_partitions subscribe_to_topic_partition prepare_data_name
    subscribe_to_partitions-MayBeTidy [] c svs topic h = h
    subscribe_to_partitions-MayBeTidy (partition ∷ partitions) c none topic h = h
    subscribe_to_partitions-MayBeTidy (partition ∷ partitions) c (some s) topic h =
        subscribe_to_partitions-MayBeTidy partitions _ _ topic (
          subscribe-IsTidy N L J prefix _ (Handler.consumer c.upstream_edge_name) s
            (partition, rw topic) h)

    -- `repartition` subscribes to nothing but partitions of the consumer's topic.
    pub repartition-MayBeTidy :
        (partitions : List ℕ) (c : Consumer K R) (svs : Option Svs)
        → c.sub_topic ≡ prefix <> ("/" <> c.upstream_edge_name)
        → MayBeTidy N J prefix svs
        → MayBeTidy N J prefix (repartition N partitions c svs).2
    unfolding repartition unsubscribe_from_all_partitions
    repartition-MayBeTidy partitions c svs topic h =
        subscribe_to_partitions-MayBeTidy partitions _ _ topic
          (unsubscribe_from_all_partitions-MayBeTidy c svs h)
