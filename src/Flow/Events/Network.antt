-- ===== src/Flow/Events/Network.antt =====
-- A group of nodes of one application that exchange messages. The nodes make their steps one at a
-- time, in any order: a node is made, `IceFlow::run` is entered, a thread calls a method, or a message
-- that some node has published reaches a node with a subscription that it matches. It may do so late,
-- more than once or never, and with any sequence number. A node that has ended makes no more steps.
-- Where the nodes run different programs, `A` is the sum of them.
pub mod Making
pub mod Keeping
pub mod Receiving
pub mod Crosstalk
pub mod Arriving
use iceflow.Prelude.{ℕ, ◌≡◌, true, Option, some, List, [], ◌∷◌, ◌++◌, String}
use mathlib.Core.List.{Memᴰ}
use iceflow.Prelude.Errors.{ok}
use iceflow.Ndn.{Ndn, Generator, Handler}
use iceflow.Json.{Json}
use iceflow.Dag.{DagParser, get_application_name}
use iceflow.Consumer.{SubscriptionData}
use iceflow.Flow.{Flow, create}
use iceflow.Flow.Events.{Application, CallbackOf, Call, Event, delivery, call, World, handle_event}

module _ (N : Ndn) (E : Generator) (A : Application) (C R : Type 0) where
  abbrev pub Group : Type 0
  Group = List (World N E A C R)

  -- A message of `u`, and a subscription of `w` that it matches.
  pub record Matches (u w : World N E A C R) (handler : Handler) (payload : List ℕ) : Type 0 where
    pub sender : N.Svs
    pub receiver : N.Svs
    pub handle : ℕ
    pub subscribed : N.Name
    pub name : N.Name
    pub sends : u.0.svs ≡ some sender
    pub receives : w.0.svs ≡ some receiver
    pub published : Memᴰ (name, payload) (N.published sender)
    pub subscription : N.subscription receiver handle ≡ some (subscribed, handler)
    pub begins : N.is_prefix_of subscribed name ≡ true

  module _ (J : Json) (prefix : String) where
    pub data Step : Group → Group → Type 1 where
      join :
          {T : Type 0} (group : Group) (dag : DagParser C T) (node_name : String)
          (reporter : Option R) (uuid : String) (seed now : ℕ) (a : A.State)
          (t : Flow N E C (CallbackOf A) R)
          → get_application_name dag ≡ prefix
          → create N E dag node_name reporter uuid seed now ≡ ok t
          → Step group ((t, a) ∷ group)
      start :
          (before after : Group) (w : World N E A C R)
          → Step (before ++ w ∷ after) (before ++ (record w.0 { running = true }, w.1) ∷ after)
      act :
          (before after : Group) (w : World N E A C R) (c : Call (CallbackOf A))
          → Step (before ++ w ∷ after) (before ++ (handle_event N E A J (call c) w).1 ∷ after)
      receive :
          (before after : Group) (u w : World N E A C R) (handler : Handler)
          (sub : SubscriptionData) (now : ℕ)
          → Memᴰ u (before ++ w ∷ after)
          → Matches u w handler sub.payload
          → Step
              (before ++ w ∷ after)
              (before ++ (handle_event N E A J (delivery handler sub now) w).1 ∷ after)

    pub data Reach : Group → Type 1 where
      alone : Reach []
      then_step : (group group' : Group) → Reach group → Step group group' → Reach group'
