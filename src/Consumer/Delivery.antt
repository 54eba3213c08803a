-- ===== src/Consumer/Delivery.antt =====
-- What a delivery does to a consumer and the world around it.
use iceflow.Prelude.{ℕ, ◌≡◌, ap, ◌∙◌, none, some}
use iceflow.Prelude.Errors.{ok, throw, Exception}
use iceflow.Ndn.{Ndn}
use iceflow.Json.{Json}
use iceflow.Consumer.{
  Consumer, SubscriptionData, Surroundings, save_consumption, acknowledge, after_callback,
  with_callback, subscribe_callback,
}

module _ (N : Ndn) (J : Json) {K R W : Type 0} (S : Surroundings N K W) where
  -- A delivery whose callback returns is recorded at that time, and acknowledged.
  pub subscribe_callback_called :
      (sub : SubscriptionData) (now : ℕ) (c : Consumer K R) (w : W) (callback : K) (s : N.Svs)
      → c.consumer_callback ≡ some callback
      → (S.invoke callback sub.payload w).0 ≡ ok tt
      → S.svs (S.invoke callback sub.payload w).1 ≡ some s
      → subscribe_callback N J S sub now c w ≡ (
        ok tt,
        save_consumption now c,
        S.with_svs
            (N.publish
              (N.append (N.parse_name c.sub_topic) "backchannel")
              (J.dump_number sub.seq_no)
              s).1
            (S.invoke callback sub.payload w).1,
      )
  unfolding subscribe_callback acknowledge
  subscribe_callback_called sub now c w callback s registered returned live =
      ap (λ o. with_callback N J S o sub now c w) registered
      ∙ ap (λ r. after_callback N J S r sub.seq_no now c (S.invoke callback sub.payload w).1)
          returned
      ∙ rw (live, acknowledge)

  -- A delivery for which there is no callback has no effect.
  pub subscribe_callback-none :
      (sub : SubscriptionData) (now : ℕ) (c : Consumer K R) (w : W)
      → c.consumer_callback ≡ none
      → subscribe_callback N J S sub now c w ≡ (ok tt, c, w)
  unfolding subscribe_callback
  subscribe_callback-none sub now c w e = ap (λ o. with_callback N J S o sub now c w) e

  -- A callback that throws leaves the consumer as it was: nothing is recorded or acknowledged.
  pub subscribe_callback_thrown :
      (sub : SubscriptionData) (now : ℕ) (c : Consumer K R) (w : W) (callback : K) (e : Exception)
      → c.consumer_callback ≡ some callback
      → (S.invoke callback sub.payload w).0 ≡ throw e
      → subscribe_callback N J S sub now c w ≡ (throw e, c, (S.invoke callback sub.payload w).1)
  unfolding subscribe_callback
  subscribe_callback_thrown sub now c w callback e registered thrown =
      ap (λ o. with_callback N J S o sub now c w) registered
      ∙ ap (λ r. after_callback N J S r sub.seq_no now c (S.invoke callback sub.payload w).1) thrown
