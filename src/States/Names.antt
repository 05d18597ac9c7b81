-- ===== src/States/Names.antt =====
-- The consumer groups under which the watchers of service_context.go subscribe.
use text.Mathlib.TextLemmas.{append_cancel_left}
use rxdaemon.Prelude.{String, ◌≡◌}
use rxdaemon.States.{State, ServiceAction, internal_states_consumer, action_string, state_string}

-- Watchers of one action and target share a consumer group only if they share the qualified name of
-- their context.
internal_states_consumer-injective :
    (action : ServiceAction) (target : State) (a b : String)
    → internal_states_consumer action target a ≡ internal_states_consumer action target b
    → a ≡ b
unfolding internal_states_consumer
internal_states_consumer-injective action target a b h = append_cancel_left "." a b (
    append_cancel_left (state_string target) _ _ (
      append_cancel_left "." _ _ (
        append_cancel_left (action_string action) _ _
          (append_cancel_left "." _ _ (append_cancel_left "_rxd.states" _ _ h)))))
