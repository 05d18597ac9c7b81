-- ===== src/Tests/Overlapping.antt =====
-- Uses of the theorems on calls of topics and registries that overlap.
use rxdaemon.Prelude.{
  ℕ, ◌<◌, ◌≡◌, ◌≢◌, refl, String, [], ◌∷◌, some, true, false, lookup, ◌==◌, if◌then◌else◌,
}
use rxdaemon.Intracom.Broadcast.{subscribe, close_request}
use rxdaemon.Intracom.Broadcast.Reachable as Sequential
use rxdaemon.Intracom.Topic.{TopicConfig, new_topic}
use rxdaemon.Intracom.Topic.Calls.{
  System, checked, close_done, sent_to_closed, close_sent_to_closed, closed_twice, new_system,
  swap_closed, move_to, close_waiting, serve_request, swap, Reach, here, next,
}
use rxdaemon.Intracom.Topic.Closing.{is_closer, is_closing, close_once}
use rxdaemon.Intracom.Topic.Overlap.{Finished, is_unanswered, close_finishes, overlap_panics}
use rxdaemon.Intracom.Registry.{Typed, new, created}
use rxdaemon.Intracom.Registry.Sections.{
  Call, create, close_all, Pc as RegistryPc, calling, has_created, run,
}
use rxdaemon.Intracom.Registry.Held.{created-of_type}
use rxdaemon.Intracom.Registry.Races.{both_creating, create_topic_twice}
use rxdaemon.Tests.Topics.{conf}
use rxdaemon.Tests.Registering.{ticks_conf, fresh}

abbrev initial : System ℕ
initial = new_system false 0

-- Caller 1 has set the flag.
abbrev flagged : System ℕ
flagged = swap_closed 1 initial

flagged_reached : Reach initial flagged
unfolding new_system
flagged_reached = next here refl (swap 1 refl refl)

close_once_example :
    ((i j : ℕ) → is_closer (flagged.pc i) ≡ true → is_closer (flagged.pc j) ≡ true → i ≡ j)
    × ((i : ℕ)
        → is_closing (flagged.pc i) ≡ true
        → (flagged.requests_open ≡ true) × (flagged.publish_open ≡ true) × (flagged.running ≡ true))
    × (flagged.crash ≢ some close_sent_to_closed)
    × (flagged.crash ≢ some closed_twice)
close_once_example = close_once false 0 flagged flagged_reached

-- The request of its Close is sent, and served.
abbrev sent : System ℕ
sent = record (move_to 1 close_waiting flagged) { queue = some (1, close_request) }

abbrev served : System ℕ
served = serve_request 1 close_request sent

close_finishes_example :
    (flagged.stuck ≡ false → (u : System ℕ) × Finished 1 flagged u)
    × (flagged.stuck ≡ true → (u : System ℕ) → Reach flagged u → is_unanswered (u.pc 1) ≡ true)
unfolding swap_closed new_system
close_finishes_example = close_finishes false 0 1 flagged flagged_reached refl refl

overlap_panics_example :
    (t : System ℕ) × Reach initial t
    × (t.crash ≡ some sent_to_closed)
    × (t.pc 0 ≡ checked (subscribe conf))
    × (t.pc 1 ≡ close_done)
overlap_panics_example = overlap_panics (subscribe conf) false 0 (λ h. cc)

-- Two callers that create a topic, and one that closes the registry.
abbrev calls : ℕ → Call
calls i = if i == 2 then close_all else create i ticks_conf

abbrev pcs : ℕ → RegistryPc
pcs i = calling (calls i)

abbrev unused : Typed ℕ
unused = record { tag = 0; topic = new_topic ticks_conf 0 }

created-of_type_example :
    let s = run 0 (0 ∷ 1 ∷ 0 ∷ 1 ∷ 0 ∷ 1 ∷ 2 ∷ 2 ∷ []) (new "ic" unused, pcs) in
    ((i tag a : ℕ)
      → s.1 i ≡ has_created tag (created a)
      → (conf : TopicConfig) × (calls i ≡ create tag conf)
        × (a < s.0.next)
        × ((s.0.heap a).tag ≡ tag))
    × ((k : String) (a : ℕ) → lookup k s.0.topics ≡ some a → a < s.0.next)
created-of_type_example = created-of_type 0 "ic" unused calls (0 ∷ 1 ∷ 0 ∷ 1 ∷ 0 ∷ 1 ∷ 2 ∷ 2 ∷ [])

create_topic_twice_example :
    let s = run 0 (0 ∷ 1 ∷ 0 ∷ 1 ∷ 0 ∷ 1 ∷ []) (fresh, both_creating {A = ℕ} 0 7 8 ticks_conf) in
    (s.1 0 ≡ has_created 7 (created 0))
    × (s.1 1 ≡ has_created 8 (created 1))
    × (lookup "ticks" s.0.topics ≡ some 1)
    × ((s.0.heap 0).topic.closed ≡ false)
unfolding lookup new
create_topic_twice_example = create_topic_twice 0 7 8 ticks_conf fresh refl refl
