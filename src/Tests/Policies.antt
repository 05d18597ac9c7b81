-- ===== src/Tests/Policies.antt =====
-- Uses of the theorems on intracom/buffer_policy.go.
use rxdaemon.Prelude.{ℕ, ◌≡◌, refl, [], ◌∷◌, arith, true, false}
use rxdaemon.Intracom.Channel.{Chan, quiet}
use rxdaemon.Intracom.Policy.{drop_oldest, handle}
use rxdaemon.Intracom.Policy.Bounds.{Fits}
use rxdaemon.Intracom.Policy.Streams.{Accounted}
use rxdaemon.Intracom.Policy.Streams.Handling.{handle-Accounted}
use rxdaemon.Intracom.Policy.Window.{feed, feed-drop_oldest}

-- A channel with room for two, full.
abbrev full : Chan ℕ
full = record { capacity = 2; buffer = 1 ∷ 2 ∷ []; received = [] }

full-Fits : Fits 2 full
full-Fits = record { capacity_is = refl; within = omega arith }

handle-Accounted_example :
    Accounted true false 3 (1 ∷ 2 ∷ []) (handle drop_oldest full 3 (quiet ∷ quiet ∷ quiet ∷ []))
handle-Accounted_example = handle-Accounted drop_oldest full 3 (quiet ∷ quiet ∷ quiet ∷ [])

feed-drop_oldest_example : (feed drop_oldest full (3 ∷ 4 ∷ 5 ∷ [])).buffer ≡ 4 ∷ 5 ∷ []
feed-drop_oldest_example = feed-drop_oldest 2 full (3 ∷ 4 ∷ 5 ∷ []) (omega arith) full-Fits
