-- ===== src/Intracom/Topic/Sound.antt =====
-- A topic with several callers refines the sequential account of its broadcaster.
use rxdaemon.Prelude.{true, false, some, ℕ, ◌≡◌, Bool, ◌⊎◌}
use rxdaemon.Intracom.Broadcast.{Broadcaster, Request, close_request, handle_request}
use rxdaemon.Intracom.Broadcast.Reachable as Sequential
use rxdaemon.Intracom.Topic.Calls.{Pc, close_waiting, close_answered, close_done, System, Reach}

-- A Close that has its answer.
abbrev pub is_answered_close : Pc → Bool
is_answered_close close_answered = true
is_answered_close close_done = true
is_answered_close _ = false

module _ {ℓ} {A : Type ℓ} where
  abbrev Follows : System A → System A → Type ℓ
  Follows s t = (s.stuck ≡ t.stuck) × ((t.bc ≡ s.bc) ⊎ Sequential.Step s.bc t.bc)

  -- A request of a caller that waits for the answer to its Close is a close request.
  abbrev Asked : System A → Type 0
  Asked s =
      (i : ℕ) (r : Request) → s.queue ≡ some (i, r) → s.pc i ≡ close_waiting → r ≡ close_request

  abbrev AnsweredIn : ℕ → System A → Type 0
  AnsweredIn i s = is_answered_close (s.pc i) ≡ true

  abbrev Answers : ℕ → System A → System A → Type ℓ
  Answers i s t =
      AnsweredIn i t
      → AnsweredIn i s ⊎ ((s.stuck ≡ false) × (t.bc ≡ (handle_request close_request s.bc).0))

  -- Where a Close stands in the sequence of the broadcaster's steps from `b0` on.
  abbrev pub Handled : Broadcaster A → System A → Type ℓ
  Handled b0 t =
      (b : Broadcaster A) × Sequential.Reach b0 b
      × (t.stuck ≡ false → Sequential.Reach (handle_request close_request b).0 t.bc)

  record Whole (b0 : Broadcaster A) (t : System A) : Type ℓ where
    asked : Asked t
    steps : t.stuck ≡ false → Sequential.Reach b0 t.bc
    handled : (i : ℕ) → AnsweredIn i t → Handled b0 t
