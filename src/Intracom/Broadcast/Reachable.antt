-- ===== src/Intracom/Broadcast/Reachable.antt =====
-- A topic over time: requests, messages, and consumers that receive, in any order.
use rxdaemon.Prelude.{ℕ, ◌≡◌, subst, Bool, List, arith, ◌==◌, All-map, update, Bool-cases, inl, inr}
use rxdaemon.Intracom.Channel.{Moment, taken_by}
use rxdaemon.Intracom.Policy.Bounds.{Fits}
use rxdaemon.Intracom.Broadcast.{Broadcaster, Request, start, handle_request, published, publish}
use rxdaemon.Intracom.Broadcast.Invariant.{IsValid}
use rxdaemon.Intracom.Broadcast.Invariant.Kept.{handle_request-IsValid, start-IsValid}
use rxdaemon.Intracom.Broadcast.Fitting.{AllFit, IsSound, with_chans-IsValid, publish-IsSound}
use rxdaemon.Intracom.Broadcast.Fitting.Requests.{taken_by-Fits, handle_request-AllFit}

-- One turn of the loop, or a consumer that receives from a channel.
pub data Step {ℓ} {A : Type ℓ} : Broadcaster A → Broadcaster A → Type ℓ where
  request : (r : Request) (b : Broadcaster A) → Step b (handle_request r b).0
  message :
      (env : ℕ → List Moment) (m : A) (b b' : Broadcaster A)
      → publish env m b ≡ published b'
      → Step b b'
  receive :
      (at : Moment) (c : ℕ) (b : Broadcaster A)
      → Step b (record b { chans = update b.chans c (taken_by at (b.chans c)) })

pub data Reach {ℓ} {A : Type ℓ} (b : Broadcaster A) : Broadcaster A → Type ℓ where
  here : Reach b b
  next : {c d : Broadcaster A} → Reach b c → Step c d → Reach b d

module _ {ℓ} {A : Type ℓ} where
  receive-IsSound :
      (at : Moment) (c : ℕ) (b : Broadcaster A)
      → IsSound b
      → IsSound (record b { chans = update b.chans c (taken_by at (b.chans c)) })
  receive-IsSound at c b s = (
    with_chans-IsValid b (update b.chans c (taken_by at (b.chans c))) b.last_message s.0,
    All-map b.subscribers
        (λ e f. elim (Bool-cases (e.1.ch == c)) [
          | inl y ↦
              let q : e.1.ch ≡ c = ground arith in
              rw y (
                taken_by-Fits e.1.buffer_size at (b.chans c)
                  (subst (λ j. Fits e.1.buffer_size (b.chans j)) q f))
          | inr n ↦ rw n f
        ])
        s.1,
  )

  Step-IsSound : {b b' : Broadcaster A} → Step b b' → IsSound b → IsSound b'
  Step-IsSound (request r b) s = (handle_request-IsValid r b s.0, handle_request-AllFit r b s)
  Step-IsSound (message env m b b' p) s = publish-IsSound env m b b' s p
  Step-IsSound (receive at c b) s = receive-IsSound at c b s

  Reach-IsSound : {b b' : Broadcaster A} → Reach b b' → IsSound b → IsSound b'
  Reach-IsSound here s = s
  Reach-IsSound (next r st) s = Step-IsSound st (Reach-IsSound r s)

  -- Whatever requests, messages and receives a topic has seen since its start, in whatever order, its
  -- broadcaster is valid, and each subscriber's channel has the capacity that its group asked for and
  -- holds no more messages than that.
  pub start-IsSound :
      (aware : Bool) (zero_value : A) (b : Broadcaster A)
      → Reach (start aware zero_value) b
      → IsValid b × AllFit b.chans b.subscribers
  unfolding start
  start-IsSound aware zero_value b r = Reach-IsSound r (start-IsValid aware zero_value, tt)
