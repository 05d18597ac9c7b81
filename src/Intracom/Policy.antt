-- ===== src/Intracom/Policy.antt =====
-- intracom/buffer_policy.go: what a subscriber does with a message when its channel is full.
pub mod Bounds
pub mod Window
pub mod Streams
use rxdaemon.Prelude.{
  ℕ, String, Bool, true, false, List, [], ◌∷◌, Option, none, some, if◌then◌else◌,
}
use rxdaemon.Intracom.Errors.{Err, text}
use rxdaemon.Intracom.Channel.{
  Chan, Case, stop_case, send_case, receive_case, timer_case, Moment, send, discard, Selected, poll,
  await,
}

-- The policies of the package; the flag of a policy with a timeout says whether its timer is set.
pub data Policy : Type 0 where
  drop_none drop_oldest drop_newest : Policy
  drop_oldest_after_timeout drop_newest_after_timeout : Bool → Policy

-- Handle returns, is still in a select, or panics.
pub data Handled {ℓ} (A : Type ℓ) : Type ℓ where
  returned : Option Err → Chan A → Handled A
  blocked : Chan A → Handled A
  panicked : Chan A → Handled A

-- The cases of the selects.
abbrev send_or_stop : List Case
send_or_stop = stop_case ∷ send_case ∷ []

abbrev drop_or_stop : List Case
drop_or_stop = stop_case ∷ receive_case ∷ []

abbrev send_or_timeout : List Case
send_or_timeout = stop_case ∷ send_case ∷ timer_case ∷ []

abbrev subscriber_stopped : Err
subscriber_stopped = text "subscriber stopped"

module _ {ℓ} {A : Type ℓ} where
  -- The last `select` of the two policies that drop the oldest message, from how it is decided.
  unfoldable push_again : String → A → Selected A → Handled A
  unfolding send
  push_again failure message s = elim s.case [
    | some send_case ↦ returned none (send s.moment message s.chan)
    | some stop_case ↦ returned (some subscriber_stopped) s.chan
    | _ ↦ returned (some (text failure)) s.chan
  ]

  -- The `select` above it, which takes the oldest message out.
  unfoldable drop_one : String → A → Selected A → Handled A
  unfolding push_again discard poll
  drop_one failure message s = elim s.case [
    | some receive_case ↦ push_again failure message (poll send_or_stop s.later (discard s.chan))
    | some stop_case ↦ returned (some subscriber_stopped) s.chan
    | _ ↦ blocked s.chan
  ]

  -- A `select` with the cases stop and send, and what its default goes on with.
  unfoldable pub push_or : A → Selected A → Handled A → Handled A
  unfolding send
  push_or message s otherwise = elim s.case [
    | some send_case ↦ returned none (send s.moment message s.chan)
    | some stop_case ↦ returned (some subscriber_stopped) s.chan
    | _ ↦ otherwise
  ]

  -- The `select` with the timer, and what follows when the timer has fired.
  unfoldable push_until_timeout : A → Selected A → Handled A → Handled A
  unfolding send
  push_until_timeout message s otherwise = elim s.case [
    | some send_case ↦ returned none (send s.moment message s.chan)
    | some stop_case ↦ returned (some subscriber_stopped) s.chan
    | some timer_case ↦ otherwise
    | _ ↦ blocked s.chan
  ]

  unfoldable pub handle : Policy → Chan A → A → List Moment → Handled A
  unfolding push_again drop_one push_or push_until_timeout poll await
  handle drop_none ch message ms =
      let s = await send_or_stop ms ch in push_or message s (blocked s.chan)
  handle drop_oldest ch message ms =
      let s = poll send_or_stop ms ch in
      push_or message s
        (drop_one "failed to push message" message (await drop_or_stop s.later s.chan))
  handle (drop_oldest_after_timeout timer) ch message ms =
      let s = poll send_or_stop ms ch in
      let t = await send_or_timeout s.later s.chan in
      push_or message s (
        if timer
        then push_until_timeout message t (
            drop_one "timeout exceeded, failed to push message" message
              (await drop_or_stop t.later t.chan))
        else panicked s.chan)
  handle drop_newest ch message ms =
      let s = poll send_or_stop ms ch in push_or message s (returned none s.chan)
  handle (drop_newest_after_timeout timer) ch message ms =
      let s = poll send_or_stop ms ch in
      let t = await send_or_timeout s.later s.chan in
      push_or message s
        (if timer then push_until_timeout message t (returned none t.chan) else panicked s.chan)

  abbrev pub chan_of : Handled A → Chan A
  chan_of (returned err ch) = ch
  chan_of (blocked ch) = ch
  chan_of (panicked ch) = ch
