-- ===== src/Intracom/Channel.antt =====
-- Go channels and `select`, as far as the package uses them. A channel has a buffer, which consumers
-- empty from the front; what they have taken is kept, so that nothing is lost sight of.
use rxdaemon.Prelude.{
  ℕ, Bool, true, false, ◌&&◌, ◌||◌, List, [], ◌∷◌, ◌++◌, Option, none, some, ◌==◌, ltb,
  if◌then◌else◌, length, take, drop,
}

pub record Chan {ℓ} (A : Type ℓ) : Type ℓ where
  pub capacity : ℕ
  pub buffer : List A
  pub received : List A

-- The cases of the package's selects: the stop channel is closed, a send, a receive, the timer.
pub data Case : Type 0 where
  stop_case send_case receive_case timer_case : Case

-- What surrounds a select when it is decided: how many messages consumers have taken since the select
-- before, whether one waits for a message, whether the stop channel is closed, whether the timer has
-- fired, and which case is chosen if several are ready.
pub record Moment : Type 0 where
  pub taken : ℕ
  pub waiting : Bool
  pub stopped : Bool
  pub timed_out : Bool
  pub chosen : Case

-- Nothing happens around the select.
abbrev pub quiet : Moment
quiet = record {
  taken = 0;
  waiting = false;
  stopped = false;
  timed_out = false;
  chosen = send_case;
}

abbrev case_eq : Case → Case → Bool
case_eq stop_case stop_case = true
case_eq send_case send_case = true
case_eq receive_case receive_case = true
case_eq timer_case timer_case = true
case_eq _ _ = false

unfoldable pub listed : Case → List Case → Bool
listed c [] = false
listed c (d ∷ ds) = case_eq c d || listed c ds

-- The end of a select: the case chosen, where it was; the channel then; the moments to come.
pub record Selected {ℓ} (A : Type ℓ) : Type ℓ where
  pub case : Option Case
  pub moment : Moment
  pub chan : Chan A
  pub later : List Moment

module _ {ℓ} {A : Type ℓ} where
  unfoldable pub make : ℕ → Chan A
  make capacity = record { capacity = capacity; buffer = []; received = [] }

  unfoldable pub taken_by : Moment → Chan A → Chan A
  taken_by m ch = record ch {
    buffer = drop m.taken ch.buffer;
    received = ch.received ++ take m.taken ch.buffer;
  }

  -- A consumer waits only at an empty buffer.
  unfoldable pub handed_over : Moment → Chan A → Bool
  handed_over m ch = m.waiting && length ch.buffer == 0

  unfoldable pub ready : Moment → Chan A → Case → Bool
  unfolding handed_over
  ready m ch stop_case = m.stopped
  ready m ch send_case = handed_over m ch || ltb (length ch.buffer) ch.capacity
  ready m ch receive_case = ltb 0 (length ch.buffer)
  ready m ch timer_case = m.timed_out

  -- `ch <- message`, where that is ready.
  unfoldable pub send : Moment → A → Chan A → Chan A
  unfolding handed_over
  send m message ch =
      if handed_over m ch
      then record ch { received = ch.received ++ message ∷ [] }
      else record ch { buffer = ch.buffer ++ message ∷ [] }

  -- `<-ch`, by the broadcaster itself: the oldest message is dropped.
  unfoldable pub discard : Chan A → Chan A
  discard ch = record ch { buffer = drop 1 ch.buffer }

  -- The first case that is ready.
  unfoldable pub first_ready : Moment → Chan A → List Case → Option Case
  unfolding ready
  first_ready m ch [] = none
  first_ready m ch (c ∷ cs) = if ready m ch c then some c else first_ready m ch cs

  -- What a select chooses: a ready case, any one of them, or none.
  unfoldable pub choose : Moment → Chan A → List Case → Option Case
  unfolding first_ready listed ready
  choose m ch cases =
      if listed m.chosen cases && ready m ch m.chosen then some m.chosen else first_ready m ch cases

  -- A select with a default: it is decided at once, and `none` is the default.
  unfoldable pub poll : List Case → List Moment → Chan A → Selected A
  unfolding choose taken_by
  poll cases [] ch = record { case = choose quiet ch cases; moment = quiet; chan = ch; later = [] }
  poll cases (m ∷ ms) ch =
      let ch' = taken_by m ch in
      record { case = choose m ch' cases; moment = m; chan = ch'; later = ms }

  -- A select with no default waits for a moment at which a case is ready; `none` if none comes.
  unfoldable pub await : List Case → List Moment → Chan A → Selected A
  unfolding choose taken_by
  await cases [] ch = record { case = none; moment = quiet; chan = ch; later = [] }
  await cases (m ∷ ms) ch =
      let ch' = taken_by m ch in
      let further = await cases ms ch' in
      elim (choose m ch' cases) [
        | some c ↦ record { case = some c; moment = m; chan = ch'; later = ms }
        | none ↦ further
      ]
