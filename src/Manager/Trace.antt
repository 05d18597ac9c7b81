-- ===== src/Manager/Trace.antt =====
-- How a trace of a manager is read: the states that it announces and the methods that it calls.
use rxdaemon.Prelude.{◌≡◌, Bool, true, false, not, ◌&&◌, List, [], ◌∷◌, arith}
use rxdaemon.States.{State}
use rxdaemon.Manager.{
  Outcome, ok, fails, panics, Moment, cancelled, elapsed, Method, run_method, stop_method, Event,
  updated, called, logged, reset,
}

unfoldable pub states_of : List Event → List State
states_of [] = []
states_of (updated u ∷ es) = u.state ∷ states_of es
states_of (called m o ∷ es) = states_of es
states_of (logged e ∷ es) = states_of es
states_of (reset d ∷ es) = states_of es

-- Each state of a list may follow the one before it, the first one `s`.
abbrev ChainFrom : (State → State → Bool) → State → List State → Type 0
ChainFrom edge s [] = Unit {0}
ChainFrom edge s (t ∷ ts) = (edge s t ≡ true) × ChainFrom edge t ts

-- The list is empty, or begins with `s` and goes on along the edges.
abbrev pub Begins : (State → State → Bool) → State → List State → Type 0
Begins edge s [] = Unit {0}
Begins edge s (t ∷ ts) = (t ≡ s) × ChainFrom edge t ts

pub Begins-ChainFrom :
    (edge : State → State → Bool) (s t : State) (ts : List State)
    → edge s t ≡ true
    → Begins edge t ts
    → ChainFrom edge s ts
Begins-ChainFrom edge s t [] e b = tt
Begins-ChainFrom edge s t (u ∷ us) e b = (ground arith, b.1)

-- The state that the trace announces last; `d` answers for a trace that announces none.
unfoldable pub last_announced : State → List Event → State
last_announced d [] = d
last_announced d (updated u ∷ es) = last_announced u.state es
last_announced d (called m o ∷ es) = last_announced d es
last_announced d (logged e ∷ es) = last_announced d es
last_announced d (reset n ∷ es) = last_announced d es

abbrev is_stop_method : Method → Bool
is_stop_method stop_method = true
is_stop_method _ = false

-- Whether the last call of the trace is Stop; `b` answers for a trace with no call.
unfoldable pub stopped_last : Bool → List Event → Bool
stopped_last b [] = b
stopped_last b (called m o ∷ es) = stopped_last (is_stop_method m) es
stopped_last b (updated u ∷ es) = stopped_last b es
stopped_last b (logged e ∷ es) = stopped_last b es
stopped_last b (reset d ∷ es) = stopped_last b es

-- Whether no call of Stop comes straight after a call of Stop.
unfoldable pub stops_apart : Bool → List Event → Bool
stops_apart b [] = true
stops_apart b (called m o ∷ es) = not (b && is_stop_method m) && stops_apart (is_stop_method m) es
stops_apart b (updated u ∷ es) = stops_apart b es
stops_apart b (logged e ∷ es) = stops_apart b es
stops_apart b (reset d ∷ es) = stops_apart b es

-- Whether some call of Run returned nil.
unfoldable pub run_succeeded : List Event → Bool
run_succeeded [] = false
run_succeeded (called run_method ok ∷ es) = true
run_succeeded (e ∷ es) = run_succeeded es

-- The method does not panic.
abbrev pub is_calm : Outcome → Bool
is_calm ok = true
is_calm (fails e) = true
is_calm (panics e) = false

-- No method of the schedule panics.
unfoldable pub calm : List Moment → Bool
calm [] = true
calm (cancelled ∷ ms) = calm ms
calm (elapsed o ∷ ms) = is_calm o && calm ms

unfoldable pub has_cancelled : List Moment → Bool
has_cancelled [] = false
has_cancelled (cancelled ∷ ms) = true
has_cancelled (elapsed o ∷ ms) = has_cancelled ms
