-- ===== src/Intracom/Registry/Held.antt =====
-- What callers of the registry get, however their calls overlap.
use rxdaemon.Prelude.{
  ℕ, suc, String, ◌≡◌, refl, sym, subst, ◌∙◌, Bool, true, false, List, [], ◌∷◌, Option, none, some,
  ◌<◌, ◌==◌, arith, if◌then◌else◌, if-true, if-false, Dict, lookup, update, All, All-insert,
  All-delete, All-lookup, All-map, Bool-cases, Option-cases, inl, inr,
}
use rxdaemon.Intracom.Topic.{TopicConfig, topic_close}
use rxdaemon.Intracom.Errors.{Err}
use rxdaemon.Intracom.Registry.{new, Intracom, created, not_created, close_topics, Typed}
use rxdaemon.Intracom.Registry.Sections.{
  Call, create, remove, close_all, Pc, calling, looking_up, inserting, found, shut, locking,
  has_created, has_returned, after_shut, shut_topic, insert_topic, swap_section, close_section,
  advance, turn, run,
}

-- What a caller holds or was given is a topic of the registry's, of the type that it asked for.
abbrev Holds {ℓ} : {A : Type ℓ} → Intracom A → Pc → Type 0
Holds ic (found name a) = a < ic.next
Holds ic (has_created tag (created a)) = (a < ic.next) × ((ic.heap a).tag ≡ tag)
Holds ic p = Unit {0}

-- Topics are never taken away and keep their type.
abbrev Extends {ℓ} : {A : Type ℓ} → Intracom A → Intracom A → Type 0
Extends ic ic' = (a : ℕ) → a < ic.next → (a < ic'.next) × ((ic'.heap a).tag ≡ (ic.heap a).tag)

abbrev InRange {ℓ} : {A : Type ℓ} → Intracom A → Type 0
InRange ic = All (λ (e : String × ℕ). e.1 < ic.next) ic.topics

-- A caller of CreateTopic stands where the type and the configuration of its own call took it, and any
-- other caller has no topic from CreateTopic.
abbrev Asks : Call → Pc → Type 0
Asks call (calling c) = c ≡ call
Asks call (looking_up tag conf) = call ≡ create tag conf
Asks call (inserting tag conf) = call ≡ create tag conf
Asks call (has_created tag r) = (conf : TopicConfig) × (call ≡ create tag conf)
Asks call p = Unit {0}

if-Asks :
    (call : Call) (t : Bool) (p q : Pc) → Asks call p → Asks call q → Asks call (if t then p else q)
if-Asks call true p q h k = h
if-Asks call false p q h k = k

after_shut-Asks : (call : Call) (name : String) (o : Option Err) → Asks call (after_shut name o)
after_shut-Asks call name none = tt
after_shut-Asks call name (some err) = tt

module _ {ℓ} {A : Type ℓ} where
  Holds-Extends : (ic ic' : Intracom A) (p : Pc) → Extends ic ic' → Holds ic p → Holds ic' p
  Holds-Extends ic ic' (calling c) e h = tt
  Holds-Extends ic ic' (looking_up tag conf) e h = tt
  Holds-Extends ic ic' (inserting tag conf) e h = tt
  Holds-Extends ic ic' (found name a) e h = (e a h).0
  Holds-Extends ic ic' (shut name) e h = tt
  Holds-Extends ic ic' locking e h = tt
  Holds-Extends ic ic' (has_created tag (created a)) e h = ((e a h.0).0, (e a h.0).1 ∙ h.1)
  Holds-Extends ic ic' (has_created tag (not_created x)) e h = tt
  Holds-Extends ic ic' (has_returned r) e h = tt

  close_topics-tag :
      (topics : Dict ℕ) (heap : ℕ → Typed A) (a : ℕ)
      → (close_topics topics heap a).tag ≡ (heap a).tag
  unfolding close_topics
  close_topics-tag [] heap a = refl
  close_topics-tag ((name, b) ∷ topics) heap a = close_topics-tag topics _ a ∙ ground arith

  advance-Extends :
      (zero_value : A) (p : Pc) (ic : Intracom A) → Extends ic (advance zero_value p ic).0
  unfolding advance insert_topic shut_topic swap_section close_section
  advance-Extends z (calling (create tag conf)) ic a h = (h, refl)
  advance-Extends z (calling (remove tag name)) ic a h = (h, refl)
  advance-Extends z (calling close_all) ic a h = ground arith
  advance-Extends z (looking_up tag conf) ic a h = (h, refl)
  advance-Extends z (inserting tag conf) ic a h = (omega arith, ground arith)
  advance-Extends z (found name b) ic a h = ground arith
  advance-Extends z (shut name) ic a h = (h, refl)
  advance-Extends z locking ic a h = (h, close_topics-tag ic.topics ic.heap a)
  advance-Extends z (has_created tag r) ic a h = (h, refl)
  advance-Extends z (has_returned r) ic a h = (h, refl)

  if-Holds :
      (ic : Intracom A) (t : Bool) (p q : Pc)
      → Holds ic p
      → Holds ic q
      → Holds ic (if t then p else q)
  if-Holds ic true p q h k = h
  if-Holds ic false p q h k = k

  after_shut-Holds :
      (ic : Intracom A) (name : String) (o : Option Err) → Holds ic (after_shut name o)
  after_shut-Holds ic name none = tt
  after_shut-Holds ic name (some err) = tt

  lookup-InRange :
      (ic : Intracom A) (name : String) (a : ℕ)
      → InRange ic
      → lookup name ic.topics ≡ some a
      → a < ic.next
  lookup-InRange ic name a r e = All-lookup (λ (x : String × ℕ). x.1 < ic.next) name a ic.topics r e

  advance-Holds :
      (z : A) (p : Pc) (ic : Intracom A)
      → InRange ic
      → Holds ic p
      → Holds (advance z p ic).0 (advance z p ic).1
  unfolding advance insert_topic shut_topic swap_section close_section
  advance-Holds z (calling (create tag conf)) ic r h = if-Holds ic ic.closed _ _ tt tt
  advance-Holds z (calling (remove tag name)) ic r h = elim (Option-cases (lookup name ic.topics)) [
    | inl n ↦ rw (n, advance) tt
    | inr (a, e) ↦
        rw (e, advance)
          (elim (Bool-cases ((ic.heap a).tag == tag)) [
            | inl y ↦ rw y (lookup-InRange ic name a r e)
            | inr n ↦ rw n tt
          ])
  ]
  advance-Holds z (calling close_all) ic r h = elim (Bool-cases ic.closed) [
    | inl y ↦ subst (λ (q : Intracom A × Pc). Holds q.0 q.1) (sym (if-true ic.closed _ _ y)) tt
    | inr n ↦ subst (λ (q : Intracom A × Pc). Holds q.0 q.1) (sym (if-false ic.closed _ _ n)) tt
  ]
  advance-Holds z (looking_up tag conf) ic r h = elim (Option-cases (lookup conf.name ic.topics)) [
    | inl n ↦ rw (n, advance) tt
    | inr (a, e) ↦
        rw (e, advance)
          (elim (Bool-cases ((ic.heap a).tag == tag)) [
            | inl y ↦ rw y (
                if-Holds ic conf.err_if_exists _ (has_created tag (created a)) tt
                  (lookup-InRange ic conf.name a r e, ground arith))
            | inr n ↦ rw (n, advance) tt
          ])
  ]
  advance-Holds z (inserting tag conf) ic r h = (omega arith, ground arith)
  advance-Holds z (found name b) ic r h =
      after_shut-Holds (advance z (found name b) ic).0 name (topic_close (ic.heap b).topic).1
  advance-Holds z (shut name) ic r h = tt
  advance-Holds z locking ic r h = tt
  advance-Holds z (has_created tag res) ic r h = h
  advance-Holds z (has_returned res) ic r h = tt

  advance-InRange : (z : A) (p : Pc) (ic : Intracom A) → InRange ic → InRange (advance z p ic).0
  unfolding advance insert_topic shut_topic swap_section close_section
  advance-InRange z (calling (create tag conf)) ic r = r
  advance-InRange z (calling (remove tag name)) ic r = r
  advance-InRange z (calling close_all) ic r = elim (Bool-cases ic.closed) [
    | inl y ↦ subst (λ (q : Intracom A × Pc). InRange q.0) (sym (if-true ic.closed _ _ y)) r
    | inr n ↦ subst (λ (q : Intracom A × Pc). InRange q.0) (sym (if-false ic.closed _ _ n)) r
  ]
  advance-InRange z (looking_up tag conf) ic r = r
  advance-InRange z (inserting tag conf) ic r =
      All-insert (λ (e : String × ℕ). e.1 < suc ic.next) conf.name ic.next ic.topics
        (All-map ic.topics (λ e h. omega arith) r) (omega arith)
  advance-InRange z (found name b) ic r = r
  advance-InRange z (shut name) ic r =
      All-delete (λ (e : String × ℕ). e.1 < ic.next) name ic.topics r
  advance-InRange z locking ic r = tt
  advance-InRange z (has_created tag res) ic r = r
  advance-InRange z (has_returned res) ic r = r

  advance-Asks :
      (z : A) (call : Call) (p : Pc) (ic : Intracom A) → Asks call p → Asks call (advance z p ic).1
  unfolding advance insert_topic shut_topic swap_section close_section
  advance-Asks z call (calling (create tag conf)) ic h =
      if-Asks call ic.closed _ _ (conf, sym h) (sym h)
  advance-Asks z call (calling (remove tag name)) ic h =
      elim (Option-cases (lookup name ic.topics)) [
        | inl n ↦ rw (n, advance) tt
        | inr (a, e) ↦ rw (e, advance) (if-Asks call ((ic.heap a).tag == tag) _ _ tt tt)
      ]
  advance-Asks z call (calling close_all) ic h = elim (Bool-cases ic.closed) [
    | inl y ↦ subst (λ (q : Intracom A × Pc). Asks call q.1) (sym (if-true ic.closed _ _ y)) tt
    | inr n ↦ subst (λ (q : Intracom A × Pc). Asks call q.1) (sym (if-false ic.closed _ _ n)) tt
  ]
  advance-Asks z call (looking_up tag conf) ic h =
      elim (Option-cases (lookup conf.name ic.topics)) [
        | inl n ↦ rw (n, advance) h
        | inr (a, e) ↦
            rw (e, advance)
              (if-Asks call ((ic.heap a).tag == tag) _ _
                (if-Asks call conf.err_if_exists _ _ (conf, h) (conf, h)) (conf, h))
      ]
  advance-Asks z call (inserting tag conf) ic h = (conf, h)
  advance-Asks z call (found name b) ic h =
      after_shut-Asks call name (topic_close (ic.heap b).topic).1
  advance-Asks z call (shut name) ic h = tt
  advance-Asks z call locking ic h = tt
  advance-Asks z call (has_created tag r) ic h = h
  advance-Asks z call (has_returned r) ic h = tt

  abbrev AllHold : (ℕ → Call) → Intracom A × (ℕ → Pc) → Type 0
  AllHold calls s = InRange s.0 × ((i : ℕ) → Holds s.0 (s.1 i)) × ((i : ℕ) → Asks (calls i) (s.1 i))

  turn-AllHold :
      (z : A) (calls : ℕ → Call) (i : ℕ) (s : Intracom A × (ℕ → Pc))
      → AllHold calls s
      → AllHold calls (turn z i s)
  turn-AllHold z calls i (ic, pcs) (r, h, k) = (
    advance-InRange z (pcs i) ic r,
    λ j. elim (Bool-cases (j == i)) [
      | inl y ↦ rw (y, update) (advance-Holds z (pcs i) ic r (h i))
      | inr n ↦
          rw (n, update)
            (Holds-Extends ic (advance z (pcs i) ic).0 (pcs j) (advance-Extends z (pcs i) ic) (h j))
    ],
    λ j. elim (Bool-cases (j == i)) [
      | inl y ↦
          let same : j ≡ i = ground arith in
          rw (y, update)
            (advance-Asks z (calls j) (pcs i) ic
              (subst (λ l. Asks (calls l) (pcs i)) (sym same) (k i)))
      | inr n ↦ rw (n, update) (k j)
    ],
  )

  run-AllHold :
      (z : A) (calls : ℕ → Call) (schedule : List ℕ) (s : Intracom A × (ℕ → Pc))
      → AllHold calls s
      → AllHold calls (run z schedule s)
  unfolding run
  run-AllHold z calls [] s h = h
  run-AllHold z calls (i ∷ schedule) s h =
      run-AllHold z calls schedule (turn z i s) (turn-AllHold z calls i s h)

  -- Callers of a new registry, whatever they call and in whatever order their sections run: a caller
  -- that CreateTopic has given a topic has called CreateTopic, and the topic exists and its messages are of
  -- the type that this call asked for; and each name in the registry leads to a topic that exists.
  pub created-of_type :
      (zero_value : A) (name : String) (unused : Typed A) (calls : ℕ → Call) (schedule : List ℕ)
      → let s = run zero_value schedule (new name unused, λ i. calling (calls i)) in
        ((i tag a : ℕ)
          → s.1 i ≡ has_created tag (created a)
          → (conf : TopicConfig) × (calls i ≡ create tag conf)
            × (a < s.0.next)
            × ((s.0.heap a).tag ≡ tag))
        × ((k : String) (a : ℕ) → lookup k s.0.topics ≡ some a → a < s.0.next)
  unfolding new
  created-of_type zero_value name unused calls schedule =
      let s = run zero_value schedule (new name unused, λ i. calling (calls i)) in
      let (r, h, k) =
        run-AllHold zero_value calls schedule (new name unused, λ i. calling (calls i))
          (tt, λ i. tt, λ i. refl) in
      (
        λ i tag a e.
            let (conf, asked) = subst (λ p. Asks (calls i) p) e (k i) in
            let (exists, typed) = subst (λ p. Holds s.0 p) e (h i) in (conf, asked, exists, typed),
        λ k a e. lookup-InRange s.0 k a r e,
      )
