-- ===== src/Daemon/Context.antt =====
-- service_context.go: the context that a service's methods are given. A Go context is known by a
-- number, and `ctx` is the cancellable child that context.WithCancel makes. The fields are a slice, and
-- contexts that share an array live on one heap of arrays.
use rxdaemon.Prelude.{
  ℕ, zero, suc, ◌+◌, ◌≤◌, String, ◌≡◌, refl, sym, ap, subst, ◌∙◌, true, List, [], ◌∷◌, ◌++◌,
  append_assoc, length, take, drop, arith, leb, str_eq, if◌then◌else◌, if-true, concat, update,
  update-same, length-append,
}
use rxdaemon.Log.{Field, string_field, DaemonLog}

-- A slice of fields: its array, its length and its capacity.
pub record Slice : Type 0 where
  pub array : ℕ
  pub len : ℕ
  pub cap : ℕ

-- What is written in each array; arrays from `next` on are not in use.
pub record Arrays : Type 0 where
  pub cells : ℕ → List Field
  pub next : ℕ

unfoldable pub contents : Arrays → Slice → List Field
contents h s = take s.len (h.cells s.array)

-- `append` of Go: in place where there is room, or else in a new array, for which the runtime leaves
-- `room` beyond what is needed.
unfoldable append : ℕ → List Field → Slice → Arrays → Slice × Arrays
unfolding contents
append room fields s h =
    let len = s.len + length fields in
    if leb len s.cap
    then (
      record s { len = len },
      record h {
        cells = update h.cells s.array ((contents h s ++ fields) ++ drop len (h.cells s.array));
      },
    )
    else (
      record { array = h.next; len = len; cap = len + room },
      record { cells = update h.cells h.next (contents h s ++ fields); next = suc h.next },
    )

pub record ServiceContext : Type 0 where
  pub context : ℕ
  pub name : String
  pub fqcn : String
  pub fields : Slice

abbrev empty_slice : Slice
empty_slice = record { array = 0; len = 0; cap = 0 }

unfoldable new_service_context : ℕ → ℕ → String → Arrays → ServiceContext × Arrays
unfolding append
new_service_context room ctx name h =
    let named =
      if str_eq name ""
      then (empty_slice, h)
      else append room (string_field "service" name ∷ []) empty_slice h in
    (record { context = ctx; name = name; fqcn = name; fields = named.0 }, named.1)

unfoldable with_parent : ℕ → ServiceContext → ServiceContext
with_parent ctx sc = record sc { context = ctx }

unfoldable pub with_fields : ℕ → List Field → ServiceContext → Arrays → ServiceContext × Arrays
unfolding append
with_fields room fields sc h =
    let more = append room fields sc.fields h in (record sc { fields = more.0 }, more.1)

unfoldable with_name : ℕ → String → ServiceContext → ServiceContext
with_name ctx name sc = record sc {
  context = ctx;
  name = name;
  fqcn = concat (sc.fqcn ∷ "_" ∷ name ∷ []);
}

-- What Log sends to the log channel; its arguments are a slice of their own, with no room.
unfoldable pub log : Arrays → ServiceContext → ℕ → String → List Field → DaemonLog
unfolding contents
log h sc level message fields = record {
  level = level;
  message = message;
  fields = fields ++ contents h sc.fields;
}

-- The array of the slice holds all of it.
abbrev IsHeld : Arrays → Slice → Type 0
IsHeld h s = s.len ≤ length (h.cells s.array)

length-take : {A : Type 0} (n : ℕ) (xs : List A) → n ≤ length xs → length (take n xs) ≡ n
length-take zero xs h = refl
length-take (suc n) [] h = absurd (omega arith)
length-take (suc n) (x ∷ xs) h = omega (arith, length-take n xs (omega arith))

take-append : {A : Type 0} (n : ℕ) (xs ys : List A) → length xs ≡ n → take n (xs ++ ys) ≡ xs
take-append zero [] ys h = refl
take-append zero (x ∷ xs) ys h = absurd (omega arith)
take-append (suc n) [] ys h = absurd (omega arith)
take-append (suc n) (x ∷ xs) ys h = ap (λ l. x ∷ l) (take-append n xs ys (omega arith))

module _ (room : ℕ) (fields : List Field) (s : Slice) (h : Arrays) where
  -- The array after an append in place.
  abbrev written : Arrays
  written = record h {
    cells =
        update h.cells s.array
          ((contents h s ++ fields) ++ drop (s.len + length fields) (h.cells s.array));
  }

  append-in_place :
      leb (s.len + length fields) s.cap ≡ true
      → append room fields s h ≡ (record s { len = s.len + length fields }, written)
  unfolding append
  append-in_place fits = if-true (leb (s.len + length fields) s.cap) _ _ fits

  length-contents : IsHeld h s → length (contents h s) ≡ s.len
  unfolding contents
  length-contents held = length-take s.len (h.cells s.array) held

  contents-written :
      IsHeld h s
      → contents written (record s { len = s.len + length fields }) ≡ contents h s ++ fields
  unfolding contents
  contents-written held =
      ap (λ c. take (s.len + length fields) c) (update-same h.cells s.array _)
      ∙ take-append (s.len + length fields) (contents h s ++ fields) _
          (omega (arith, length-append (contents h s) fields, length-contents held))

  -- What the slice itself holds stays.
  contents-kept : IsHeld h s → contents written s ≡ contents h s
  unfolding contents
  contents-kept held =
      ap (λ c. take s.len c) (update-same h.cells s.array _)
      ∙ ap (λ c. take s.len c)
          (append_assoc (contents h s) fields (drop (s.len + length fields) (h.cells s.array)))
      ∙ take-append s.len (contents h s) _ (length-contents held)

  written-IsHeld : IsHeld h s → IsHeld written s
  unfolding contents
  written-IsHeld held =
      let e =
        ap (λ c. length c)
          (update-same h.cells s.array
            ((contents h s ++ fields) ++ drop (s.len + length fields) (h.cells s.array))) in
      omega (
        arith,
        e,
        length-contents held,
        length-append (contents h s) fields,
        length-append (contents h s ++ fields) (drop (s.len + length fields) (h.cells s.array)),
      )

module _ (room : ℕ) (fields : List Field) (sc : ServiceContext) (h : Arrays) where
  with_fields-in_place :
      leb (sc.fields.len + length fields) sc.fields.cap ≡ true
      → with_fields room fields sc h ≡ (
        record sc { fields = record sc.fields { len = sc.fields.len + length fields } },
        written room fields sc.fields h,
      )
  unfolding with_fields
  with_fields-in_place fits =
      ap (λ m. (record sc { fields = m.0 }, m.1)) (append-in_place room fields sc.fields h fits)

module _ (room : ℕ) (fields others : List Field) (sc : ServiceContext) (h : Arrays) where
  -- WithFields writes into the array of its context where that has room. Let the array have room, and
  -- let a context get two children, with as many fields each. The first child's log entries then hold
  -- its own fields until the second child is made, and those of the second child from then on.
  pub with_fields-siblings :
      (level : ℕ) (message : String) (extra : List Field)
      → IsHeld h sc.fields
      → leb (sc.fields.len + length fields) sc.fields.cap ≡ true
      → length others ≡ length fields
      → let (first, h') = with_fields room fields sc h in
        let (second, h'') = with_fields room others sc h' in
        ((log h' first level message extra).fields ≡ extra ++ (contents h sc.fields ++ fields))
        × ((log h'' first level message extra).fields ≡ extra ++ (contents h sc.fields ++ others))
        × ((log h'' second level message extra).fields ≡ extra ++ (contents h sc.fields ++ others))
  unfolding log
  with_fields-siblings level message extra held fits same =
      let s = sc.fields in
      let now = written room fields s h in
      let fits' : leb (s.len + length others) s.cap ≡ true =
        subst (λ n. leb (s.len + n) s.cap ≡ true) (sym same) fits in
      let held' = written-IsHeld room fields s h held in
      let other =
        contents-written room others s now held'
        ∙ ap (λ c. c ++ others) (contents-kept room fields s h held) in
      rw (with_fields-in_place room fields sc h fits) (
        rw (with_fields-in_place room others sc now fits') (
          ap (λ c. extra ++ c) (contents-written room fields s h held),
          ap (λ c. extra ++ c)
              (subst
                (λ n.
                  contents (written room others s now) (record s { len = s.len + n })
                  ≡ contents h s ++ others)
                same other),
          ap (λ c. extra ++ c) other,
        ))
