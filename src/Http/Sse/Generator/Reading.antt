-- ===== src/Http/Sse/Generator/Reading.antt =====
-- What a client reads of a collected generator.
use Prim.Native.String
use Prim.Native.String.append
use text.Mathlib.TextLemmas.{append_assoc as str_assoc}
use hypern.Prelude.Lines.{IsOneLine}
use hypern.Http.Sse.{SseEvent, data_event, format}
use hypern.Http.Sse.Generator.{
  DictItem, missing, raises, value, Item, event, dict, object, other, failed, Round, get_item,
  event_of, collect_from, collect,
}
use hypern.Http.Sse.Reader.{initial, read}
use hypern.Http.Sse.RoundTrip.{read-format_all}
use hypern.Http.Sse.RoundTrip.Wire.{ArePlain, all_seen, format_all}
use hypern.Prelude.Options.{◌>>=◌}
use hypern.Prelude.{
  ℕ, String, ◌≡◌, refl, sym, ap, ◌∙◌, subst, ◌⊎◌, inl, inr, true, false, Option, none, some, List,
  [], ◌∷◌, ◌++◌, append-nil, append_assoc, if◌then◌else◌, Bool-cases, Option-cases, or_default,
}

-- What a key of a dict gives: nothing, or its value.
pub data Gives {A : Type 0} : DictItem A → Option A → Type 0 where
  nothing : Gives missing none
  its_value : {a : A} → Gives (value a) (some a)

-- What an item stands for: an event, or none for an exception.
pub data StandsFor : Item → Option SseEvent → Type 0 where
  an_event : {e : SseEvent} → StandsFor (event e) (some e)
  keys :
      {bytes name id : DictItem String} {retry : DictItem ℕ}
      {found event_type event_id : Option String} {time : Option ℕ}
      → Gives bytes found
      → Gives name event_type
      → Gives id event_id
      → Gives retry time
      → StandsFor (dict bytes name id retry) (
          some (record {
            id = event_id;
            event = event_type;
            data_text = or_default "" found;
            retry = time;
          }))
  data_raises :
      {name id : DictItem String} {retry : DictItem ℕ} → StandsFor (dict raises name id retry) none
  event_raises :
      {bytes id : DictItem String} {retry : DictItem ℕ}
      → StandsFor (dict bytes raises id retry) none
  id_raises :
      {bytes name : DictItem String} {retry : DictItem ℕ}
      → StandsFor (dict bytes name raises retry) none
  retry_raises : {bytes name id : DictItem String} → StandsFor (dict bytes name id raises) none
  its_text : {s : String} → StandsFor (Item.text s) (some (data_event s))
  attributes :
      {s : String} {name id : Option String} {retry : Option ℕ}
      → StandsFor
          (object (some s) name id retry)
          (some (record { id = id; event = name; data_text = s; retry = retry }))
  no_string :
      {name id : Option String} {retry : Option ℕ} → StandsFor (object none name id retry) none
  as_shown : {s : String} → StandsFor (other (some s)) (some (data_event s))
  not_shown : StandsFor (other none) none
  iterator_raises : StandsFor failed none

-- What the rounds yield: their events in order, or none, where one of them raises or a signal's
-- handler does after it.
pub data Yields : List Round → Option (List SseEvent) → Type 0 where
  ends : Yields [] (some [])
  raising : {r : Round} {rs : List Round} → StandsFor r.item none → Yields (r ∷ rs) none
  signalled :
      {r : Round} {rs : List Round} {e : SseEvent}
      → StandsFor r.item (some e)
      → r.interrupted ≡ true
      → Yields (r ∷ rs) none
  then_raising :
      {r : Round} {rs : List Round} {e : SseEvent}
      → StandsFor r.item (some e)
      → r.interrupted ≡ false
      → Yields rs none
      → Yields (r ∷ rs) none
  then_events :
      {r : Round} {rs : List Round} {e : SseEvent} {es : List SseEvent}
      → StandsFor r.item (some e)
      → r.interrupted ≡ false
      → Yields rs (some es)
      → Yields (r ∷ rs) (some (e ∷ es))

abbrev events_of : List Round → Option (List SseEvent)
events_of [] = some []
events_of (r ∷ rs) =
    let rest = events_of rs in
    do e ← event_of r.item; es ← (if r.interrupted then none else rest); some (e ∷ es)

Gives-get_item : {A : Type 0} {d : DictItem A} {o : Option A} → Gives d o → get_item d ≡ some o
Gives-get_item nothing = refl
Gives-get_item its_value = refl

-- An exception anywhere in a chain.
bind-none : {A B : Type 0} (o : Option A) → ◌≡◌ {A = Option B} (do a ← o; none) none
bind-none none = refl
bind-none (some a) = refl

StandsFor-event_of : {i : Item} {o : Option SseEvent} → StandsFor i o → event_of i ≡ o
unfolding event_of
StandsFor-event_of an_event = refl
StandsFor-event_of (keys b n i r) =
    rw (Gives-get_item b, Gives-get_item n, Gives-get_item i, Gives-get_item r) refl
StandsFor-event_of data_raises = refl
StandsFor-event_of (event_raises {bytes = bytes}) = bind-none (get_item bytes)
StandsFor-event_of (id_raises {bytes = bytes} {name = name}) =
    elim (Option-cases (get_item bytes)) [
      | inl e ↦ rw e refl
      | inr (v, e) ↦ rw e (bind-none (get_item name))
    ]
StandsFor-event_of (retry_raises {bytes = bytes} {name = name} {id = id}) =
    elim (Option-cases (get_item bytes)) [
      | inl e ↦ rw e refl
      | inr (v, e) ↦ rw e (elim (Option-cases (get_item name)) [
        | inl f ↦ rw f refl
        | inr (w, f) ↦ rw f (bind-none (get_item id))
      ])
    ]
StandsFor-event_of its_text = refl
StandsFor-event_of attributes = refl
StandsFor-event_of no_string = refl
StandsFor-event_of as_shown = refl
StandsFor-event_of not_shown = refl
StandsFor-event_of iterator_raises = refl

Yields-events_of : {rs : List Round} {o : Option (List SseEvent)} → Yields rs o → events_of rs ≡ o
Yields-events_of ends = refl
Yields-events_of (raising s) = rw (StandsFor-event_of s) refl
Yields-events_of (signalled s i) = rw (StandsFor-event_of s, i) refl
Yields-events_of (then_raising s i y) = rw (StandsFor-event_of s, i, Yields-events_of y) refl
Yields-events_of (then_events s i y) = rw (StandsFor-event_of s, i, Yields-events_of y) refl

-- Something that the relation gives for an item.
abbrev Stood : Item → Type 0
Stood i = (o : Option SseEvent) × StandsFor i o

Gives-cases : {A : Type 0} (d : DictItem A) → (d ≡ raises) ⊎ ((o : Option A) × Gives d o)
Gives-cases missing = inr (none, nothing)
Gives-cases raises = inl refl
Gives-cases (value a) = inr (some a, its_value)

item-StandsFor : (i : Item) → Stood i
item-StandsFor (event e) = (some e, an_event)
item-StandsFor (dict b n i r) = elim (Gives-cases b) [
  | inl x ↦ subst (λ d. Stood (dict d n i r)) (sym x) (none, data_raises)
  | inr (ob, gb) ↦ elim (Gives-cases n) [
    | inl x ↦ subst (λ d. Stood (dict b d i r)) (sym x) (none, event_raises)
    | inr (on, gn) ↦ elim (Gives-cases i) [
      | inl x ↦ subst (λ d. Stood (dict b n d r)) (sym x) (none, id_raises)
      | inr (oi, gi) ↦ elim (Gives-cases r) [
        | inl x ↦ subst (λ d. Stood (dict b n i d)) (sym x) (none, retry_raises)
        | inr (or, gr) ↦ (_, keys gb gn gi gr)
      ]
    ]
  ]
]
item-StandsFor (Item.text s) = (some (data_event s), its_text)
item-StandsFor (object none n i r) = (none, no_string)
item-StandsFor (object (some s) n i r) = (_, attributes)
item-StandsFor (other none) = (none, not_shown)
item-StandsFor (other (some s)) = (some (data_event s), as_shown)
item-StandsFor failed = (none, iterator_raises)

-- Something that the relation gives for rounds.
abbrev Yielded : List Round → Type 0
Yielded rs = (o : Option (List SseEvent)) × Yields rs o

round-Yields : (r : Round) (rs : List Round) → Stood r.item → Yielded rs → Yielded (r ∷ rs)
round-Yields r rs (none, s) later = (none, raising s)
round-Yields r rs (some e, s) (none, y) = elim (Bool-cases r.interrupted) [
  | inl x ↦ (none, signalled s x)
  | inr x ↦ (none, then_raising s x y)
]
round-Yields r rs (some e, s) (some es, y) = elim (Bool-cases r.interrupted) [
  | inl x ↦ (none, signalled s x)
  | inr x ↦ (some (e ∷ es), then_events s x y)
]

-- The relation says of any rounds what they yield.
rounds-Yields : (rs : List Round) → Yielded rs
rounds-Yields [] = (some [], ends)
rounds-Yields (r ∷ rs) = round-Yields r rs (item-StandsFor r.item) (rounds-Yields rs)

-- The chunks that the body sends, one behind the other.
abbrev pub concat : List String → String
concat [] = ""
concat (c ∷ cs) = String.◌++◌ c (concat cs)

concat-append : (xs ys : List String) → concat (xs ++ ys) ≡ String.◌++◌ (concat xs) (concat ys)
concat-append [] ys = sym (append.nil (concat ys))
concat-append (x ∷ xs) ys = simp (concat-append xs ys, str_assoc)

module _ (to_string : ℕ → String) where
  abbrev formats : List SseEvent → List String
  formats [] = []
  formats (e ∷ es) = format to_string e ∷ formats es

  bind-cons :
      (v : SseEvent) (events : List String) (o : Option (List SseEvent))
      → (do es ← o; some (events ++ format to_string v ∷ [] ++ formats es))
        ≡ (do es ← (do more ← o; some (v ∷ more)); some (events ++ formats es))
  bind-cons v events none = refl
  bind-cons v events (some es) =
      ap some (append_assoc events (format to_string v ∷ []) (formats es))

  -- The loop pushes the format of every event, in order.
  collect_from_lem :
      (rs : List Round) (events : List String)
      → collect_from to_string events rs ≡ (do es ← events_of rs; some (events ++ formats es))
  unfolding collect_from
  collect_from_lem [] events = simp (append-nil)
  collect_from_lem (r ∷ rs) events = elim (Option-cases (event_of r.item)) [
    | inl e ↦ rw (e, collect_from)
    | inr (v, e) ↦ elim (Bool-cases r.interrupted) [
      | inl i ↦ rw (e, i, collect_from) refl
      | inr i ↦
          rw (e, i, collect_from)
            (collect_from_lem rs (events ++ format to_string v ∷ [])
              ∙ bind-cons v events (events_of rs))
    ]
  ]

  concat-formats : (es : List SseEvent) → concat (formats es) ≡ format_all to_string es
  concat-formats [] = refl
  concat-formats (e ∷ es) = rw (concat-formats es)

  abbrev pub ArePlainIfAny : Option (List SseEvent) → Type 0
  ArePlainIfAny none = Unit
  ArePlainIfAny (some es) = ArePlain es

  module _ (parse_digits : String → Option ℕ) where
    -- Where the rounds of a generator yield events that are plain (each with an id and a type of one
    -- line, no NUL in the id, and data that is not empty, has no CR and does not end in a newline), a
    -- client that reads the collected chunks sees these events, in order; where a round raises, the
    -- call does, too. Printed numbers are lines that are read back.
    pub collect-read :
        (shown_back : (n : ℕ) → parse_digits (to_string n) ≡ some n)
        (shown_line : (n : ℕ) → IsOneLine (to_string n)) (rs : List Round)
        (o : Option (List SseEvent))
        → Yields rs o
        → ArePlainIfAny o
        → (do chunks ← collect to_string rs; some (read parse_digits initial (concat chunks)))
          ≡ (do es ← o; some (all_seen es ""))
    collect-read back line rs none y plain = rw (collect_from_lem rs [], Yields-events_of y)
    collect-read back line rs (some es) y plain =
        rw (collect_from_lem rs [], Yields-events_of y, concat-formats es)
          (ap some (read-format_all parse_digits to_string back line es plain))
