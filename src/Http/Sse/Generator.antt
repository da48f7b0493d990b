-- ===== src/Http/Sse/Generator.antt =====
-- src/http/streaming.rs, `collect_sse_from_generator`. What the code can extract from a Python item is
-- the item; an exception of any kind is the result `none`. The arena copy of a text is the text.
pub mod Reading
use hypern.Http.Sse.{SseEvent, data_event, format}
use hypern.Prelude.Options.{◌>>=◌}
use hypern.Prelude.{
  ℕ, String, Bool, Option, none, some, List, [], ◌∷◌, ◌++◌, if◌then◌else◌, or_default,
}

-- A key of a dict: not there, there with a value of the type, or raising.
pub data DictItem (A : Type 0) : Type 0 where
  missing raises : DictItem A
  value : A → DictItem A

-- The tests of the loop in their order: the first that an item passes.
pub data Item : Type 0 where
  event : SseEvent → Item
  dict : DictItem String → DictItem String → DictItem String → DictItem ℕ → Item
  text : String → Item
  -- the attribute `data` if it is a string, then `event`, `id` and `retry` if they are of their types
  object : Option String → Option String → Option String → Option ℕ → Item
  -- what `str()` gives
  other : Option String → Item
  -- the iterator raises
  failed : Item

-- One round of the loop: the item, and whether `check_signals` raises after it.
pub record Round : Type 0 where
  pub item : Item
  pub interrupted : Bool

module _ {A : Type 0} where
  -- `get_item(key)?.map(extract).transpose()?`
  abbrev pub get_item : DictItem A → Option (Option A)
  get_item missing = some none
  get_item raises = none
  get_item (value a) = some (some a)

unfoldable pub event_of : Item → Option SseEvent
event_of (event e) = some e
event_of (dict bytes name id retry) = do
  found ← get_item bytes
  event_type ← get_item name
  event_id ← get_item id
  time ← get_item retry
  some (record { id = event_id; event = event_type; data_text = or_default "" found; retry = time })
event_of (text s) = some (data_event s)
event_of (object bytes name id retry) = do
  found ← bytes
  some (record { id = id; event = name; data_text = found; retry = retry })
event_of (other shown) = do s ← shown; some (data_event s)
event_of failed = none

module _ (to_string : ℕ → String) where
  -- `events` holds what was pushed so far.
  unfoldable pub collect_from : List String → List Round → Option (List String)
  collect_from events [] = some events
  collect_from events (r ∷ rs) = do
    e ← event_of r.item
    if r.interrupted then none else collect_from (events ++ format to_string e ∷ []) rs

  -- collect_sse_from_generator
  abbrev pub collect : List Round → Option (List String)
  collect = collect_from []
