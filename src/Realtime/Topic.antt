-- ===== src/Realtime/Topic.antt =====
-- src/realtime/channel.rs, `TopicMatcher`: clients subscribed to topic patterns.
mod Patterns
pub mod Subscriptions
mod Tests
use hypern.Prelude.{
  ℕ, ◌+◌, ◌*◌, String, Bool, true, false, none, some, List, [], ◌∷◌, if◌then◌else◌, ◌==◌,
  or_default, length, is_empty, elem, discard, include, string_eq, nat_eq,
}
use hypern.Prelude.Map
use hypern.Prelude.Map.{Map}
use hypern.Prelude.Text.{split}

-- The loop of `pattern_matches`, whose two indices advance together, on the parts that are left.
unfoldable pub match_parts : List String → List String → Bool
match_parts [] [] = true
match_parts [] (t ∷ ts) = false
match_parts (p ∷ ps) [] = false
match_parts (p ∷ ps) (t ∷ ts) =
    let rest = match_parts ps ts in
    if p == "#" then true else if p == "*" then rest else if p == t then rest else false

unfoldable pub pattern_matches : String → String → Bool
unfolding match_parts split
pattern_matches pattern topic =
    if pattern == topic then true else match_parts (split b':' pattern) (split b':' topic)

-- Pattern → set of client ids.
abbrev pub TopicMatcher : Type 0
TopicMatcher = Map String (List String)

abbrev pub clients_of : String → TopicMatcher → List String
clients_of pattern m = or_default [] (Map.lookup pattern m)

unfoldable pub subscribe : String → String → TopicMatcher → TopicMatcher
subscribe pattern client_id m = Map.insert pattern (include client_id (clients_of pattern m)) m

unfoldable pub unsubscribe : String → String → TopicMatcher → TopicMatcher × Bool
unsubscribe pattern client_id m = elim (Map.lookup pattern m) [
  | none ↦ (m, false)
  | some clients ↦ (
    if is_empty (discard client_id clients)
        then Map.remove pattern m
        else Map.modify pattern (discard client_id) m,
    elem client_id clients,
  )
]

-- How many entries hold the client: the `count` of `unsubscribe_all`.
count_with : String → TopicMatcher → ℕ
count_with client_id [] = 0
count_with client_id ((p, clients) ∷ m) =
    (if elem client_id clients then 1 else 0) + count_with client_id m

-- `empty_patterns`: the keys whose set the loop left empty
empty_patterns : TopicMatcher → List String
empty_patterns [] = []
empty_patterns ((p, clients) ∷ m) =
    let rest = empty_patterns m in if is_empty clients then p ∷ rest else rest

remove_patterns : List String → TopicMatcher → TopicMatcher
remove_patterns [] m = m
remove_patterns (p ∷ ps) m = remove_patterns ps (Map.remove p m)

unfoldable pub unsubscribe_all : String → TopicMatcher → TopicMatcher × ℕ
unfolding count_with empty_patterns remove_patterns
unsubscribe_all client_id m =
    let left = Map.map_entries (λ _ clients. discard client_id clients) m in
    (remove_patterns (empty_patterns left) left, count_with client_id m)

-- `matched.insert` for each client of a matching entry
include_all : List String → List String → List String
include_all [] matched = matched
include_all (c ∷ cs) matched = include_all cs (include c matched)

matched_from : String → TopicMatcher → List String → List String
unfolding pattern_matches include_all
matched_from topic [] matched = matched
matched_from topic ((pattern, clients) ∷ m) matched =
    matched_from topic m
      (if pattern_matches pattern topic then include_all clients matched else matched)

unfoldable pub match_topic : String → TopicMatcher → List String
unfolding matched_from
match_topic topic m = matched_from topic m []

unfoldable pub subscriber_count : String → TopicMatcher → ℕ
subscriber_count pattern m = length (clients_of pattern m)
