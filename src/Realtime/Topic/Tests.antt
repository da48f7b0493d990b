-- ===== src/Realtime/Topic/Tests.antt =====
-- Tests of topic matching, and the theorems at concrete inputs.
use hypern.Prelude.{String, ◌≡◌, refl, ◌↔◌, ◌⊎◌, true, false, [], elem, string_eq, nat_eq}
use hypern.Prelude.Map
use hypern.Prelude.Text.{split}
use hypern.Realtime.Topic.{
  TopicMatcher, clients_of, pattern_matches, subscribe, unsubscribe_all, match_topic,
}
use hypern.Realtime.Topic.Patterns.{Pointwise, Covered, pattern_matches_iff}
use hypern.Realtime.Topic.Subscriptions.{match_topic_iff}

topics : Unit {0}
unfolding pattern_matches subscribe unsubscribe_all match_topic Map.insert Map.lookup Map.remove
    Map.map_entries
topics = tt

pattern_tests :
    (pattern_matches "chat:*" "chat:room1" ≡ true)
    × (pattern_matches "events:#" "events:user:login" ≡ true)
    × (pattern_matches "events:#" "events" ≡ false)
    × (pattern_matches "chat:*" "chat:a:b" ≡ false)
    × (pattern_matches "a:#:z" "a:b:c" ≡ true)
unfolding topics
pattern_tests = (refl, refl, refl, refl, refl)

abbrev rooms : TopicMatcher
rooms = subscribe "chat:*" "ann" (subscribe "news:#" "bob" [])

rooms-Distinct : Map.Distinct rooms
unfolding topics
rooms-Distinct = (refl, (refl, tt))

pattern_matches_iff_example :
    Pointwise (split b':' "chat:*") (split b':' "chat:x")
    ⊎ Covered (split b':' "chat:*") (split b':' "chat:x")
pattern_matches_iff_example = (pattern_matches_iff "chat:*" "chat:x").0 (unfold topics in refl)

match_topic_iff_example : (elem "ann" (match_topic "chat:x" rooms) ≡ true) ↔ (
    (p : String) × (pattern_matches p "chat:x" ≡ true) × (elem "ann" (clients_of p rooms) ≡ true))
match_topic_iff_example = match_topic_iff "ann" "chat:x" rooms rooms-Distinct
