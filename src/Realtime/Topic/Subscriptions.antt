-- ===== src/Realtime/Topic/Subscriptions.antt =====
-- Who is subscribed to which pattern, and who is matched by a topic.
use hypern.Prelude.{
  String, ◌≡◌, refl, ap, ◌↔◌, inl, inr, Bool, true, false, ◌&&◌, ◌||◌, none, List, [], ◌∷◌, arith,
  eq_iff, eq_refl, if◌then◌else◌, if-both, Bool-cases, Option-cases, ◌==◌, is_some, is_empty, any,
  elem, discard, elem-discard, include, elem-include, string_eq, nat_eq,
}
use hypern.Prelude.Map
use hypern.Prelude.Map.{
  Map, Distinct, kept_if, lookup-insert, lookup-remove, lookup-modify, lookup-map_entries,
  insert-Distinct, remove-Distinct, modify-Distinct, map_entries-Distinct,
}
use hypern.Realtime.Topic.{
  TopicMatcher, clients_of, pattern_matches, subscribe, unsubscribe, unsubscribe_all,
  empty_patterns, remove_patterns, include_all, matched_from, match_topic,
}

elem-include_all :
    (k : String) (cs matched : List String)
    → elem k (include_all cs matched) ≡ (elem k cs || elem k matched)
unfolding include_all
elem-include_all k [] matched = refl
elem-include_all k (c ∷ cs) matched =
    ground (arith, elem-include_all k cs (include c matched), elem-include c k matched)

-- One entry of the table puts the client among the matched.
abbrev matched_by : String → String → String × List String → Bool
matched_by k topic e = pattern_matches e.0 topic && elem k e.1

elem-matched_from :
    (k topic : String) (m : TopicMatcher) (matched : List String)
    → elem k (matched_from topic m matched) ≡ (any (matched_by k topic) m || elem k matched)
unfolding matched_from
elem-matched_from k topic [] matched = refl
elem-matched_from k topic ((p, cs) ∷ m) matched = ground (
  arith,
  elem-matched_from k topic m (if pattern_matches p topic then include_all cs matched else matched),
  elem-include_all k cs matched,
)

any_of_lookup :
    (k topic p : String) (m : TopicMatcher)
    → pattern_matches p topic ≡ true
    → elem k (clients_of p m) ≡ true
    → any (matched_by k topic) m ≡ true
unfolding Map.lookup
any_of_lookup k topic p [] h e = ground arith
any_of_lookup k topic p ((i, cs) ∷ m) h e = ground (
  arith,
  eq_iff i p,
  any_of_lookup k topic p m h,
  λ (q : i ≡ p). ap (λ z. pattern_matches z topic) q,
)

lookup_of_any :
    (k topic : String) (m : TopicMatcher)
    → Distinct m
    → any (matched_by k topic) m ≡ true
    → (p : String) × (pattern_matches p topic ≡ true) × (elem k (clients_of p m) ≡ true)
unfolding Map.lookup
lookup_of_any k topic [] d h = absurd (ground arith)
lookup_of_any k topic ((i, cs) ∷ m) d h = elim (Bool-cases (matched_by k topic (i, cs))) [
  | inl here ↦ (i, ground arith, ground (arith, eq_refl i))
  | inr later ↦
      let (p, e, c) = lookup_of_any k topic m d.1 (ground arith) in
      (p, e, ground (arith, eq_iff i p, λ (q : i ≡ p). ap (λ z. Map.lookup z m) q))
]

-- Where the table holds each pattern once, a client is matched by a topic exactly when it is
-- subscribed to some pattern that matches.
pub match_topic_iff :
    (client_id topic : String) (m : TopicMatcher)
    → Distinct m
    → (elem client_id (match_topic topic m) ≡ true)
      ↔ ((p : String) × (pattern_matches p topic ≡ true) × (elem client_id (clients_of p m) ≡ true))
unfolding match_topic
match_topic_iff k topic m d = (
  λ h. lookup_of_any k topic m d (ground (arith, elem-matched_from k topic m [])),
  λ w. ground (arith, elem-matched_from k topic m [], any_of_lookup k topic w.0 m w.1 w.2),
)

-- The same from left to right only, with no condition on the table.
pub match_topic_of_subscribed :
    (client_id topic p : String) (m : TopicMatcher)
    → pattern_matches p topic ≡ true
    → elem client_id (clients_of p m) ≡ true
    → elem client_id (match_topic topic m) ≡ true
unfolding match_topic
match_topic_of_subscribed k topic p m h e =
    ground (arith, elem-matched_from k topic m [], any_of_lookup k topic p m h e)

pub pattern_matches_self : (topic : String) → pattern_matches topic topic ≡ true
unfolding pattern_matches
pattern_matches_self topic = ground (arith, eq_refl topic)

-- `subscribe` adds the client to the pattern, and changes no other subscription.
pub elem-clients_of-subscribe :
    (pattern client_id p k : String) (m : TopicMatcher)
    → elem k (clients_of p (subscribe pattern client_id m))
      ≡ (if pattern == p && client_id == k then true else elem k (clients_of p m))
unfolding subscribe
elem-clients_of-subscribe pattern c p k m = ground (
  arith,
  lookup-insert pattern p (include c (clients_of pattern m)) m,
  elem-include c k (clients_of pattern m),
  eq_iff pattern p,
  λ (q : pattern ≡ p). ap (λ z. Map.lookup z m) q,
)

elem_of_is_empty : (j : String) (xs : List String) → is_empty xs ≡ true → elem j xs ≡ false
elem_of_is_empty j [] h = refl
elem_of_is_empty j (x ∷ xs) h = cc

-- `unsubscribe` removes the client from the pattern, and changes no other subscription.
pub elem-clients_of-unsubscribe :
    (pattern client_id p k : String) (m : TopicMatcher)
    → elem k (clients_of p (unsubscribe pattern client_id m).0)
      ≡ (if pattern == p && client_id == k then false else elem k (clients_of p m))
unfolding unsubscribe
elem-clients_of-unsubscribe pattern c p k m = elim (Option-cases (Map.lookup pattern m)) [
  | inl e ↦ ground (arith, e, eq_iff pattern p, λ (q : pattern ≡ p). ap (λ z. Map.lookup z m) q)
  | inr (cs, e) ↦ ground (
    arith,
    e,
    lookup-remove pattern p m,
    lookup-modify pattern p (discard c) m,
    elem-discard c k cs,
    elem_of_is_empty k (discard c cs),
    eq_iff pattern p,
    λ (q : pattern ≡ p). ap (λ z. Map.lookup z m) q,
  )
]

empty_patterns_absent :
    (p : String) (m : TopicMatcher) → Map.lookup p m ≡ none → elem p (empty_patterns m) ≡ false
unfolding empty_patterns Map.lookup
empty_patterns_absent p [] h = refl
empty_patterns_absent p ((i, cs) ∷ m) h = ground (arith, empty_patterns_absent p m)

elem-empty_patterns :
    (p : String) (m : TopicMatcher)
    → Distinct m
    → elem p (empty_patterns m) ≡ is_some (kept_if is_empty (Map.lookup p m))
unfolding empty_patterns Map.lookup
elem-empty_patterns p [] d = refl
elem-empty_patterns p ((i, cs) ∷ m) d = ground (
  arith,
  elem-empty_patterns p m d.1,
  empty_patterns_absent i m d.0,
  eq_iff i p,
  λ (q : i ≡ p). ap (λ z. elem z (empty_patterns m)) q,
)

lookup-remove_patterns :
    (ps : List String) (m : TopicMatcher) (p : String)
    → Map.lookup p (remove_patterns ps m) ≡ (if elem p ps then none else Map.lookup p m)
unfolding remove_patterns
lookup-remove_patterns [] m p = refl
lookup-remove_patterns (i ∷ ps) m p =
    ground (arith, lookup-remove_patterns ps (Map.remove i m) p, lookup-remove i p m)

pub elem-clients_of-unsubscribe_all :
    (client_id p k : String) (m : TopicMatcher)
    → Distinct m
    → elem k (clients_of p (unsubscribe_all client_id m).0)
      ≡ (if client_id == k then false else elem k (clients_of p m))
unfolding unsubscribe_all
elem-clients_of-unsubscribe_all c p k m d = elim (Option-cases (Map.lookup p m)) [
  | inl e ↦ ground (
    arith,
    e,
    lookup-remove_patterns (empty_patterns left) left p,
    lookup-map_entries p (λ _ clients. discard c clients) m,
  )
  | inr (cs, e) ↦ ground (
    arith,
    e,
    lookup-remove_patterns (empty_patterns left) left p,
    elem-empty_patterns p left (map_entries-Distinct (λ _ clients. discard c clients) m d),
    lookup-map_entries p (λ _ clients. discard c clients) m,
    elem-discard c k cs,
    elem_of_is_empty k (discard c cs),
  )
]
  where
    left : TopicMatcher
    left = Map.map_entries (λ _ clients. discard c clients) m

remove_patterns-Distinct :
    (ps : List String) (m : TopicMatcher) → Distinct m → Distinct (remove_patterns ps m)
unfolding remove_patterns
remove_patterns-Distinct [] m d = d
remove_patterns-Distinct (p ∷ ps) m d =
    remove_patterns-Distinct ps (Map.remove p m) (remove-Distinct p m d)

pub subscribe-Distinct :
    (pattern id : String) (m : TopicMatcher) → Distinct m → Distinct (subscribe pattern id m)
unfolding subscribe
subscribe-Distinct pattern id m d = insert-Distinct pattern (include id (clients_of pattern m)) m d

pub unsubscribe-Distinct :
    (pattern id : String) (m : TopicMatcher) → Distinct m → Distinct (unsubscribe pattern id m).0
unfolding unsubscribe
unsubscribe-Distinct pattern id m d = elim (Option-cases (Map.lookup pattern m)) [
  | inl e ↦ rw (e, unsubscribe) d
  | inr (clients, e) ↦
      rw (e, unsubscribe)
        (if-both (Distinct {K = String} {V = List String}) (is_empty (discard id clients))
          (remove-Distinct pattern m d) (modify-Distinct pattern (discard id) m d))
]

pub unsubscribe_all-Distinct :
    (c : String) (m : TopicMatcher) → Distinct m → Distinct (unsubscribe_all c m).0
unfolding unsubscribe_all
unsubscribe_all-Distinct c m d = remove_patterns-Distinct (empty_patterns left) left left_distinct
  where
    left : TopicMatcher
    left = Map.map_entries (λ _ clients. discard c clients) m

    left_distinct : Distinct left
    left_distinct = map_entries-Distinct (λ _ clients. discard c clients) m d

-- Where the table holds each pattern once, no topic matches the client after `unsubscribe_all`.
pub match_topic-unsubscribe_all :
    (client_id topic : String) (m : TopicMatcher)
    → Distinct m
    → elem client_id (match_topic topic (unsubscribe_all client_id m).0) ≡ false
match_topic-unsubscribe_all c topic m d =
    elim (Bool-cases (elem c (match_topic topic (unsubscribe_all c m).0))) [
      | inl e ↦
          let w =
            (match_topic_iff c topic (unsubscribe_all c m).0 (unsubscribe_all-Distinct c m d)).0
              e in
          ground (arith, elem-clients_of-unsubscribe_all c w.0 c m d, eq_refl c, w.2)
      | inr n ↦ n
    ]
