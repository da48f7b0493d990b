-- ===== src/Realtime/Presence/Stale.antt =====
-- Eviction of members that were not seen for too long.
use hypern.Prelude.{
  ℕ, ◌+◌, String, ◌≡◌, refl, ap, inl, inr, Bool, false, not, ◌&&◌, ◌||◌, none, List, [], ◌∷◌, ◌++◌,
  map, arith, eq_iff, ltb, if◌then◌else◌, Option-cases, ◌==◌, is_some, elem, string_eq, nat_eq,
}
use hypern.Prelude.Map
use hypern.Prelude.Map.{Map, Distinct, kept_if, lookup-remove, lookup-map_entries}
use hypern.Prelude.Map.All.{AllValues}
use hypern.Realtime.Presence.{
  PresenceInfo, ChannelPresence, PresenceTracker, unlist, get, stale_ids, remove_each, sweep,
  evicted_from, unlist_each, evict_stale,
}
use hypern.Realtime.Presence.Lookup.{member, listed, listed-unlist}

abbrev pub is_stale : ℕ → ℕ → PresenceInfo → Bool
is_stale now timeout info = ltb (info.last_seen + timeout) now

-- No member stands twice in a channel.
abbrev pub HasDistinctMembers : ChannelPresence → Type 0
HasDistinctMembers cp = Distinct cp.members

stale_ids_absent :
    (now timeout : ℕ) (k : String) (m : Map String PresenceInfo)
    → Map.lookup k m ≡ none
    → elem k (stale_ids now timeout m) ≡ false
unfolding stale_ids Map.lookup
stale_ids_absent now timeout k [] h = refl
stale_ids_absent now timeout k ((i, info) ∷ m) h = ground (arith, stale_ids_absent now timeout k m)

elem-stale_ids :
    (now timeout : ℕ) (k : String) (m : Map String PresenceInfo)
    → Distinct m
    → elem k (stale_ids now timeout m) ≡ is_some (kept_if (is_stale now timeout) (Map.lookup k m))
unfolding stale_ids Map.lookup
elem-stale_ids now timeout k [] d = refl
elem-stale_ids now timeout k ((i, info) ∷ m) d = ground (
  arith,
  elem-stale_ids now timeout k m d.1,
  stale_ids_absent now timeout i m d.0,
  eq_iff i k,
  λ (q : i ≡ k). ap (λ z. elem z (stale_ids now timeout m)) q,
)

lookup-remove_each :
    (ids : List String) (m : Map String PresenceInfo) (k : String)
    → Map.lookup k (remove_each ids m) ≡ (if elem k ids then none else Map.lookup k m)
unfolding remove_each
lookup-remove_each [] m k = refl
lookup-remove_each (i ∷ ids) m k =
    ground (arith, lookup-remove_each ids (Map.remove i m) k, lookup-remove i k m)

-- Where no member stands twice in a channel, `evict_stale` keeps exactly the members that were seen
-- in time.
pub get-evict_stale :
    (now timeout : ℕ) (t : PresenceTracker) (j k : String)
    → AllValues HasDistinctMembers t.channels
    → get j k (evict_stale now timeout t).0
      ≡ kept_if (λ i. not (is_stale now timeout i)) (get j k t)
unfolding get evict_stale
get-evict_stale now timeout t j k d = elim (Option-cases (Map.lookup j t.channels)) [
  | inl e ↦ ground (arith, e, lookup-map_entries j (λ _ cp. sweep now timeout cp) t.channels)
  | inr (cp, e) ↦ ground (
    arith,
    e,
    lookup-map_entries j (λ _ cp. sweep now timeout cp) t.channels,
    lookup-remove_each (stale_ids now timeout cp.members) cp.members k,
    elem-stale_ids now timeout k cp.members,
    Map.All.AllValues-lookup HasDistinctMembers j t.channels d e,
  )
]

abbrev pub has_pair : String → String → List (String × String) → Bool
has_pair j k [] = false
has_pair j k ((c, i) ∷ ps) = c == j && i == k || has_pair j k ps

has_pair-append :
    (j k : String) (ps qs : List (String × String))
    → has_pair j k (ps ++ qs) ≡ (has_pair j k ps || has_pair j k qs)
has_pair-append j k [] qs = refl
has_pair-append j k ((c, i) ∷ ps) qs = ground (arith, has_pair-append j k ps qs)

has_pair-map :
    (j k c : String) (ids : List String)
    → has_pair j k (map (λ id. (c, id)) ids) ≡ (c == j && elem k ids)
has_pair-map j k c [] = ground arith
has_pair-map j k c (i ∷ ids) = ground (arith, has_pair-map j k c ids)

evicted_from_absent :
    (now timeout : ℕ) (j k : String) (m : Map String ChannelPresence)
    → Map.lookup j m ≡ none
    → has_pair j k (evicted_from now timeout m) ≡ false
unfolding evicted_from Map.lookup
evicted_from_absent now timeout j k [] h = refl
evicted_from_absent now timeout j k ((c, cp) ∷ m) h = ground (
  arith,
  has_pair-append j k (map (λ id. (c, id)) (stale_ids now timeout cp.members))
      (evicted_from now timeout m),
  has_pair-map j k c (stale_ids now timeout cp.members),
  evicted_from_absent now timeout j k m,
)

has_pair-evicted_from :
    (now timeout : ℕ) (j k : String) (m : Map String ChannelPresence)
    → Distinct m
    → AllValues HasDistinctMembers m
    → has_pair j k (evicted_from now timeout m)
      ≡ is_some (kept_if (is_stale now timeout) (member j k m))
unfolding evicted_from member Map.lookup
has_pair-evicted_from now timeout j k [] d a = refl
has_pair-evicted_from now timeout j k ((c, cp) ∷ m) d a = ground (
  arith,
  has_pair-append j k (map (λ id. (c, id)) (stale_ids now timeout cp.members))
      (evicted_from now timeout m),
  has_pair-map j k c (stale_ids now timeout cp.members),
  elem-stale_ids now timeout k cp.members a.0,
  evicted_from_absent now timeout c k m d.0,
  has_pair-evicted_from now timeout j k m d.1 a.1,
  eq_iff c j,
  λ (q : c ≡ j). ap (λ z. has_pair z k (evicted_from now timeout m)) q,
)

-- Where no channel stands twice in the table and no member twice in a channel, the pairs that
-- `evict_stale` returns are exactly the members that were not seen in time.
pub has_pair-evict_stale :
    (now timeout : ℕ) (t : PresenceTracker) (j k : String)
    → Distinct t.channels
    → AllValues HasDistinctMembers t.channels
    → has_pair j k (evict_stale now timeout t).1
      ≡ is_some (kept_if (is_stale now timeout) (get j k t))
unfolding evict_stale get member
has_pair-evict_stale now timeout t j k d a = has_pair-evicted_from now timeout j k t.channels d a

listed-unlist_each :
    (ps : List (String × String)) (m : Map String (List String)) (j k : String)
    → listed j k (unlist_each ps m) ≡ (if has_pair j k ps then false else listed j k m)
unfolding unlist_each
listed-unlist_each [] m j k = refl
listed-unlist_each ((c, i) ∷ ps) m j k =
    ground (arith, listed-unlist_each ps (unlist c i m) j k, listed-unlist c i j k m)

pub listed-evict_stale :
    (now timeout : ℕ) (t : PresenceTracker) (j k : String)
    → listed j k (evict_stale now timeout t).0.client_channels
      ≡ (if has_pair j k (evict_stale now timeout t).1 then false else listed j k t.client_channels)
unfolding evict_stale
listed-evict_stale now timeout t j k =
    listed-unlist_each (evicted_from now timeout t.channels) t.client_channels j k
