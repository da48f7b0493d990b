-- ===== src/Realtime/Presence.antt =====
-- src/realtime/presence.rs: which clients are present in which channels.
-- Each method is one atomic step on the tracker; `now_secs()` is an argument. Times are natural
-- numbers of one unit (the source has `f64` seconds), and `last_seen < now - timeout` is written
-- `last_seen + timeout < now`.
mod Lookup
mod Stale
mod Index
mod Diff
mod Tests
use mathlib.Core.Option
use hypern.Prelude.{
  ℕ, ◌+◌, String, Bool, false, not, ◌&&◌, ◌||◌, Option, none, some, List, [], ◌∷◌, ◌++◌, map, ltb,
  if◌then◌else◌, or_default, length, is_empty, discard, string_eq, nat_eq,
}
use hypern.Prelude.Map
use hypern.Prelude.Map.{Map}

pub record PresenceInfo : Type 0 where
  pub client_id : String
  pub channel : String
  pub metadata : Map String String
  pub joined_at : ℕ
  pub last_seen : ℕ

-- PresenceInfo::new
abbrev pub new_info : String → String → Option (Map String String) → ℕ → PresenceInfo
new_info client_id channel metadata now = record {
  client_id = client_id;
  channel = channel;
  metadata = or_default [] metadata;
  joined_at = now;
  last_seen = now;
}

pub record PresenceDiff : Type 0 where
  pub joins : List PresenceInfo
  pub leaves : List String

abbrev pub has_changes : PresenceDiff → Bool
has_changes d = not (is_empty d.joins) || not (is_empty d.leaves)

abbrev pub change_count : PresenceDiff → ℕ
change_count d = length d.joins + length d.leaves

pub record ChannelPresence : Type 0 where
  pub members : Map String PresenceInfo
  pub pending_joins : List PresenceInfo
  pub pending_leaves : List String

-- ChannelPresence::new
abbrev pub new_channel : ChannelPresence
new_channel = record { members = []; pending_joins = []; pending_leaves = [] }

pub record PresenceTracker : Type 0 where
  pub channels : Map String ChannelPresence
  pub client_channels : Map String (List String)

-- PresenceTracker::new
abbrev pub new : PresenceTracker
new = record { channels = []; client_channels = [] }

abbrev pub add_member : String → PresenceInfo → ChannelPresence → ChannelPresence
add_member client_id info cp = record cp { members = Map.insert client_id info cp.members }

abbrev pub queue_join : PresenceInfo → ChannelPresence → ChannelPresence
queue_join info cp = record cp { pending_joins = cp.pending_joins ++ info ∷ [] }

unfoldable pub track :
    String
    → String
    → Option (Map String String)
    → ℕ
    → PresenceTracker
    → PresenceTracker × PresenceInfo
track channel client_id metadata now t =
    let info = new_info client_id channel metadata now in
    let entered =
      Map.insert channel
        (add_member client_id info (or_default new_channel (Map.lookup channel t.channels)))
        t.channels in
    (
      record {
        channels = Map.modify channel (queue_join info) entered;
        client_channels =
            Map.insert client_id
              (or_default [] (Map.lookup client_id t.client_channels) ++ channel ∷ [])
              t.client_channels;
      },
      info,
    )

-- `members.remove(id).is_some()`, and the leave that it queues
abbrev pub leave : String → ChannelPresence → ChannelPresence
leave client_id cp =
    if Map.contains_key client_id cp.members
    then record cp {
      members = Map.remove client_id cp.members;
      pending_leaves = cp.pending_leaves ++ client_id ∷ [];
    }
    else cp

abbrev pub is_unused : ChannelPresence → Bool
is_unused cp = is_empty cp.members && is_empty cp.pending_joins && is_empty cp.pending_leaves

-- "Clean up empty channels"
unfoldable pub drop_unused : String → Map String ChannelPresence → Map String ChannelPresence
drop_unused channel m = elim (Map.lookup channel m) [
  | none ↦ m
  | some cp ↦ if is_unused cp then Map.remove channel m else m
]

-- "Update client → channels mapping"
unfoldable pub unlist : String → String → Map String (List String) → Map String (List String)
unlist channel client_id m = elim (Map.lookup client_id m) [
  | none ↦ m
  | some channels ↦
      if is_empty (discard channel channels)
      then Map.remove client_id m
      else Map.modify client_id (discard channel) m
]

abbrev pub is_member : String → Option ChannelPresence → Bool
is_member client_id none = false
is_member client_id (some cp) = Map.contains_key client_id cp.members

unfoldable pub untrack : String → String → PresenceTracker → PresenceTracker × Bool
unfolding drop_unused unlist
untrack channel client_id t = (
  record {
    channels = drop_unused channel (Map.modify channel (leave client_id) t.channels);
    client_channels = unlist channel client_id t.client_channels;
  },
  is_member client_id (Map.lookup channel t.channels),
)

-- The loop of `untrack_all`.
unfoldable pub leave_each :
    String → List String → Map String ChannelPresence → Map String ChannelPresence
leave_each client_id [] m = m
leave_each client_id (channel ∷ rest) m =
    leave_each client_id rest (Map.modify channel (leave client_id) m)

unfoldable pub untrack_all : String → PresenceTracker → PresenceTracker × List String
unfolding leave_each
untrack_all client_id t = elim (Map.lookup client_id t.client_channels) [
  | none ↦ (t, [])
  | some channels_left ↦ (
    record {
      channels = leave_each client_id channels_left t.channels;
      client_channels = Map.remove client_id t.client_channels;
    },
    channels_left,
  )
]

unfoldable pub get : String → String → PresenceTracker → Option PresenceInfo
get channel client_id t = elim (Map.lookup channel t.channels) [
  | none ↦ none
  | some cp ↦ Map.lookup client_id cp.members
]

-- What `update` and `touch` do to a member.
abbrev pub change_member :
    String → (PresenceInfo → PresenceInfo) → ChannelPresence → ChannelPresence
change_member client_id f cp = record cp { members = Map.modify client_id f cp.members }

unfoldable pub update :
    String → String → Map String String → ℕ → PresenceTracker → PresenceTracker × Bool
update channel client_id metadata now t = (
  record t {
    channels =
        Map.modify channel
          (change_member client_id (λ i. record i { metadata = metadata; last_seen = now }))
          t.channels;
  },
  is_member client_id (Map.lookup channel t.channels),
)

unfoldable pub touch : String → String → ℕ → PresenceTracker → PresenceTracker × Bool
touch channel client_id now t = (
  record t {
    channels =
        Map.modify channel (change_member client_id (λ i. record i { last_seen = now })) t.channels;
  },
  is_member client_id (Map.lookup channel t.channels),
)

unfoldable pub list : String → PresenceTracker → List PresenceInfo
list channel t = elim (Map.lookup channel t.channels) [
  | none ↦ []
  | some cp ↦ Map.values cp.members
]

unfoldable pub count : String → PresenceTracker → ℕ
count channel t = elim (Map.lookup channel t.channels) [ none ↦ 0 | some cp ↦ length cp.members ]

abbrev pub flushed : ChannelPresence → ChannelPresence
flushed cp = record cp { pending_joins = []; pending_leaves = [] }

unfoldable pub flush_diff : String → PresenceTracker → PresenceTracker × PresenceDiff
flush_diff channel t = elim (Map.lookup channel t.channels) [
  | none ↦ (t, record { joins = []; leaves = [] })
  | some cp ↦ (
    record t { channels = Map.modify channel flushed t.channels },
    record { joins = cp.pending_joins; leaves = cp.pending_leaves },
  )
]

-- The method `client_channels`.
unfoldable pub channels_of : String → PresenceTracker → List String
channels_of client_id t = or_default [] (Map.lookup client_id t.client_channels)

unfoldable pub total_clients : PresenceTracker → ℕ
total_clients t = length t.client_channels

-- The ids whose `last_seen` lies before the cutoff.
unfoldable pub stale_ids : ℕ → ℕ → Map String PresenceInfo → List String
stale_ids now timeout [] = []
stale_ids now timeout ((id, info) ∷ m) =
    let rest = stale_ids now timeout m in
    if ltb (info.last_seen + timeout) now then id ∷ rest else rest

remove_each : List String → Map String PresenceInfo → Map String PresenceInfo
remove_each [] m = m
remove_each (id ∷ ids) m = remove_each ids (Map.remove id m)

-- One round of the loop of `evict_stale` over the channels.
abbrev sweep : ℕ → ℕ → ChannelPresence → ChannelPresence
sweep now timeout cp =
    let stale = stale_ids now timeout cp.members in
    record cp {
      members = remove_each stale cp.members;
      pending_leaves = cp.pending_leaves ++ stale;
    }

-- The pairs that the loop pushes to `evicted`.
evicted_from : ℕ → ℕ → Map String ChannelPresence → List (String × String)
unfolding stale_ids
evicted_from now timeout [] = []
evicted_from now timeout ((channel, cp) ∷ m) =
    map (λ id. (channel, id)) (stale_ids now timeout cp.members) ++ evicted_from now timeout m

-- The second loop of `evict_stale`.
unlist_each : List (String × String) → Map String (List String) → Map String (List String)
unfolding unlist
unlist_each [] m = m
unlist_each ((channel, id) ∷ pairs) m = unlist_each pairs (unlist channel id m)

unfoldable pub evict_stale : ℕ → ℕ → PresenceTracker → PresenceTracker × List (String × String)
unfolding evicted_from unlist_each remove_each
evict_stale now timeout t =
    let evicted = evicted_from now timeout t.channels in
    (
      record {
        channels = Map.map_entries (λ _ cp. sweep now timeout cp) t.channels;
        client_channels = unlist_each evicted t.client_channels;
      },
      evicted,
    )

unfoldable pub clear : PresenceTracker → PresenceTracker
clear t = new

-- The calls that change the state, and a history of them.
pub data Call : Type 0 where
  tracks : String → String → Option (Map String String) → ℕ → Call
  untracks : String → String → Call
  leaves_all : String → Call
  updates : String → String → Map String String → ℕ → Call
  touches : String → String → ℕ → Call
  flushes : String → Call
  evicts : ℕ → ℕ → Call
  clears : Call

unfoldable pub step : PresenceTracker → Call → PresenceTracker
step t (tracks channel id metadata now) = (track channel id metadata now t).0
step t (untracks channel id) = (untrack channel id t).0
step t (leaves_all id) = (untrack_all id t).0
step t (updates channel id metadata now) = (update channel id metadata now t).0
step t (touches channel id now) = (touch channel id now t).0
step t (flushes channel) = (flush_diff channel t).0
step t (evicts now timeout) = (evict_stale now timeout t).0
step t clears = clear t

unfoldable pub run : PresenceTracker → List Call → PresenceTracker
run t [] = t
run t (c ∷ cs) = run (step t c) cs
