-- ===== src/Core/Events.antt =====
-- src/backend/core/events.py: the event bus on Redis, for the channel and the replay list of one
-- run. A message is the JSON text of an event; `dump` writes it and `seq_num` reads its number, or
-- fails where the text is no JSON. A failing Redis raises at a command.
pub mod Replay
use crucible.Base.{
  ℕ, suc, ◌+◌, ◌-◌, String, Bool, true, false, List, [], ◌∷◌, ◌++◌, Option, none, some, ltb, drop,
  length, if◌then◌else◌,
}
use crucible.Worker.Execution.{EvaluationEvent}

-- the keys of one run: what the channel has delivered, and the replay list with its expiry
pub record Bus : Type 0 where
  pub channel : List String
  pub replay : List String
  pub expires_at : ℕ

pub record Json (F : Type 0) : Type 0 where
  pub dump : EvaluationEvent F → String
  pub seq_num : String → Option ℕ

-- MAX_REPLAY_BUFFER_SIZE and REPLAY_BUFFER_TTL_SECONDS
abbrev pub max_replay_buffer_size : ℕ
max_replay_buffer_size = 200

abbrev pub replay_buffer_ttl_seconds : ℕ
replay_buffer_ttl_seconds = 3600

-- the list as a command at the time `now` finds it
unfoldable pub lrange : (now : ℕ) → Bus → List String
lrange now b = if ltb now b.expires_at then b.replay else []

-- `LTRIM key -n -1`: the last n items
abbrev pub ltrim : (n : ℕ) → List String → List String
ltrim n xs = drop (length xs - n) xs

-- How the commands of one publication go.
pub data Transport : Type 0 where
  up publish_raises store_raises : Transport

unfoldable pub store_for_replay : (now : ℕ) → String → Bus → Bus
unfolding lrange
store_for_replay now message b = record b {
  replay = ltrim max_replay_buffer_size (lrange now b ++ message ∷ []);
  expires_at = now + replay_buffer_ttl_seconds;
}

abbrev pub deliver : String → Bus → Bus
deliver message b = record b { channel = b.channel ++ message ∷ [] }

-- `EventBus.publish_evaluation_event` returns also where the transport raises; the list of a run
-- is not written where the channel failed
unfoldable pub publish_evaluation_event :
    {F : Type 0} → Json F → Transport → (now : ℕ) → EvaluationEvent F → Bus → Bus
unfolding store_for_replay
publish_evaluation_event json up now event b =
    let payload = json.dump event in store_for_replay now payload (deliver payload b)
publish_evaluation_event json publish_raises now event b = b
publish_evaluation_event json store_raises now event b = deliver (json.dump event) b

-- `parsed.get("seq_num", 0) > after_seq`, and a text that is no JSON is left out
abbrev pub is_after : {F : Type 0} → Json F → (after_seq : ℕ) → String → Bool
is_after json after_seq raw = elim (json.seq_num raw) [ none ↦ false | some n ↦ ltb after_seq n ]

unfoldable pub keep_after : {F : Type 0} → Json F → (after_seq : ℕ) → List String → List String
keep_after json after_seq [] = []
keep_after json after_seq (raw ∷ all_events) =
    let replay = keep_after json after_seq all_events in
    if is_after json after_seq raw then raw ∷ replay else replay

unfoldable pub get_replay_events :
    {F : Type 0} → Json F → (redis_up : Bool) → (now after_seq : ℕ) → Bus → List String
unfolding lrange keep_after
get_replay_events json false now after_seq b = []
get_replay_events json true now after_seq b = keep_after json after_seq (lrange now b)
